-- ===== src/Demo/Softirq/Liveness.antt =====
-- When `softirq_process` returns, and what it has run by then.
use mathlib.Core.Option
use team_os_3_0_baios.Base.{
  ℕ, zero, suc, ◌+◌, ◌≤◌, ◌<◌, ◌≡◌, refl, sym, ap, ◌∙◌, List, [], ◌∷◌, ◌++◌, append-nil,
  append_assoc, Option, none, some, arith, Bool-cases, inl, inr, ◌⊎◌, ◌==◌, length, ltb,
}
use team_os_3_0_baios.Queue.{enqueue}
use team_os_3_0_baios.Demo.Softirq.{Softirqs, Item, process}
use team_os_3_0_baios.Demo.Softirq.Refine.{
  IsValid, waiting, limit, put, put_all, run_queue, process_refines, calls_of, Ended,
}

-- The weight of a list of items.
abbrev pub weigh : (Item → ℕ) → List Item → ℕ
weigh w [] = 0
weigh w (x ∷ xs) = w x + weigh w xs

weigh-append : (w : Item → ℕ) (xs ys : List Item) → weigh w (xs ++ ys) ≡ weigh w xs + weigh w ys
weigh-append w [] ys = omega arith
weigh-append w (x ∷ xs) ys = omega (arith, weigh-append w xs ys)

-- What is put leaves the queue in front, and adds the item or nothing.
put-cases : (q : List Item) (x : Item) → ((put q x).1 ≡ q) ⊎ ((put q x).1 ≡ q ++ (x ∷ []))
unfolding put enqueue
put-cases q x = elim (Bool-cases (x.fn == 0)) [
  | inl null ↦ inl (rw null refl)
  | inr set_fn ↦ elim (Bool-cases (ltb (length q) limit)) [
    | inl room ↦ inr (rw (set_fn, room) refl)
    | inr full ↦ inl (rw (set_fn, full) refl)
  ]
]

weigh-put_all : (w : Item → ℕ) (q xs : List Item) → weigh w (put_all q xs) ≤ weigh w q + weigh w xs
weigh-put_all w q [] = omega arith
weigh-put_all w q (x ∷ xs) = elim (put-cases q x) [
  | inl e ↦ rw e (omega (arith, weigh-put_all w q xs))
  | inr e ↦ rw e (omega (arith, weigh-put_all w (q ++ (x ∷ [])) xs, weigh-append w q (x ∷ [])))
]

put_all-prefix : (q xs : List Item) → (rest : List Item) × (put_all q xs ≡ q ++ rest)
put_all-prefix q [] = ([], sym (append-nil q))
put_all-prefix q (x ∷ xs) = elim (put-cases q x) [
  | inl e ↦ rw e (put_all-prefix q xs)
  | inr e ↦
      let (rest, f) = put_all-prefix (q ++ (x ∷ [])) xs in
      rw e (x ∷ rest, f ∙ append_assoc q (x ∷ []) rest)
]

-- Each function raises softirqs of less weight than its own.
abbrev pub Lighter : (Item → ℕ) → (Item → List Item) → Type 0
Lighter w raises = (x : Item) → weigh w (raises x) < w x

-- What waits is run first, and as much fuel as the queue weighs is enough.
run_queue-some :
    (w : Item → ℕ) (raises : Item → List Item)
    → Lighter w raises
    → (fuel : ℕ) (q : List Item) → weigh w q < fuel
    → (rest : List Item) × (run_queue raises fuel q ≡ some (q ++ rest))
unfolding run_queue
run_queue-some w raises lighter zero q h = absurd (omega arith)
run_queue-some w raises lighter (suc fuel) [] h = ([], refl)
run_queue-some w raises lighter (suc fuel) (x ∷ q) h =
    let (added, e) = put_all-prefix q (raises x) in
    let (rest, f) =
      run_queue-some w raises lighter fuel (put_all q (raises x))
        (omega (arith, weigh-put_all w q (raises x), lighter x)) in
    (
      added ++ rest,
      ap (Option.map (◌∷◌ x)) f
          ∙ ap (λ y. some (x ∷ y)) (ap (λ y. y ++ rest) e ∙ append_assoc q added rest),
    )

out_of :
    (out : Option (List Item × Softirqs)) (calls : List Item)
    → calls_of out ≡ some calls
    → Ended out
    → (s' : Softirqs) × (out ≡ some (calls, s')) × (waiting s' ≡ []) × IsValid s'
out_of none calls e h = absurd (cc e)
out_of (some (done, s')) calls e (h, v) = (s', cc e, h, v)

-- If each function raises softirqs of less total weight than its own, for some weight, then
-- `softirq_process` ends from every valid state, on more fuel than what waits weighs: it has called
-- everything that waited, in order, then what was raised on the way, and nothing waits any more.
pub process-ends :
    (w : Item → ℕ) (raises : Item → List Item) (fuel : ℕ) {s : Softirqs}
    → Lighter w raises
    → IsValid s
    → weigh w (waiting s) < fuel
    → (rest : List Item) × (s' : Softirqs) × (process raises fuel s ≡ some (waiting s ++ rest, s'))
      × (waiting s' ≡ [])
      × IsValid s'
process-ends w raises fuel {s} lighter v h =
    let (calls, ended) = process_refines raises fuel v in
    let (rest, e) = run_queue-some w raises lighter fuel (waiting s) h in
    let (s', done, none_left, v') =
      out_of (process raises fuel s) (waiting s ++ rest) (calls ∙ e) ended in
    (rest, s', done, none_left, v')
