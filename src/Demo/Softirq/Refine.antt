-- ===== src/Demo/Softirq/Refine.antt =====
-- The softirq queue as a bounded queue: raising appends, and processing runs from the front.
use team_os_3_0_baios.Base.{
  ℕ, zero, suc, ◌+◌, ◌%◌, ◌<◌, ◌≡◌, ◌≢◌, inl, inr, refl, sym, ap, subst, ◌∙◌, List, [], ◌∷◌, ◌++◌,
  Option, none, some, Bool, true, false, ◌==◌, if◌then◌else◌, get_or, set, length, length-set,
  arith, Bool-cases, ℕ_discrete,
}
use mathlib.Core.Option
use team_os_3_0_baios.Circular.{
  entries, entries-push, entries-pop, entries_empty, length-entries, used_of_full, used-next_head,
  used,
}
use team_os_3_0_baios.Queue.{enqueue}
use team_os_3_0_baios.Demo.Error.{Error, ok, invalid_arg, busy}
use team_os_3_0_baios.Demo.Softirq.{
  Softirqs, Item, zero_item, max_softirq, raise, raise_all, run_item, process_one, process,
  with_calls,
}

-- The items that wait, oldest first.
abbrev pub waiting : Softirqs → List Item
waiting s = entries zero_item max_softirq s.queue s.head s.tail

-- One place always stays free.
abbrev pub limit : ℕ
limit = 31

-- No item is the null function.
abbrev pub AllSet : List Item → Type 0
AllSet [] = Unit {0}
AllSet (x ∷ xs) = (x.fn ≢ 0) × AllSet xs

AllSet-append : (xs : List Item) (x : Item) → AllSet xs → x.fn ≢ 0 → AllSet (xs ++ (x ∷ []))
AllSet-append [] x a n = (n, tt)
AllSet-append (y ∷ xs) x a n = (a.0, AllSet-append xs x a.1 n)

pub record IsValid (s : Softirqs) : Type 0 where
  pub sized : length s.queue ≡ max_softirq
  pub head_in : s.head < max_softirq
  pub tail_in : s.tail < max_softirq
  pub set_all : AllSet (waiting s)

-- What a raise says, by whether there was room.
abbrev pub raised : Item → Bool → Error
raised item room = if item.fn == 0 then invalid_arg else if room then ok else busy

-- On the queue of those that wait: a null function is not taken, and any other as `enqueue` does.
unfoldable pub put : List Item → Item → Bool × List Item
put q item = if item.fn == 0 then (false, q) else enqueue limit q item

-- What a raise of a function comes to.
pub record Raised (s : Softirqs) (item : Item) (out : Error × Softirqs) : Type 0 where
  pub status : out.0 ≡ raised item (put (waiting s) item).0
  pub queue : waiting out.1 ≡ (put (waiting s) item).1
  pub valid : IsValid out.1

raise_null :
    (s : Softirqs) (item : Item) → ((item.fn == 0) ≡ true) → raise s item ≡ (invalid_arg, s)
unfolding raise
raise_null s item e = ground arith

raise_full :
    (s : Softirqs) (item : Item)
    → ((item.fn == 0) ≡ false)
    → (s.head + 1) % max_softirq ≡ s.tail
    → raise s item ≡ (busy, s)
unfolding raise
raise_full s item e f = ground arith

-- The state after a raise with room.
abbrev added : Softirqs → Item → Softirqs
added s item = record s { queue = set s.queue s.head item; head = (s.head + 1) % max_softirq }

raise_room :
    (s : Softirqs) (item : Item)
    → ((item.fn == 0) ≡ false)
    → (s.head + 1) % max_softirq ≢ s.tail
    → raise s item ≡ (ok, added s item)
unfolding raise
raise_room s item e f = ground arith

put_null : (q : List Item) (item : Item) → ((item.fn == 0) ≡ true) → put q item ≡ (false, q)
unfolding put
put_null q item e = ground arith

put_full :
    (q : List Item) (item : Item)
    → ((item.fn == 0) ≡ false)
    → length q ≡ limit
    → put q item ≡ (false, q)
unfolding put enqueue
put_full q item e f = ground arith

put_room :
    (q : List Item) (item : Item)
    → ((item.fn == 0) ≡ false)
    → length q < limit
    → put q item ≡ (true, q ++ (item ∷ []))
unfolding put enqueue
put_room q item e f = ground arith

length-waiting : (s : Softirqs) → length (waiting s) ≡ used max_softirq s.head s.tail
length-waiting s = length-entries zero_item max_softirq s.queue s.head s.tail

-- With room a raise appends its item.
added-IsValid :
    {s : Softirqs} (item : Item)
    → IsValid s
    → ((item.fn == 0) ≡ false)
    → (s.head + 1) % max_softirq ≢ s.tail
    → (waiting (added s item) ≡ waiting s ++ (item ∷ [])) × IsValid (added s item)
added-IsValid {s} item v e f =
    let grown =
      entries-push zero_item max_softirq s.queue s.head s.tail item (omega (arith, v.sized))
        v.head_in v.tail_in f in
    (
      grown,
      record {
        sized = length-set s.queue s.head item ∙ v.sized;
        head_in = omega arith;
        tail_in = v.tail_in;
        set_all =
            subst AllSet (sym grown) (AllSet-append (waiting s) item v.set_all (ground arith));
      },
    )

-- The parts of `Raised`, from what the raise and `put` come to.
Raised-of :
    {s : Softirqs} (item : Item) (st : Error) (s' : Softirqs) (b : Bool) (q : List Item)
    → raise s item ≡ (st, s')
    → put (waiting s) item ≡ (b, q)
    → st ≡ raised item b
    → waiting s' ≡ q
    → IsValid s'
    → Raised s item (raise s item)
Raised-of {s} item st s' b q e p same grown v = subst (Raised s item) (sym e) record {
  status = same ∙ sym (ap (λ (r : Bool × List Item). raised item r.0) p);
  queue = grown ∙ sym (ap (λ (r : Bool × List Item). r.1) p);
  valid = v;
}

pub raise-Raised : {s : Softirqs} (item : Item) → IsValid s → Raised s item (raise s item)
raise-Raised {s} item v = elim (Bool-cases (item.fn == 0)) [
  | inl null ↦
      Raised-of item invalid_arg s false (waiting s) (raise_null s item null)
        (put_null (waiting s) item null) (rw null refl) refl v
  | inr set_fn ↦ elim (ℕ_discrete ((s.head + 1) % max_softirq) s.tail) [
    | yes full ↦
        let long : length (waiting s) ≡ limit =
          omega (arith, length-waiting s, used_of_full v.head_in v.tail_in full) in
        Raised-of item busy s false (waiting s) (raise_full s item set_fn full)
          (put_full (waiting s) item set_fn long) (rw set_fn refl) refl v
    | no room ↦
        let short : length (waiting s) < limit =
          omega (arith, length-waiting s, used-next_head v.head_in v.tail_in room) in
        let (grown, valid) = added-IsValid item v set_fn room in
        Raised-of item ok (added s item) true (waiting s ++ (item ∷ []))
          (raise_room s item set_fn room) (put_room (waiting s) item set_fn short) (rw set_fn refl)
          grown valid
  ]
]

-- Several raises on the queue of those that wait.
abbrev pub put_all : List Item → List Item → List Item
put_all q [] = q
put_all q (x ∷ xs) = put_all (put q x).1 xs

pub raise_all-waiting :
    (items : List Item) {s : Softirqs}
    → IsValid s
    → (waiting (raise_all s items) ≡ put_all (waiting s) items) × IsValid (raise_all s items)
unfolding raise_all
raise_all-waiting [] v = (refl, v)
raise_all-waiting (x ∷ xs) {s} v =
    let one = raise-Raised x v in
    let rest = raise_all-waiting xs one.valid in (rest.0 ∙ ap (λ q. put_all q xs) one.queue, rest.1)

-- `softirq_process` on the queue of those that wait: run the first, and append what it raises.
unfoldable pub run_queue : (raises : Item → List Item) → ℕ → List Item → Option (List Item)
run_queue raises zero q = none
run_queue raises (suc fuel) [] = some []
run_queue raises (suc fuel) (x ∷ q) =
    Option.map (◌∷◌ x) (run_queue raises fuel (put_all q (raises x)))

abbrev pub calls_of : Option (List Item × Softirqs) → Option (List Item)
calls_of none = none
calls_of (some (calls, s)) = some calls

-- A loop that has ended has left nothing waiting.
abbrev pub Ended : Option (List Item × Softirqs) → Type 0
Ended none = Unit {0}
Ended (some (calls, s)) = (waiting s ≡ []) × IsValid s

first_waiting :
    {s : Softirqs}
    → IsValid s
    → s.tail ≢ s.head
    → (q : List Item) × (waiting s ≡ get_or s.queue s.tail zero_item ∷ q)
      × (waiting (record s { tail = (s.tail + 1) % max_softirq }) ≡ q)
      × IsValid (record s { tail = (s.tail + 1) % max_softirq })
      × ((get_or s.queue s.tail zero_item).fn ≢ 0)
first_waiting {s} v ne =
    let popped =
      entries-pop zero_item max_softirq s.queue s.head s.tail v.head_in v.tail_in
        (λ e. ne (sym e)) in
    let all = subst AllSet popped v.set_all in
    (
      waiting (record s { tail = (s.tail + 1) % max_softirq }),
      popped,
      refl,
      record { sized = v.sized; head_in = v.head_in; tail_in = omega arith; set_all = all.1 },
      all.0,
    )

run_item-set :
    (raises : Item → List Item) (s : Softirqs) (item : Item)
    → item.fn ≢ 0
    → run_item raises s item ≡ (item ∷ [], raise_all s (raises item))
unfolding run_item
run_item-set raises s item n = ground arith

pub process_end :
    (raises : Item → List Item) (fuel : ℕ) (s : Softirqs)
    → s.tail ≡ s.head
    → process raises (suc fuel) s ≡ some ([], s)
unfolding process
process_end raises fuel s e = ground arith

process_more :
    (raises : Item → List Item) (fuel : ℕ) (s : Softirqs)
    → s.tail ≢ s.head
    → process raises (suc fuel) s
      ≡ with_calls (process_one raises s).0 (process raises fuel (process_one raises s).1)
unfolding process
process_more raises fuel s e = ground arith

calls_of-with_calls :
    (x : Item) (out : Option (List Item × Softirqs))
    → calls_of (with_calls (x ∷ []) out) ≡ Option.map (◌∷◌ x) (calls_of out)
calls_of-with_calls x none = refl
calls_of-with_calls x (some (calls, s)) = refl

Ended-with_calls :
    (x : Item) (out : Option (List Item × Softirqs)) → Ended out → Ended (with_calls (x ∷ []) out)
Ended-with_calls x none h = h
Ended-with_calls x (some (calls, s)) h = h

process-zero : (raises : Item → List Item) (s : Softirqs) → process raises zero s ≡ none
unfolding process
process-zero raises s = refl

process_one-set :
    (raises : Item → List Item) (s : Softirqs)
    → (get_or s.queue s.tail zero_item).fn ≢ 0
    → let item = get_or s.queue s.tail zero_item in
      process_one raises s
      ≡ (item ∷ [], raise_all (record s { tail = (s.tail + 1) % max_softirq }) (raises item))
unfolding process_one
process_one-set raises s n =
    run_item-set raises (record s { tail = (s.tail + 1) % max_softirq })
      (get_or s.queue s.tail zero_item) n

-- From a valid state, whatever the functions raise, `softirq_process` calls the functions that
-- wait in the order in which they were raised, those that are raised on the way at the end, as far
-- as there is room, and ends with nothing waiting; on the same fuel as the queue needs.
pub process_refines :
    (raises : Item → List Item) (fuel : ℕ) {s : Softirqs}
    → IsValid s
    → (calls_of (process raises fuel s) ≡ run_queue raises fuel (waiting s))
      × Ended (process raises fuel s)
unfolding run_queue
process_refines raises zero {s} v = rw (process-zero raises s) (refl, tt)
process_refines raises (suc fuel) {s} v = elim (ℕ_discrete s.tail s.head) [
  | yes e ↦
      let empty = entries_empty zero_item max_softirq s.queue s.head s.tail (sym e) in
      rw (process_end raises fuel s e) (sym (ap (run_queue raises (suc fuel)) empty), (empty, v))
  | no ne ↦
      let (q, w, w', v', n) = first_waiting v ne in
      let item = get_or s.queue s.tail zero_item in
      let (grown, valid) = raise_all-waiting (raises item) v' in
      let (calls, ended) = process_refines raises fuel valid in
      let out =
        process raises fuel
          (raise_all (record s { tail = (s.tail + 1) % max_softirq }) (raises item)) in
      rw (process_more raises fuel s ne, process_one-set raises s n)
        (
          calls_of-with_calls item out
              ∙ ap (Option.map (◌∷◌ item)) (
                  calls ∙ ap (run_queue raises fuel) (grown ∙ ap (λ x. put_all x (raises item)) w'))
              ∙ sym (ap (run_queue raises (suc fuel)) w),
          Ended-with_calls item out ended,
        )
]
