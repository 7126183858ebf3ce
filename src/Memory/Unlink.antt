-- ===== src/Memory/Unlink.antt =====
-- Removing a page from a free list, wherever it stands: what `list_remove` does to the links.
use team_os_3_0_baios.Base.{
  ℕ, ◌≡◌, ◌≢◌, refl, List, [], ◌∷◌, ◌++◌, Option, none, some, true, arith, Bool-cases, inl, inr,
  ◌==◌, sym, ap, subst, ◌∙◌, update,
}
use team_os_3_0_baios.Memory.{Page, list_remove, unlink_next, unlink_prev}
use team_os_3_0_baios.Memory.Chain.{Absent, Distinct, update_other, update_same}

-- The pointer points to none of these pages.
abbrev pub Off : Option ℕ → List ℕ → Type 0
Off o [] = Unit {0}
Off o (x ∷ xs) = (o ≢ some x) × Off o xs

pub some-Off : (o : Option ℕ) (y : ℕ) (ys : List ℕ) → o ≡ some y → Absent y ys → Off o ys
some-Off o y [] e a = tt
some-Off o y (x ∷ ys) e (n, a) = (differ, some-Off o y ys e a)
  where
    differ : o ≢ some x
    differ h = n (cc (e, h))

pub Absent-split :
    (z p : ℕ) (xs ys : List ℕ) → Absent z (xs ++ (p ∷ ys)) → Absent z xs × (z ≢ p) × Absent z ys
Absent-split z p [] ys (n, a) = (tt, n, a)
Absent-split z p (x ∷ xs) ys (n, a) = let (b, m, c) = Absent-split z p xs ys a in ((n, b), m, c)

Absent-join : (z : ℕ) (xs ys : List ℕ) → Absent z xs → Absent z ys → Absent z (xs ++ ys)
Absent-join z [] ys a b = b
Absent-join z (x ∷ xs) ys (n, a) b = (n, Absent-join z xs ys a b)

pub Distinct-drop : (p : ℕ) (xs ys : List ℕ) → Distinct (xs ++ (p ∷ ys)) → Distinct (xs ++ ys)
Distinct-drop p [] ys d = d.1
Distinct-drop p (x ∷ xs) ys (a, d) =
    let (b, _, c) = Absent-split x p xs ys a in (Absent-join x xs ys b c, Distinct-drop p xs ys d)

-- What the write to one page keeps of every page.
update-field {ℓ} :
    {B : Type ℓ} (g : Page → B) (pages : ℕ → Page) (p x : ℕ) (v : Page)
    → g v ≡ g (pages p)
    → g (update pages p v x) ≡ g (pages x)
update-field g pages p x v e = elim (Bool-cases (p == x)) [
  | inl h ↦ rw h (e ∙ ap (λ i. g (pages i)) (same p x h))
  | inr h ↦ rw h refl
]
  where
    same : (a b : ℕ) → ((a == b) ≡ true) → a ≡ b
    same a b h = ground arith

module _ (pages : ℕ → Page) (p x : ℕ) where
  unlink_next-other :
      (head before : Option ℕ) → before ≢ some x → (unlink_next pages head p before).0 x ≡ pages x
  unlink_next-other head none n = refl
  unlink_next-other head (some a) n =
      update_other pages a x (record (pages a) { next = (pages p).next }) (λ e. n (ap some e))

  unlink_next-at :
      (head before : Option ℕ)
      → before ≡ some x
      → ((unlink_next pages head p before).0 x).next ≡ (pages p).next
  unlink_next-at head before e =
      subst (λ b. ((unlink_next pages head p b).0 x).next ≡ (pages p).next) (sym e)
        (ap (λ (q : Page). q.next)
          (update_same pages x (record (pages x) { next = (pages p).next })))

  unlink_next-prev :
      (head before : Option ℕ) → ((unlink_next pages head p before).0 x).prev ≡ (pages x).prev
  unlink_next-prev head none = refl
  unlink_next-prev head (some a) =
      update-field (λ q. q.prev) pages a x (record (pages a) { next = (pages p).next }) refl

  unlink_prev-other : (after : Option ℕ) → after ≢ some x → unlink_prev pages p after x ≡ pages x
  unlink_prev-other none n = refl
  unlink_prev-other (some b) n =
      update_other pages b x (record (pages b) { prev = (pages p).prev }) (λ e. n (ap some e))

  unlink_prev-at :
      (after : Option ℕ) → after ≡ some x → (unlink_prev pages p after x).prev ≡ (pages p).prev
  unlink_prev-at after e =
      subst (λ b. (unlink_prev pages p b x).prev ≡ (pages p).prev) (sym e)
        (ap (λ (q : Page). q.prev)
          (update_same pages x (record (pages x) { prev = (pages p).prev })))

  unlink_prev-next : (after : Option ℕ) → (unlink_prev pages p after x).next ≡ (pages x).next
  unlink_prev-next none = refl
  unlink_prev-next (some b) =
      update-field (λ q. q.next) pages b x (record (pages b) { prev = (pages p).prev }) refl

-- The links after the removal of `p`: the page before it leads to the page after it, and back.
pub record Unlinks (F pages : ℕ → Page) (p : ℕ) : Type 0 where
  pub next_at : (x : ℕ) → p ≢ x → (pages p).prev ≡ some x → (F x).next ≡ (pages p).next
  pub next_off : (x : ℕ) → p ≢ x → (pages p).prev ≢ some x → (F x).next ≡ (pages x).next
  pub prev_at : (x : ℕ) → p ≢ x → (pages p).next ≡ some x → (F x).prev ≡ (pages p).prev
  pub prev_off : (x : ℕ) → p ≢ x → (pages p).next ≢ some x → (F x).prev ≡ (pages x).prev

pub list_remove-Unlinks :
    (pages : ℕ → Page) (head : Option ℕ) (p : ℕ)
    → (pages p).prev ≢ some p
    → Unlinks (list_remove pages head p).0 pages p
unfolding list_remove
list_remove-Unlinks pages head p self =
    let pages1 = (unlink_next pages head p (pages p).prev).0 in
    let pages2 = unlink_prev pages1 p (pages1 p).next in
    let last : Page = record (pages2 p) { next = none; prev = none } in
    let same : pages1 p ≡ pages p = unlink_next-other pages p p head (pages p).prev self in
    let after : (pages1 p).next ≡ (pages p).next = ap (λ (q : Page). q.next) same in
    record {
      next_at = λ x n e.
          ap (λ (q : Page). q.next) (update_other pages2 p x last n)
          ∙ unlink_prev-next pages1 p x (pages1 p).next
          ∙ unlink_next-at pages p x head (pages p).prev e;
      next_off = λ x n e.
          ap (λ (q : Page). q.next) (update_other pages2 p x last n)
          ∙ unlink_prev-next pages1 p x (pages1 p).next
          ∙ ap (λ (q : Page). q.next) (unlink_next-other pages p x head (pages p).prev e);
      prev_at = λ x n e.
          ap (λ (q : Page). q.prev) (update_other pages2 p x last n)
          ∙ unlink_prev-at pages1 p x (pages1 p).next (after ∙ e)
          ∙ ap (λ (q : Page). q.prev) same;
      prev_off = λ x n e.
          ap (λ (q : Page). q.prev) (update_other pages2 p x last n)
          ∙ ap (λ (q : Page). q.prev)
              (unlink_prev-other pages1 p x (pages1 p).next (λ h. e (sym after ∙ h)))
          ∙ unlink_next-prev pages p x head (pages p).prev;
    }
