-- ===== src/Memory/Chain.antt =====
-- The free lists as doubly linked lists: what adding a page does to the links.
use team_os_3_0_baios.Base.{
  ℕ, ◌≡◌, ◌≢◌, refl, List, [], ◌∷◌, Option, none, some, arith, update, ◌∙◌, sym, ap, subst,
}
use team_os_3_0_baios.Memory.{Page, list_add, set_prev}

-- From `cur` on, with `before` in front, the links run through these pages and end.
abbrev pub Linked : (ℕ → Page) → Option ℕ → Option ℕ → List ℕ → Type 0
Linked pages before cur [] = cur ≡ none
Linked pages before cur (x ∷ xs) =
    (cur ≡ some x) × ((pages x).prev ≡ before) × Linked pages (some x) (pages x).next xs

abbrev pub Absent : ℕ → List ℕ → Type 0
Absent p [] = Unit {0}
Absent p (x ∷ xs) = (p ≢ x) × Absent p xs

-- No page stands in the list twice.
abbrev pub Distinct : List ℕ → Type 0
Distinct [] = Unit {0}
Distinct (x ∷ xs) = Absent x xs × Distinct xs

-- The list that starts at this head.
abbrev pub IsChain : (ℕ → Page) → Option ℕ → List ℕ → Type 0
IsChain pages head xs = Linked pages none head xs × Distinct xs

pub update_other {ℓ} : {A : Type ℓ} (f : ℕ → A) (i j : ℕ) (a : A) → i ≢ j → update f i a j ≡ f j
update_other f i j a n = ground arith

pub update_same {ℓ} : {A : Type ℓ} (f : ℕ → A) (i : ℕ) (a : A) → update f i a i ≡ a
update_same f i a = ground arith

-- A write to another page leaves the list.
pub Linked-update :
    (pages : ℕ → Page) (p : ℕ) (v : Page) (before cur : Option ℕ) (xs : List ℕ)
    → Absent p xs
    → Linked pages before cur xs
    → Linked (update pages p v) before cur xs
Linked-update pages p v before cur [] a h = h
Linked-update pages p v before cur (x ∷ xs) (n, a) (e, f, h) =
    let same = update_other pages p x v n in
    (
      e,
      ap (λ (q : Page). q.prev) same ∙ f,
      subst (λ (q : Page). Linked (update pages p v) (some x) q.next xs) (sym same)
          (Linked-update pages p v (some x) (pages x).next xs a h),
    )

-- The first page's back link, written anew.
Linked-set_prev :
    (pages : ℕ → Page) (b : Option ℕ) (x : ℕ) (before : Option ℕ) (xs : List ℕ)
    → Absent x xs
    → Linked pages before (some x) (x ∷ xs)
    → Linked (set_prev pages x b) b (some x) (x ∷ xs)
Linked-set_prev pages b x before xs a (e, f, h) =
    let v : Page = record (pages x) { prev = b } in
    let same = update_same pages x v in
    (
      refl,
      ap (λ (q : Page). q.prev) same,
      subst (λ (q : Page). Linked (update pages x v) (some x) q.next xs) (sym same)
          (Linked-update pages x v (some x) (pages x).next xs a h),
    )

-- The page that `list_add` has put in front of `x`.
front_page :
    (pages : ℕ → Page) (p x : ℕ)
    → p ≢ x
    → let pages1 = update pages p (record (pages p) { next = some x; prev = none }) in
      set_prev pages1 x (some p) p ≡ record (pages p) { next = some x; prev = none }
front_page pages p x n =
    let v : Page = record (pages p) { next = some x; prev = none } in
    let pages1 = update pages p v in
    update_other pages1 x p (record (pages1 x) { prev = some p }) (λ e. n (sym e))
    ∙ update_same pages p v

-- `list_add` of a page that is not in the list puts it in front, and the links run through the
-- page and then through the list as before.
pub list_add-IsChain :
    (pages : ℕ → Page) (head : Option ℕ) (p : ℕ) (xs : List ℕ)
    → Absent p xs
    → IsChain pages head xs
    → let (pages', head') = list_add pages head p in IsChain pages' head' (p ∷ xs)
unfolding list_add
list_add-IsChain pages head p [] a (h, d) =
    let v : Page = record (pages p) { next = none; prev = none } in
    let same = update_same pages p v in
    subst (λ cur. IsChain (list_add pages cur p).0 (list_add pages cur p).1 (p ∷ [])) (sym h)
      ((refl, ap (λ (q : Page). q.prev) same, ap (λ (q : Page). q.next) same), (tt, tt))
list_add-IsChain pages head p (x ∷ xs) (n, a) (h, d) =
    let v : Page = record (pages p) { next = some x; prev = none } in
    let front = front_page pages p x n in
    let moved =
      Linked-set_prev (update pages p v) (some p) x none xs d.0
        (Linked-update pages p v none (some x) (x ∷ xs) (n, a) (refl, h.1, h.2)) in
    subst (λ cur. IsChain (list_add pages cur p).0 (list_add pages cur p).1 (p ∷ x ∷ xs)) (sym h.0)
      (
        (
          refl,
          ap (λ (q : Page). q.prev) front,
          subst
              (λ (q : Page).
                Linked (set_prev (update pages p v) x (some p)) (some p) q.next (x ∷ xs))
              (sym front) moved,
        ),
        ((n, a), d),
      )
