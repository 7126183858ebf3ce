-- ===== src/Memory/Blocks.antt =====
-- Free lists that hold consecutive blocks: what the loop of `baios_mm_init` builds, block by block.
use team_os_3_0_baios.Base.{
  ℕ, zero, suc, ◌+◌, ◌^◌, ◌≤◌, ◌<◌, ◌≡◌, ◌≢◌, ◌∙◌, refl, sym, ap, List, [], ◌∷◌, Option, none, some,
  ◌==◌, if◌then◌else◌, arith, length, update, Bool-cases, inl, inr, pow-suc,
}
use team_os_3_0_baios.Memory.{Page, Memory, max_order, order_to_pages, list_add}
use team_os_3_0_baios.Memory.Chain.{Absent, IsChain, update_other, Linked-update}

-- A block of pages.
pub record Block : Type 0 where
  pub first : ℕ
  pub order : ℕ

pub pow_pos : (n : ℕ) → 0 < 2 ^ n
pow_pos zero = omega arith
pow_pos (suc n) = omega (arith, pow_pos n, pow-suc 2 n)

-- The blocks, last first, lie one behind another from page 0 up to page `top`, and none is of an
-- order above the largest.
abbrev pub Tiles : List Block → ℕ → Type 0
Tiles [] top = top ≡ 0
Tiles (b ∷ bs) top =
    (top ≡ b.first + order_to_pages b.order) × (b.order ≤ max_order) × Tiles bs b.first

-- The first pages of the blocks of one order.
abbrev pub firsts : ℕ → List Block → List ℕ
firsts order [] = []
firsts order (b ∷ bs) =
    let rest = firsts order bs in if b.order == order then b.first ∷ rest else rest

-- The first page of each block has the order of the block.
abbrev pub Marked : (ℕ → Page) → List Block → Type 0
Marked pages [] = Unit {0}
Marked pages (b ∷ bs) = ((pages b.first).order ≡ b.order) × Marked pages bs

-- The free lists hold exactly these blocks, which cover the pages up to `top`: the list of each order
-- is a doubly linked list of the blocks of that order, its count is their number, and every page has
-- the flag FREE and no other.
pub record IsTiled (m : Memory) (bs : List Block) (top : ℕ) : Type 0 where
  pub tiles : Tiles bs top
  pub chains : (order : ℕ) → IsChain m.pages (m.heads order) (firsts order bs)
  pub counted : (order : ℕ) → m.counts order ≡ length (firsts order bs)
  pub marked : Marked m.pages bs
  pub free : (i : ℕ) → (m.pages i).flags ≡ 1

-- A page above the blocks is in no list.
pub Absent-firsts :
    (bs : List Block) (top p order : ℕ) → Tiles bs top → top ≤ p → Absent p (firsts order bs)
Absent-firsts [] top p order t h = tt
Absent-firsts (b ∷ bs) top p order t h =
    let some_pages = pow_pos b.order in
    let rest = Absent-firsts bs b.first p order t.2 (omega arith) in
    elim (Bool-cases (b.order == order)) [
      | inl e ↦ rw e ((λ x. absurd (omega arith)), rest)
      | inr e ↦ rw e rest
    ]

pub length-firsts :
    (bs : List Block) (top order : ℕ) → Tiles bs top → length (firsts order bs) ≤ top
length-firsts [] top order t = omega arith
length-firsts (b ∷ bs) top order t =
    let some_pages = pow_pos b.order in
    let rest = length-firsts bs b.first order t.2 in
    elim (Bool-cases (b.order == order)) [ inl e ↦ rw e (omega arith) | inr e ↦ rw e (omega arith) ]

-- A page of another order is not in the list.
pub Absent-order :
    (pages : ℕ → Page) (bs : List Block) (h order : ℕ)
    → Marked pages bs
    → (pages h).order ≢ order
    → Absent h (firsts order bs)
Absent-order pages [] h order k n = tt
Absent-order pages (b ∷ bs) h order k n =
    let rest = Absent-order pages bs h order k.1 n in
    elim (Bool-cases (b.order == order)) [
      | inl e ↦
          let same : b.order ≡ order = ground arith in
          rw e ((λ x. n (ap (λ q. (pages q).order) x ∙ k.0 ∙ same)), rest)
      | inr e ↦ rw e rest
    ]

-- The pages of a list have its order.
pub order-firsts :
    (pages : ℕ → Page) (bs : List Block) (order x : ℕ) (xs : List ℕ)
    → Marked pages bs
    → firsts order bs ≡ x ∷ xs
    → (pages x).order ≡ order
order-firsts pages [] order x xs k e = ground arith
order-firsts pages (b ∷ bs) order x xs k e = elim (Bool-cases (b.order == order)) [
  | inl y ↦
      let same : b.first ≡ x = ground arith in
      let same_order : b.order ≡ order = ground arith in
      sym (ap (λ q. (pages q).order) same) ∙ k.0 ∙ same_order
  | inr n ↦ order-firsts pages bs order x xs k.1 (ground arith)
]

-- A write to a page above the blocks, and writes that leave the orders.
pub Marked-update :
    (pages : ℕ → Page) (bs : List Block) (top p : ℕ) (v : Page)
    → Tiles bs top
    → top ≤ p
    → Marked pages bs
    → Marked (update pages p v) bs
Marked-update pages [] top p v t h k = tt
Marked-update pages (b ∷ bs) top p v t h k =
    let some_pages = pow_pos b.order in
    let ne : p ≢ b.first = λ x. absurd (omega arith) in
    (
      ap (λ (q : Page). q.order) (update_other pages p b.first v ne) ∙ k.0,
      Marked-update pages bs b.first p v t.2 (omega arith) k.1,
    )

pub Marked-same :
    (pages pages' : ℕ → Page) (bs : List Block)
    → ((i : ℕ) → (pages' i).order ≡ (pages i).order)
    → Marked pages bs
    → Marked pages' bs
Marked-same pages pages' [] e k = tt
Marked-same pages pages' (b ∷ bs) e k = (e b.first ∙ k.0, Marked-same pages pages' bs e k.1)

-- `list_add` leaves orders and flags.
pub list_add-same :
    (pages : ℕ → Page) (head : Option ℕ) (p i : ℕ)
    → (((list_add pages head p).0 i).order ≡ (pages i).order)
      × (((list_add pages head p).0 i).flags ≡ (pages i).flags)
unfolding list_add
list_add-same pages none p i = ground arith
list_add-same pages (some h) p i = ground arith

-- `list_add` leaves a list that holds neither the page nor the head.
pub IsChain-list_add :
    (pages : ℕ → Page) (head : Option ℕ) (p : ℕ) (other : Option ℕ) (xs : List ℕ)
    → Absent p xs
    → ((h : ℕ) → head ≡ some h → Absent h xs)
    → IsChain pages other xs
    → IsChain (list_add pages head p).0 other xs
unfolding list_add
IsChain-list_add pages none p other xs a b (l, d) =
    (Linked-update pages p (record (pages p) { next = none; prev = none }) none other xs a l, d)
IsChain-list_add pages (some h) p other xs a b (l, d) =
    let v : Page = record (pages p) { next = some h; prev = none } in
    let pages1 = update pages p v in
    (
      Linked-update pages1 h (record (pages1 h) { prev = some p }) none other xs (b h refl)
          (Linked-update pages p v none other xs a l),
      d,
    )
