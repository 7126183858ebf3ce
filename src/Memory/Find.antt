-- ===== src/Memory/Find.antt =====
-- The search for a free block.
use team_os_3_0_baios.Base.{
  ℕ, zero, suc, ◌+◌, ◌-◌, ◌≤◌, ◌<◌, ◌≡◌, Option, none, some, true, arith, ◌==◌, sym, Bool-cases,
  Option-cases, inl, inr, subst,
}
use team_os_3_0_baios.Memory.{Memory, max_order, find_free, alloc_pages}

-- What is found is the first block of the first order, from the asked one on, that has one.
pub find_free-first :
    (heads : ℕ → Option ℕ) (rounds order found p : ℕ)
    → find_free heads rounds order ≡ some (found, p)
    → (order ≤ found) × (found < order + rounds) × (heads found ≡ some p)
unfolding find_free
find_free-first heads zero order found p e = ground arith
find_free-first heads (suc rounds) order found p e = elim (Option-cases (heads order)) [
  | inl h ↦ ground (arith, find_free-first heads rounds (order + 1) found p)
  | inr (x, h) ↦ ground arith
]

-- Nothing is found exactly when no order has a block.
pub find_free-none :
    (heads : ℕ → Option ℕ) (rounds order k : ℕ)
    → find_free heads rounds order ≡ none
    → order ≤ k
    → k < order + rounds
    → heads k ≡ none
unfolding find_free
find_free-none heads zero order k e lo hi = absurd (omega arith)
find_free-none heads (suc rounds) order k e lo hi = elim (Option-cases (heads order)) [
  | inl h ↦ elim (Bool-cases (order == k)) [
    | inl same ↦ ground arith
    | inr other ↦
        find_free-none heads rounds (order + 1) k (ground arith) (ground arith) (omega arith)
  ]
  | inr (x, h) ↦ ground arith
]

-- Below the order found no order has a block.
find_free-before :
    (heads : ℕ → Option ℕ) (rounds order found p k : ℕ)
    → find_free heads rounds order ≡ some (found, p)
    → order ≤ k
    → k < found
    → heads k ≡ none
unfolding find_free
find_free-before heads zero order found p k e lo hi = ground arith
find_free-before heads (suc rounds) order found p k e lo hi = elim (Option-cases (heads order)) [
  | inl h ↦ elim (Bool-cases (order == k)) [
    | inl same ↦ ground arith
    | inr other ↦
        find_free-before heads rounds (order + 1) found p k (ground arith) (ground arith) hi
  ]
  | inr (x, h) ↦ absurd (ground arith)
]

-- What a search from a given order on comes to.
abbrev pub Found : (ℕ → Option ℕ) → ℕ → Option ℕ → Type 0
Found heads order none = (k : ℕ) → order ≤ k → k ≤ max_order → heads k ≡ none
Found heads order (some p) =
    (found : ℕ) × (order ≤ found)
    × (found ≤ max_order)
    × (heads found ≡ some p)
    × ((k : ℕ) → order ≤ k → k < found → heads k ≡ none)

alloc_pages-missed :
    (m : Memory) (order : ℕ)
    → find_free m.heads (max_order + 1 - order) order ≡ none
    → (alloc_pages m order).0 ≡ none
unfolding alloc_pages
alloc_pages-missed m order h = ground arith

alloc_pages-found :
    (m : Memory) (order found p : ℕ)
    → m.ready ≡ true
    → order ≤ max_order
    → find_free m.heads (max_order + 1 - order) order ≡ some (found, p)
    → (alloc_pages m order).0 ≡ some p
unfolding alloc_pages
alloc_pages-found m order found p up fits h = ground arith

-- On a started allocator, `baios_mm_alloc_pages` gives the first block of the smallest order, from
-- the asked one on, that has a free block, and fails only when none of these orders has one.
pub alloc_pages-Found :
    (m : Memory) (order : ℕ)
    → m.ready ≡ true
    → order ≤ max_order
    → Found m.heads order (alloc_pages m order).0
alloc_pages-Found m order up fits =
    let rounds = max_order + 1 - order in
    elim (Option-cases (find_free m.heads rounds order)) [
      | inl h ↦
          subst (Found m.heads order) (sym (alloc_pages-missed m order h))
            (λ k lo hi. find_free-none m.heads rounds order k h lo (omega arith))
      | inr ((found, p), h) ↦
          let (lo, hi, first) = find_free-first m.heads rounds order found p h in
          subst (Found m.heads order) (sym (alloc_pages-found m order found p up fits h)) (
            found,
            lo,
            omega arith,
            first,
            λ k above below. find_free-before m.heads rounds order found p k h above below,
          )
    ]
