-- ===== src/Memory/Stats.antt =====
-- The allocator's statistics: what allocating and freeing do to the counts of pages.
use team_os_3_0_baios.Base.{
  ℕ, zero, suc, ◌+◌, ◌-◌, ◌/◌, ◌%◌, ◌^◌, ◌≤◌, ◌<◌, ◌≡◌, refl, some, true, false, arith, min, sub64,
  has_bit, set_bit, clear_bit, flip_bit, update, ◌∙◌, sym, ap, Option-cases, inl, inr, subst,
}
use team_os_3_0_baios.Memory.{
  Memory, MemStats, Page, max_order, order_to_pages, add_free, remove_free, split_once, split_block,
  find_free, take_page, count_taken, take_block, alloc_pages, merge_once, merge, count_given,
  free_pages,
}

remove_free-stats : (m : Memory) (order p : ℕ) → (remove_free m order p).stats ≡ m.stats
unfolding remove_free
remove_free-stats m order p = refl

remove_free-total : (m : Memory) (order p : ℕ) → (remove_free m order p).total_pages ≡ m.total_pages
unfolding remove_free
remove_free-total m order p = refl

split_block-stats :
    (fuel : ℕ) (m : Memory) (p target : ℕ) → (split_block fuel m p target).stats ≡ m.stats
unfolding split_block split_once add_free
split_block-stats zero m p target = refl
split_block-stats (suc fuel) m p target =
    ground (arith, split_block-stats fuel (split_once m p ((m.pages p).order - 1)) p target)

split_block-ready :
    (fuel : ℕ) (m : Memory) (p target : ℕ) → (split_block fuel m p target).ready ≡ m.ready
unfolding split_block split_once add_free
split_block-ready zero m p target = refl
split_block-ready (suc fuel) m p target =
    ground (arith, split_block-ready fuel (split_once m p ((m.pages p).order - 1)) p target)

merge-stats : (rounds : ℕ) (m : Memory) (pfn order : ℕ) → (merge rounds m pfn order).stats ≡ m.stats
unfolding merge merge_once add_free remove_free
merge-stats zero m pfn order = refl
merge-stats (suc rounds) m pfn order =
    ground (
      arith,
      merge-stats rounds (merge_once m pfn order) (min pfn (flip_bit pfn order)) (order + 1),
    )

clear_first : (x : ℕ) → (clear_bit x 0 % 2 ≡ 0)
clear_first x = ground arith

set_third : (x : ℕ) → (set_bit x 2 / 4 % 2 ≡ 1) × (set_bit x 2 % 2 ≡ x % 2)
set_third x = ground arith

-- The flags of a page that is taken: it is not free, and it is the kernel's.
taken_flags :
    (x : ℕ)
    → (has_bit (set_bit (clear_bit x 0) 2) 0 ≡ false)
      × (has_bit (set_bit (clear_bit x 0) 2) 2 ≡ true)
taken_flags x = ground (arith, clear_first x, set_third (clear_bit x 0))

split_block-total :
    (fuel : ℕ) (m : Memory) (p target : ℕ)
    → (split_block fuel m p target).total_pages ≡ m.total_pages
unfolding split_block split_once add_free
split_block-total zero m p target = refl
split_block-total (suc fuel) m p target =
    ground (arith, split_block-total fuel (split_once m p ((m.pages p).order - 1)) p target)

update_same {ℓ} : {A : Type ℓ} (f : ℕ → A) (i : ℕ) (a : A) → update f i a i ≡ a
update_same f i a = ground arith

-- A page that has been taken.
abbrev pub IsTaken : Page → Type 0
IsTaken page = (page.refcount ≡ 1) × (has_bit page.flags 0 ≡ false) × (has_bit page.flags 2 ≡ true)

take_page-IsTaken : (page : Page) → IsTaken (take_page page)
take_page-IsTaken page = let flags = taken_flags page.flags in (refl, flags.0, flags.1)

take_block_lem :
    (m : Memory) (order found p : ℕ)
    → ((take_block m order found p).stats ≡ count_taken m.stats (order_to_pages order))
      × ((take_block m order found p).total_pages ≡ m.total_pages)
      × IsTaken ((take_block m order found p).pages p)
unfolding take_block
take_block_lem m order found p =
    let m1 = split_block max_order (remove_free m found p) p order in
    (
      ap (λ st. count_taken st (order_to_pages order))
          (split_block-stats max_order (remove_free m found p) p order
            ∙ remove_free-stats m found p),
      split_block-total max_order (remove_free m found p) p order ∙ remove_free-total m found p,
      subst IsTaken (sym (update_same m1.pages p (take_page (m1.pages p))))
          (take_page-IsTaken (m1.pages p)),
    )

take_block-ready : (m : Memory) (order found p : ℕ) → (take_block m order found p).ready ≡ m.ready
unfolding take_block remove_free
take_block-ready m order found p = split_block-ready max_order (remove_free m found p) p order

alloc_found :
    (m : Memory) (order found p : ℕ)
    → find_free m.heads (max_order + 1 - order) order ≡ some (found, p)
    → m.ready ≡ true
    → order ≤ max_order
    → alloc_pages m order ≡ (some p, take_block m order found p)
unfolding alloc_pages
alloc_found m order found p h up small = ground arith

alloc_guard :
    (m : Memory) (order p : ℕ) (m' : Memory)
    → alloc_pages m order ≡ (some p, m')
    → (m.ready ≡ true) × (order ≤ max_order)
unfolding alloc_pages
alloc_guard m order p m' e = ground arith

-- What a successful allocation has found and done.
alloc_pages-cases :
    (m : Memory) (order p : ℕ) (m' : Memory)
    → alloc_pages m order ≡ (some p, m')
    → (m.ready ≡ true) × (order ≤ max_order) × (found : ℕ) × (take_block m order found p ≡ m')
unfolding alloc_pages
alloc_pages-cases m order p m' e =
    elim (Option-cases (find_free m.heads (max_order + 1 - order) order)) [
      | inl h ↦ ground arith
      | inr ((found, q), h) ↦
          let (up, small) = alloc_guard m order p m' e in
          let both = sym (alloc_found m order found q h up small) ∙ e in
          (up, small, found, cc (both))
    ]

-- A successful `baios_mm_alloc_pages` counts the block's pages as the kernel's and no longer as
-- free, and marks its first page as taken.
pub alloc_pages_lem :
    (m : Memory) (order p : ℕ) (m' : Memory)
    → alloc_pages m order ≡ (some p, m')
    → (m.ready ≡ true)
      × (order ≤ max_order)
      × (m'.ready ≡ true)
      × (m'.stats ≡ count_taken m.stats (order_to_pages order))
      × (m'.total_pages ≡ m.total_pages)
      × IsTaken (m'.pages p)
alloc_pages_lem m order p m' e =
    let (up, small, found, taken) = alloc_pages-cases m order p m' e in
    let parts = take_block_lem m order found p in
    (
      up,
      small,
      ap (λ (x : Memory). x.ready) (sym taken) ∙ take_block-ready m order found p ∙ up,
      ap (λ (x : Memory). x.stats) (sym taken) ∙ parts.0,
      ap (λ (x : Memory). x.total_pages) (sym taken) ∙ parts.1,
      subst (λ (x : Memory). IsTaken (x.pages p)) taken parts.2,
    )

-- Giving back a page that is taken.
free_pages-eq :
    (m : Memory) (p order : ℕ)
    → m.ready ≡ true
    → order ≤ max_order
    → p < m.total_pages
    → IsTaken (m.pages p)
    → (free_pages m p order).stats ≡ count_given m.stats (m.pages p).flags (order_to_pages order)
unfolding free_pages
free_pages-eq m p order up small range taken =
    let start : Memory = record m {
      pages = update m.pages p (record (m.pages p) { flags = 1; refcount = 0; order = order });
      stats = count_given m.stats (m.pages p).flags (order_to_pages order);
    } in
    ground (arith, merge-stats (max_order - order) start p order)

sub64_of : (a n : ℕ) → n ≤ a → a < 2 ^ 64 → sub64 a n ≡ a - n
sub64_of a n h b = omega arith

counts_back :
    (st : MemStats) (flags n : ℕ)
    → n ≤ st.free_pages
    → st.free_pages < 2 ^ 64
    → st.kernel_pages + n < 2 ^ 64
    → has_bit flags 2 ≡ true
    → ((count_given (count_taken st n) flags n).free_pages ≡ st.free_pages)
      × ((count_given (count_taken st n) flags n).kernel_pages ≡ st.kernel_pages)
      × ((count_given (count_taken st n) flags n).total ≡ st.total)
      × ((count_taken st n).free_pages + n ≡ st.free_pages)
counts_back st flags n enough small kernel bit =
    let less = sub64_of st.free_pages n enough small in
    (omega (arith, less), rw bit (omega arith), refl, omega (arith, less))

-- A block that is allocated and given back with the same order leaves the counts of free and of
-- kernel pages as they were, if the page is in range and the counts neither run below 0 nor wrap.
pub free_pages-alloc_pages :
    (m : Memory) (order p : ℕ) (m' : Memory)
    → alloc_pages m order ≡ (some p, m')
    → p < m.total_pages
    → order_to_pages order ≤ m.stats.free_pages
    → m.stats.free_pages < 2 ^ 64
    → m.stats.kernel_pages + order_to_pages order < 2 ^ 64
    → let st = (free_pages m' p order).stats in
      (st.free_pages ≡ m.stats.free_pages)
      × (st.kernel_pages ≡ m.stats.kernel_pages)
      × (st.total ≡ m.stats.total)
      × ((m'.stats).free_pages + order_to_pages order ≡ m.stats.free_pages)
free_pages-alloc_pages m order p m' e range enough small kernel =
    let (up, fits, up', stats', total', taken) = alloc_pages_lem m order p m' e in
    let given = free_pages-eq m' p order up' fits (subst (λ n. p < n) (sym total') range) taken in
    rw (given, stats')
      (counts_back m.stats (m'.pages p).flags (order_to_pages order) enough small kernel taken.2)
