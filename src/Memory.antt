-- ===== src/Memory.antt =====
-- The buddy allocator of BIOS/src/hw/phys_memory.c, with the types of BIOS/include/memory.h.
-- A pointer to a page descriptor is the descriptor's index in `g_pages`, which is its pfn. The
-- arrays are functions of the index; every index is checked before it is used, against the number
-- of pages or the largest order. Whether `calloc` gives memory is an argument of `init`.
mod Pages
pub mod Find
pub mod Free
pub mod Blocks
pub mod Seed
pub mod Init
pub mod Stats
pub mod Chain
pub mod Unlink
pub mod Remove
mod Tests
unfoldable pub use Pages.*
use team_os_3_0_baios.Base.{
  ℕ, zero, suc, ◌+◌, ◌-◌, ◌*◌, ◌/◌, ◌%◌, ◌^◌, min, Option, none, some, Bool, true, false, not, ◌||◌,
  ◌&&◌, ◌==◌, ltb, leb, if◌then◌else◌, u64, sub64, has_bit, set_bit, clear_bit, flip_bit, update,
}
use team_os_3_0_baios.Types.{Status, ok, inval, nomem, state_error}

-- A descriptor as the first loop of `baios_mm_init` leaves it.
abbrev pub fresh_page : ℕ → Page
fresh_page i = record { pfn = i; order = 0; flags = 1; refcount = 0; next = none; prev = none }

-- `while (order > 0 && order_to_pages(order) > remaining) order--`
unfoldable pub fit_order : ℕ → ℕ → ℕ
fit_order zero remaining = 0
fit_order (suc order) remaining =
    if ltb remaining (order_to_pages (suc order)) then fit_order order remaining else suc order

-- One round of the loop that puts the blocks into the free lists.
unfoldable pub seed_block : Memory → ℕ → ℕ → Memory
unfolding add_free
seed_block m pfn order =
    let m1 =
      add_free
        (record m {
          pages = update m.pages pfn (record (m.pages pfn) { order = order; flags = 1 });
        })
        order pfn in
    record m1 {
      stats = record m1.stats { free_pages = u64 (m1.stats.free_pages + order_to_pages order) };
    }

-- `while (remaining > 0)`, on fuel; a round takes at least one page, so `remaining` rounds are
-- enough.
unfoldable pub seed : ℕ → Memory → ℕ → ℕ → Memory
unfolding seed_block fit_order
seed zero m pfn remaining = m
seed (suc fuel) m pfn remaining =
    let order = fit_order max_order remaining in
    let rest =
      seed fuel (seed_block m pfn order) (pfn + order_to_pages order)
        (remaining - order_to_pages order) in
    if remaining == 0 then m else rest

-- `baios_mm_init`
unfoldable pub init : Memory → ℕ → ℕ → Bool → Status × Memory
unfolding seed
init m phys_base phys_size allocated =
    let total = min (phys_size / page_size) max_phys_pages in
    let sized = record m { phys_base = phys_base - phys_base % page_size; total_pages = total } in
    if m.ready
    then (state_error, m)
    else if ltb phys_size page_size
    then (inval, m)
    else if not allocated
    then (nomem, sized)
    else (
      ok,
      record (seed total
          (record sized {
            pages = fresh_page;
            heads = λ _. none;
            counts = λ _. 0;
            stats = record zero_stats { total = total };
          })
          0 total) { ready = true },
    )

-- `baios_mm_shutdown`. The descriptors are gone; nothing reads them until the next `init`.
unfoldable pub shutdown : Memory → Memory
shutdown m =
    if m.ready
    then record m {
      pages = fresh_page;
      total_pages = 0;
      heads = λ _. none;
      counts = λ _. 0;
      stats = zero_stats;
      ready = false;
    }
    else m

-- One round of `split_block`: the upper half of the page's block goes to the free list below.
unfoldable pub split_once : Memory → ℕ → ℕ → Memory
unfolding add_free
split_once m p new_order =
    let buddy = p + order_to_pages new_order in
    let m1 =
      add_free
        (record m {
          pages =
              update m.pages buddy
                (record (m.pages buddy) { order = new_order; flags = 1; refcount = 0 });
        })
        new_order buddy in
    record m1 { pages = update m1.pages p (record (m1.pages p) { order = new_order }) }

-- `split_block`: `while (page->order > target_order)`, on fuel. An order in the free lists is at
-- most `max_order`, so that many rounds are enough. A buddy whose descriptor is out of range would
-- be a null pointer; a block in the free lists lies in range whole.
unfoldable pub split_block : ℕ → Memory → ℕ → ℕ → Memory
unfolding split_once
split_block zero m p target = m
split_block (suc fuel) m p target =
    let rest = split_block fuel (split_once m p ((m.pages p).order - 1)) p target in
    if ltb target (m.pages p).order then rest else m

-- The search of `baios_mm_alloc_pages`: the first order with a free block, from `order` on, and its
-- first block.
unfoldable pub find_free : (ℕ → Option ℕ) → ℕ → ℕ → Option (ℕ × ℕ)
find_free heads zero order = none
find_free heads (suc rounds) order = elim (heads order) [
  | none ↦ find_free heads rounds (order + 1)
  | some p ↦ some (order, p)
]

-- `flags &= ~FREE; flags |= KERNEL; refcount = 1`
abbrev pub take_page : Page → Page
take_page p = record p { flags = set_bit (clear_bit p.flags 0) 2; refcount = 1 }

-- The statistics after `n` pages have been taken.
abbrev pub count_taken : MemStats → ℕ → MemStats
count_taken st n =
    let free = sub64 st.free_pages n in
    record st {
      free_pages = free;
      kernel_pages = u64 (st.kernel_pages + n);
      peak_used =
          if ltb st.peak_used (sub64 st.total free) then sub64 st.total free else st.peak_used;
    }

-- The rest of the allocation, for the block at `p` of order `found`.
unfoldable pub take_block : Memory → ℕ → ℕ → ℕ → Memory
unfolding remove_free split_block
take_block m order found p =
    let m1 = split_block max_order (remove_free m found p) p order in
    record m1 {
      pages = update m1.pages p (take_page (m1.pages p));
      stats = count_taken m1.stats (order_to_pages order);
    }

-- `baios_mm_alloc_pages`; `none` is the `(u64)-1`.
unfoldable pub alloc_pages : Memory → ℕ → Option ℕ × Memory
unfolding take_block find_free
alloc_pages m order =
    if not m.ready || ltb max_order order
    then (none, m)
    else elim (find_free m.heads (max_order + 1 - order) order) [
      | none ↦ (none, m)
      | some (found, p) ↦ (some p, take_block m order found p)
    ]

-- Whether the block at `pfn` of this order merges with its buddy.
unfoldable pub merges : Memory → ℕ → ℕ → Bool
merges m pfn order =
    let buddy = flip_bit pfn order in
    ltb buddy m.total_pages && (has_bit (m.pages buddy).flags 0 && ((m.pages buddy).order == order))

-- One round of the merge: the buddy leaves its list, and the lower half stands for both.
unfoldable pub merge_once : Memory → ℕ → ℕ → Memory
unfolding remove_free
merge_once m pfn order =
    let m1 = remove_free m order (flip_bit pfn order) in
    let low = min pfn (flip_bit pfn order) in
    record m1 { pages = update m1.pages low (record (m1.pages low) { order = order + 1 }) }

-- `while (order < BAIOS_BUDDY_MAX_ORDER)`, on the rounds that are left, then the `list_add`.
unfoldable pub merge : ℕ → Memory → ℕ → ℕ → Memory
unfolding merges merge_once add_free
merge zero m pfn order = add_free m order pfn
merge (suc rounds) m pfn order =
    let rest = merge rounds (merge_once m pfn order) (min pfn (flip_bit pfn order)) (order + 1) in
    if merges m pfn order then rest else add_free m order pfn

-- The statistics after `n` pages of a page with these flags have been given back.
abbrev pub count_given : MemStats → ℕ → ℕ → MemStats
count_given st flags n = record st {
  free_pages = u64 (st.free_pages + n);
  kernel_pages = if has_bit flags 2 then sub64 st.kernel_pages n else st.kernel_pages;
  user_pages = if has_bit flags 3 then sub64 st.user_pages n else st.user_pages;
}

-- `baios_mm_free_pages`
unfoldable pub free_pages : Memory → ℕ → ℕ → Memory
unfolding merge
free_pages m pfn order =
    if not m.ready || ltb max_order order || leb m.total_pages pfn || has_bit (m.pages pfn).flags 0
    then m
    else merge (max_order - order)
        (record m {
          pages =
              update m.pages pfn (record (m.pages pfn) { flags = 1; refcount = 0; order = order });
          stats = count_given m.stats (m.pages pfn).flags (order_to_pages order);
        })
        pfn order

-- `baios_mm_get_stats`
abbrev pub get_stats : Memory → MemStats
get_stats m = m.stats

-- `baios_mm_alloc_page` and `baios_mm_free_page`
abbrev pub alloc_page : Memory → Option ℕ × Memory
alloc_page m = alloc_pages m 0

abbrev pub free_page : Memory → ℕ → Memory
free_page m pfn = free_pages m pfn 0
