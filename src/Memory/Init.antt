-- ===== src/Memory/Init.antt =====
-- The start of the allocator: the loop that fills the free lists, and what `baios_mm_init` leaves.
use team_os_3_0_baios.Base.{
  List, [], subst, ℕ, zero, suc, ◌+◌, ◌-◌, ◌/◌, ◌%◌, ◌^◌, ◌≤◌, ◌<◌, ◌≡◌, refl, none, true, false,
  arith, min, u64,
}
use team_os_3_0_baios.Types.{ok}
use team_os_3_0_baios.Memory.{
  Memory, max_order, page_size, max_phys_pages, order_to_pages, add_free, fit_order, seed_block,
  seed, init, fresh_page, zero_stats,
}
use team_os_3_0_baios.Memory.Blocks.{Block, IsTiled}
use team_os_3_0_baios.Memory.Seed.{fit_order-le, seed-IsTiled}

seed_block-free :
    (m : Memory) (pfn order : ℕ)
    → ((seed_block m pfn order).stats.free_pages ≡ u64 (m.stats.free_pages + order_to_pages order))
      × ((seed_block m pfn order).stats.total ≡ m.stats.total)
      × ((seed_block m pfn order).total_pages ≡ m.total_pages)
unfolding seed_block add_free
seed_block-free m pfn order = (refl, refl, refl)

-- The loop that fills the free lists ends with every page counted as free, with as much fuel as
-- there are pages.
pub seed-free :
    (fuel : ℕ) (m : Memory) (pfn n : ℕ)
    → n ≤ fuel
    → m.stats.free_pages + n < 2 ^ 64
    → (seed fuel m pfn n).stats.free_pages ≡ m.stats.free_pages + n
unfolding seed
seed-free zero m pfn n h b = omega arith
seed-free (suc fuel) m pfn zero h b = ground arith
seed-free (suc fuel) m pfn (suc n) h b =
    let o = fit_order max_order (suc n) in
    let fits = fit_order-le max_order (suc n) (omega arith) in
    let one = seed_block-free m pfn o in
    ground (
      arith,
      one,
      seed-free fuel (seed_block m pfn o) (pfn + order_to_pages o) (suc n - order_to_pages o)
          (omega (arith, fits)) (omega (arith, fits, one.0)),
      fits,
    )

seed-rest :
    (fuel : ℕ) (m : Memory) (pfn n : ℕ)
    → ((seed fuel m pfn n).stats.total ≡ m.stats.total)
      × ((seed fuel m pfn n).stats.kernel_pages ≡ m.stats.kernel_pages)
      × ((seed fuel m pfn n).total_pages ≡ m.total_pages)
unfolding seed seed_block add_free
seed-rest zero m pfn n = (refl, refl, refl)
seed-rest (suc fuel) m pfn n =
    let o = fit_order max_order n in
    ground
      (arith, seed-rest fuel (seed_block m pfn o) (pfn + order_to_pages o) (n - order_to_pages o))

-- The state in which `baios_mm_init` starts to fill the free lists.
abbrev empty_lists : Memory → ℕ → ℕ → Memory
empty_lists m base total = record m {
  phys_base = base - base % page_size;
  total_pages = total;
  pages = fresh_page;
  heads = λ _. none;
  counts = λ _. 0;
  stats = record zero_stats { total = total };
}

init-eq :
    (m : Memory) (base size total : ℕ)
    → m.ready ≡ false
    → page_size ≤ size
    → total ≡ min (size / page_size) max_phys_pages
    → init m base size true
      ≡ (ok, record (seed total (empty_lists m base total) 0 total) { ready = true })
unfolding init
init-eq m base size total down big e = ground arith

min_le : (a : ℕ) → min a max_phys_pages ≤ max_phys_pages
min_le a = omega arith

seed_all :
    (m : Memory) (base n : ℕ)
    → n ≤ max_phys_pages
    → (seed n (empty_lists m base n) 0 n).stats.free_pages ≡ n
seed_all m base n small =
    omega (arith, seed-free n (empty_lists m base n) 0 n (omega arith) (omega arith))

empty_lists-IsTiled : (m : Memory) (base n : ℕ) → IsTiled (empty_lists m base n) [] 0
empty_lists-IsTiled m base n = record {
  tiles = refl;
  chains = λ order. (refl, tt);
  counted = λ order. refl;
  marked = tt;
  free = λ i. refl;
}

-- Every page of the allocator, which is up and manages so many, is free, and its free lists say so.
pub record AllFree (m : Memory) (total : ℕ) : Type 0 where
  pub is_up : m.ready ≡ true
  pub sized : m.total_pages ≡ total
  pub counted_total : m.stats.total ≡ total
  pub counted_free : m.stats.free_pages ≡ total
  pub counted_kernel : m.stats.kernel_pages ≡ 0
  pub blocks : List Block
  pub tiled : IsTiled m blocks total

-- A start of an allocator that is down, on at least one page and with room for the descriptors,
-- succeeds with all pages of the memory, but no more than 2^20: each page has the flag FREE and no
-- other, the free lists are doubly linked lists of blocks that lie one behind another from page 0 to
-- the last, each in the list of its order, the counts of the lists are right, and the statistics
-- count every page as free and none as the kernel's. The loop that fills the lists has enough fuel.
pub init-free :
    (m : Memory) (base size : ℕ)
    → m.ready ≡ false
    → page_size ≤ size
    → let (st, m') = init m base size true in
      (st ≡ ok) × AllFree m' (min (size / page_size) max_phys_pages)
init-free m base size down big =
    let total = min (size / page_size) max_phys_pages in
    let start = empty_lists m base total in
    let (a, b, c) = seed-rest total start 0 total in
    let free = seed_all m base total (min_le (size / page_size)) in
    let (bs, all) =
      seed-IsTiled total start [] 0 total (empty_lists-IsTiled m base total) (omega arith)
        (omega (arith, min_le (size / page_size))) in
    let t : IsTiled (seed total start 0 total) bs total =
      let top : 0 + total ≡ total = omega arith in
      subst (IsTiled (seed total start 0 total) bs) top all in
    rw (init-eq m base size total down big refl) (
      refl,
      record {
        is_up = refl;
        sized = c;
        counted_total = a;
        counted_free = free;
        counted_kernel = b;
        blocks = bs;
        tiled = record {
          tiles = t.tiles;
          chains = t.chains;
          counted = t.counted;
          marked = t.marked;
          free = t.free;
        };
      },
    )
