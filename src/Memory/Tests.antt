-- ===== src/Memory/Tests.antt =====
-- The theorems on the allocator at 16 pages, in their first state and after one allocation.
use team_os_3_0_baios.Base.{
  ℕ, ◌+◌, ◌*◌, ◌/◌, ◌≡◌, refl, [], ◌∷◌, none, some, true, false, arith, min, if◌then◌else◌, ◌==◌,
}
use team_os_3_0_baios.Types.{ok}
use team_os_3_0_baios.Memory.{
  Page, Memory, fresh_page, zero_stats, page_size, max_phys_pages, order_to_pages, init, find_free,
  alloc_pages, free_pages, list_remove,
}
use team_os_3_0_baios.Memory.Init.{AllFree, init-free}
use team_os_3_0_baios.Memory.Find.{Found, alloc_pages-Found}
use team_os_3_0_baios.Memory.Stats.{free_pages-alloc_pages}
use team_os_3_0_baios.Memory.Free.{free_pages-free_pages}
use team_os_3_0_baios.Memory.Remove.{list_remove-IsChain}
use team_os_3_0_baios.Memory.Chain.{IsChain}

abbrev off : Memory
off = record {
  pages = fresh_page;
  total_pages = 0;
  phys_base = 0;
  heads = λ _. none;
  counts = λ _. 0;
  stats = zero_stats;
  ready = false;
}

-- 16 pages and a rest that is no page.
abbrev size : ℕ
size = 16 * 4096 + 100

init-free_example :
    let (st, m') = init off 0x100000 size true in
    (st ≡ ok) × AllFree m' (min (size / page_size) max_phys_pages)
init-free_example = init-free off 0x100000 size refl (omega arith)

-- One free block of order 4, and nothing else.
abbrev one_block : Memory
one_block = record off {
  pages = λ i. if i == 0 then record (fresh_page 0) { order = 4 } else fresh_page i;
  total_pages = 16;
  heads = λ k. if k == 4 then some 0 else none;
  counts = λ k. if k == 4 then 1 else 0;
  stats = record zero_stats { total = 16; free_pages = 16 };
  ready = true;
}

alloc_pages-Found_example : Found one_block.heads 1 (alloc_pages one_block 1).0
alloc_pages-Found_example = alloc_pages-Found one_block 1 refl (omega arith)

-- The state after a block of order 1 is taken.
abbrev taken : Memory
taken = (alloc_pages one_block 1).1

gives_first : alloc_pages one_block 1 ≡ (some 0, taken)
unfolding alloc_pages find_free
gives_first = refl

free_pages-alloc_pages_example :
    let st = (free_pages taken 0 1).stats in
    (st.free_pages ≡ one_block.stats.free_pages)
    × (st.kernel_pages ≡ one_block.stats.kernel_pages)
    × (st.total ≡ one_block.stats.total)
    × (taken.stats.free_pages + order_to_pages 1 ≡ one_block.stats.free_pages)
free_pages-alloc_pages_example =
    free_pages-alloc_pages one_block 1 0 taken gives_first (omega arith) (omega arith) (omega arith)
      (omega arith)

-- A page that is the kernel's.
abbrev in_use : Memory
in_use = record one_block {
  pages = λ i. record (fresh_page i) { flags = 4; refcount = 1 };
  heads = λ _. none;
  counts = λ _. 0;
  stats = record zero_stats { total = 16; kernel_pages = 16 };
}

free_pages-free_pages_example : free_pages (free_pages in_use 3 0) 3 2 ≡ free_pages in_use 3 0
free_pages-free_pages_example =
    free_pages-free_pages in_use 3 0 2 refl (omega arith) (omega arith) refl

-- Pages 1, 2 and 3, linked in this order, of which 2 is removed.
abbrev three : ℕ → Page
three i =
    if i == 1
    then record (fresh_page 1) { next = some 2 }
    else if i == 2
    then record (fresh_page 2) { next = some 3; prev = some 1 }
    else record (fresh_page i) { prev = some 2 }

list_remove-IsChain_example :
    let (pages', head') = list_remove three (some 1) 2 in IsChain pages' head' (1 ∷ 3 ∷ [])
list_remove-IsChain_example = list_remove-IsChain three (some 1) 2 (1 ∷ []) (3 ∷ []) (
  (refl, refl, (refl, refl, (refl, refl, refl))),
  ((omega arith, (omega arith, tt)), ((omega arith, tt), (tt, tt))),
)
