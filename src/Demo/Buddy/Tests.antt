-- ===== src/Demo/Buddy/Tests.antt =====
-- The theorems on the page blocks at the start of the kernel, with eight orders.
use team_os_3_0_baios.Base.{◌≡◌, refl, [], ◌∷◌, true, arith}
use team_os_3_0_baios.Demo.Error.{ok}
use team_os_3_0_baios.Demo.Buddy.{Buddy, alloc_pages, free_pages}
use team_os_3_0_baios.Demo.Buddy.Worth.{IsValid, Allocated, alloc_pages-Allocated}
use team_os_3_0_baios.Demo.Buddy.Free.{alloc_pages-free_pages}

-- Three orders; one block of four pages is free, and four pages are in use.
abbrev half : Buddy
half = record {
  heap_base = 4096;
  heap_size = 32768;
  total_pages = 8;
  used_pages = 4;
  free_list = 0 ∷ 0 ∷ 4096 ∷ [];
  free_count = 0 ∷ 0 ∷ 1 ∷ [];
  ready = true;
}

half-IsValid : IsValid 3 half
half-IsValid = record { is_up = refl; heads = refl; counts = refl; few = omega arith }

alloc_pages-Allocated_example : Allocated 3 0 half (alloc_pages 3 half 0)
alloc_pages-Allocated_example = alloc_pages-Allocated 0 half-IsValid (omega arith)

alloc_pages-free_pages_example :
    let (st, b1) = free_pages 3 half 20480 1 in
    let (st', b2) = free_pages 3 b1 28672 1 in
    let (st1, first, b3) = alloc_pages 3 b2 1 in
    let (st2, second, b4) = alloc_pages 3 b3 1 in
    (st1 ≡ ok) × (first ≡ 28672) × (st2 ≡ ok) × (second ≡ 0)
alloc_pages-free_pages_example =
    alloc_pages-free_pages 20480 28672 1 half-IsValid (omega arith) (omega arith)
