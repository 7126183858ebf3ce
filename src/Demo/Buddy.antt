-- ===== src/Demo/Buddy.antt =====
-- The page blocks of BIOS/hw/memory.c, lines 14 to 93: one list head and one count per order.
-- No header declares the number of orders, BAIOS_BUDDY_ORDERS, which is given as `orders`. Counts
-- and orders are u32, sizes and addresses u64.
mod Tests
pub mod Worth
pub mod Order
pub mod Free
use team_os_3_0_baios.Base.{
  ℕ, zero, suc, ◌+◌, ◌-◌, ◌*◌, ◌/◌, ◌%◌, ◌^◌, List, [], ◌∷◌, Bool, true, false, not, ◌&&◌, ◌||◌,
  ltb, leb, if◌then◌else◌, get_or, set, replicate, u32, u64, sub64, Option, none, some,
}
use team_os_3_0_baios.Demo.Error.{Error, ok, invalid_arg, no_memory}

-- `BAIOS_PAGE_SIZE`
abbrev pub page_size : ℕ
page_size = 4096

-- `baios_buddy_t`, and whether it is ready.
pub record Buddy : Type 0 where
  pub heap_base : ℕ
  pub heap_size : ℕ
  pub total_pages : ℕ
  pub used_pages : ℕ
  pub free_list : List ℕ
  pub free_count : List ℕ
  pub ready : Bool

abbrev pub count_at : Buddy → ℕ → ℕ
count_at b o = get_or b.free_count o 0

abbrev pub head_at : Buddy → ℕ → ℕ
head_at b o = get_or b.free_list o 0

-- A block put at the head of its order: the head that was there is overwritten.
abbrev pub put_block : Buddy → ℕ → ℕ → Buddy
put_block b o block = record b {
  free_list = set b.free_list o block;
  free_count = set b.free_count o (u32 (count_at b o + 1));
}

-- The head of an order taken off, whatever its count: 0 stays at the head.
abbrev pub take_block : Buddy → ℕ → Buddy
take_block b o = record b {
  free_list = set b.free_list o 0;
  free_count = set b.free_count o (count_at b o - 1);
}

-- The loop that splits a block of order `o`, `k` times, and gives the upper halves back.
abbrev pub split : ℕ → ℕ → ℕ → Buddy → Buddy
split zero o block b = b
split (suc k) o block b =
    split k (o - 1) block (put_block b (o - 1) (u64 (block + page_size * 2 ^ (o - 1))))

-- What an allocation of order `order` does with the head of order `o`.
abbrev pub take_from : ℕ → ℕ → Buddy → Error × ℕ × Buddy
take_from order o b =
    let block = head_at b o in
    let rest = split (o - order) o block (take_block b o) in
    (ok, block, record rest { used_pages = u64 (rest.used_pages + 2 ^ order) })

-- The search from order `o` up, over `n` orders.
abbrev pub search_from : ℕ → ℕ → ℕ → Buddy → Error × ℕ × Buddy
search_from zero order o b = (no_memory, 0, b)
search_from (suc n) order o b =
    let rest = search_from n order (o + 1) b in
    if ltb 0 (count_at b o) then take_from order o b else rest

module _ (orders : ℕ) where
  -- The loop of `order_from_size`, with `n` orders still above `order`.
  abbrev pub order_loop : ℕ → ℕ → ℕ → ℕ → ℕ
  order_loop zero order s size = order
  order_loop (suc n) order s size =
      let rest = order_loop n (u32 (order + 1)) (u64 (s * 2)) size in
      if ltb s size then rest else order

  -- `order_from_size`
  unfoldable pub order_from_size : ℕ → ℕ
  order_from_size size = order_loop (orders - 1) 0 page_size size

  -- The largest order of which a block fits in `size`, with `n` orders still above.
  abbrev pub max_order_loop : ℕ → ℕ → ℕ → ℕ → ℕ
  max_order_loop zero order s size = order
  max_order_loop (suc n) order s size =
      let rest = max_order_loop n (u32 (order + 1)) (u64 (s * 2)) size in
      if leb (u64 (s * 2)) size then rest else order

  abbrev pub max_order : ℕ → ℕ
  max_order size = max_order_loop (orders - 1) 0 page_size size

  -- `hw_mem_init_buddy`
  unfoldable pub init_buddy : Buddy → ℕ → ℕ → Error × Buddy
  init_buddy b base size = (
    ok,
    record {
      heap_base = base;
      heap_size = size;
      total_pages = size / page_size;
      used_pages = 0;
      free_list = set (replicate orders 0) (max_order size) base;
      free_count = set (replicate orders 0) (max_order size) 1;
      ready = true;
    },
  )

  -- `hw_mem_alloc_pages`, with a place for the address: the status and the address.
  unfoldable pub alloc_pages : Buddy → ℕ → Error × ℕ × Buddy
  alloc_pages b order =
      if not b.ready || leb orders order
      then (invalid_arg, 0, b)
      else search_from (orders - order) order order b

  -- `hw_mem_free_pages`
  unfoldable pub free_pages : Buddy → ℕ → ℕ → Error × Buddy
  free_pages b phys order = if not b.ready || leb orders order then (invalid_arg, b) else (
    ok,
    record (put_block b order phys) { used_pages = sub64 b.used_pages (u64 (2 ^ order)) },
  )
