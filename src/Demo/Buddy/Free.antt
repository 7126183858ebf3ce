-- ===== src/Demo/Buddy/Free.antt =====
-- What freeing does: to the number of pages, and to the block that was at the head of its order.
use team_os_3_0_baios.Base.{
  ℕ, suc, ◌+◌, ◌-◌, ◌*◌, ◌^◌, ◌≤◌, ◌<◌, ◌≡◌, ◌∙◌, refl, subst, true, false, arith, not, ◌||◌, ltb,
  leb, length, length-set, get_or-set_self, u32, u64, sub64,
}
use team_os_3_0_baios.Demo.Error.{Error, ok}
use team_os_3_0_baios.Demo.Buddy.{
  Buddy, count_at, head_at, put_block, take_block, alloc_pages, free_pages,
}
use team_os_3_0_baios.Demo.Buddy.Worth.{free_worth, put_block-worth, pow-pos, IsValid, count-worth}

-- The state after a free.
abbrev pub freed : Buddy → ℕ → ℕ → Buddy
freed b phys order = record (put_block b order phys) {
  used_pages = sub64 b.used_pages (u64 (2 ^ order));
}

freed-eq :
    {orders : ℕ} {b : Buddy} (phys order : ℕ)
    → IsValid orders b
    → order < orders
    → free_pages orders b phys order ≡ (ok, freed b phys order)
unfolding free_pages
freed-eq {orders} {b} phys order v range = ground (arith, v.is_up)

-- In a valid state with at least the pages of the block in use, a free of an order in range
-- succeeds, keeps the state valid and the sum of the free and the used pages as it was, and takes
-- `2 ^ order` pages out of use.
pub free_pages-IsValid :
    {orders : ℕ} {b : Buddy} (phys order : ℕ)
    → IsValid orders b
    → order < orders
    → 2 ^ order ≤ b.used_pages
    → let (st, b') = free_pages orders b phys order in
      (st ≡ ok)
      × IsValid orders b'
      × (free_worth b' + b'.used_pages ≡ free_worth b + b.used_pages)
      × (b'.used_pages + 2 ^ order ≡ b.used_pages)
free_pages-IsValid {orders} {b} phys order v range enough =
    let some_pages = pow-pos order in
    let put = put_block-worth b order phys (omega (arith, v.counts)) (omega (arith, v.few)) in
    let less : sub64 b.used_pages (u64 (2 ^ order)) + 2 ^ order ≡ b.used_pages =
      omega (arith, v.few) in
    rw (freed-eq phys order v range) (
      refl,
      record {
        is_up = v.is_up;
        heads = length-set b.free_list order phys ∙ v.heads;
        counts = length-set b.free_count order (u32 (count_at b order + 1)) ∙ v.counts;
        few = omega (arith, put, less, v.few);
      },
      omega (arith, put, less),
      less,
    )

-- An order with a free block: the head is given, and 0 takes its place.
alloc_pages-head :
    (orders : ℕ) (b : Buddy) (order : ℕ)
    → b.ready ≡ true
    → order < orders
    → 0 < count_at b order
    → alloc_pages orders b order ≡ (
      ok,
      head_at b order,
      record (take_block b order) { used_pages = u64 (b.used_pages + 2 ^ order) },
    )
unfolding alloc_pages
alloc_pages-head orders b order up range some_block =
    let n : orders - order ≡ suc (orders - order - 1) = omega arith in
    let none_split : order - order ≡ 0 = omega arith in
    let on : (not b.ready || leb orders order) ≡ false = ground (arith, up) in
    let hit : ltb 0 (count_at b order) ≡ true = ground arith in rw (on, n, hit, none_split) refl

-- The counts and the head after one free and after one allocation of the same order.
freed-head :
    {orders : ℕ} {b : Buddy} (phys order : ℕ)
    → IsValid orders b
    → order < orders
    → 0 < b.used_pages
    → (head_at (freed b phys order) order ≡ phys)
      × (count_at (freed b phys order) order ≡ count_at b order + 1)
freed-head {orders} {b} phys order v range taken =
    let some_pages = pow-pos order in
    let small : u32 (count_at b order + 1) ≡ count_at b order + 1 =
      omega (arith, count-worth b.free_count order, v.few) in
    (
      get_or-set_self b.free_list order phys 0 (omega (arith, v.heads)),
      get_or-set_self b.free_count order (u32 (count_at b order + 1)) 0 (omega (arith, v.counts))
          ∙ small,
    )

-- In a valid state with at least the pages of two blocks in use: after two frees of the same order,
-- of `p` and then of `q`, the next two allocations of that order succeed and give `q` and the
-- address 0, whatever `p` was.
pub alloc_pages-free_pages :
    {orders : ℕ} {b : Buddy} (p q order : ℕ)
    → IsValid orders b
    → order < orders
    → 2 * 2 ^ order ≤ b.used_pages
    → let (st, b1) = free_pages orders b p order in
      let (st', b2) = free_pages orders b1 q order in
      let (st1, first, b3) = alloc_pages orders b2 order in
      let (st2, second, b4) = alloc_pages orders b3 order in
      (st1 ≡ ok) × (first ≡ q) × (st2 ≡ ok) × (second ≡ 0)
alloc_pages-free_pages {orders} {b} p q order v range enough =
    let some_pages = pow-pos order in
    let b1 = freed b p order in
    let b2 = freed b1 q order in
    let (ok1, v1, kept1, less1) = free_pages-IsValid p order v range (omega arith) in
    let eq1 = freed-eq p order v range in
    let valid1 : IsValid orders b1 = subst (λ (o : Error × Buddy). IsValid orders o.1) eq1 v1 in
    let less1' : b1.used_pages + 2 ^ order ≡ b.used_pages =
      subst (λ (o : Error × Buddy). o.1.used_pages + 2 ^ order ≡ b.used_pages) eq1 less1 in
    let eq2 = freed-eq q order valid1 range in
    let (head1, count1) = freed-head p order v range (omega arith) in
    let (head2, count2) = freed-head q order valid1 range (omega (arith, less1')) in
    let b3 : Buddy = record (take_block b2 order) {
      used_pages = u64 (b2.used_pages + 2 ^ order);
    } in
    let range_list : order < length b2.free_list =
      omega (arith, v.heads, length-set b.free_list order p, length-set b1.free_list order q) in
    let range_count : order < length b2.free_count =
      omega (arith, valid1.counts, length-set b1.free_count order (u32 (count_at b1 order + 1))) in
    let head3 : head_at b3 order ≡ 0 = get_or-set_self b2.free_list order 0 0 range_list in
    let count3 = get_or-set_self b2.free_count order (count_at b2 order - 1) 0 range_count in
    let left : 0 < count_at b3 order = omega (arith, count1, count2, count3) in
    rw
      (
        eq1,
        eq2,
        alloc_pages-head orders b2 order v.is_up range (omega (arith, count2)),
        alloc_pages-head orders b3 order v.is_up range left,
      )
      (refl, head2, refl, head3)
