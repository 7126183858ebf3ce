-- ===== src/Demo/Buddy/Order.antt =====
-- The two loops that choose an order, and the state that the start of the allocator leaves.
use team_os_3_0_baios.Base.{
  ℕ, zero, suc, ◌+◌, ◌-◌, ◌*◌, ◌^◌, ◌≤◌, ◌<◌, ◌≡◌, ◌⊎◌, ◌∙◌, inl, inr, refl, subst, List, arith,
  ltb, leb, get_or, set, replicate, length, length-set, length-replicate, u32, u64, Bool-cases,
}
use team_os_3_0_baios.Demo.Error.{ok}
use team_os_3_0_baios.Demo.Buddy.{
  Buddy, page_size, order_loop, order_from_size, max_order_loop, max_order, init_buddy,
}
use team_os_3_0_baios.Demo.Buddy.Worth.{worth, worth_more, free_worth, double_pow, pow-pos, IsValid}

-- The bytes of a block.
abbrev pub block_size : ℕ → ℕ
block_size o = page_size * 2 ^ o

-- Order `o` is the least, from 0 to `top`, of which a block holds `size`; `top` if none does.
pub record IsLeast (size top o : ℕ) : Type 0 where
  pub range : o ≤ top
  pub holds : (size ≤ block_size o) ⊎ (o ≡ top)
  pub least : (o ≡ 0) ⊎ (block_size (o - 1) < size)

-- Order `o` is the greatest, from 0 to `top`, of which a block lies in `size`.
pub record IsGreatest (size top o : ℕ) : Type 0 where
  pub range : o ≤ top
  pub lies : block_size o ≤ size
  pub greatest : (size < block_size (o + 1)) ⊎ (o ≡ top)

next_size : (o : ℕ) → block_size (o + 1) ≡ block_size o * 2
next_size o =
    let next : o + 1 ≡ suc o = omega arith in
    let double : 2 ^ (o + 1) ≡ 2 * 2 ^ o = rw next (double_pow o) in omega (arith, double)

order_loop-IsLeast :
    (orders n order size : ℕ)
    → order + n < 2 ^ 31
    → size ≤ 2 ^ 62
    → (order ≡ 0) ⊎ (block_size (order - 1) < size)
    → IsLeast size (order + n) (order_loop orders n order (block_size order) size)
order_loop-IsLeast orders zero order size a fits l = record {
  range = omega arith;
  holds = inr (omega arith);
  least = l;
}
order_loop-IsLeast orders (suc n) order size a fits l =
    elim (Bool-cases (ltb (block_size order) size)) [
      | inr e ↦ rw e (record { range = omega arith; holds = inl (ground arith); least = l })
      | inl e ↦
          let more : block_size order < size = ground arith in
          let step : u32 (order + 1) ≡ order + 1 = omega arith in
          let wide : u64 (block_size order * 2) ≡ block_size (order + 1) =
            omega (arith, next_size order) in
          let down : order + 1 - 1 ≡ order = omega arith in
          let top : order + 1 + n ≡ order + suc n = omega arith in
          rw (e, step, wide)
            (subst
              (λ t. IsLeast size t (order_loop orders n (order + 1) (block_size (order + 1)) size))
              top
              (order_loop-IsLeast orders n (order + 1) size (omega arith) fits
                (inr (rw down more))))
    ]

-- On at least one and fewer than 2^31 orders, and for a size of at most 2^62 bytes,
-- `order_from_size` is the least order, up to the highest, of which a block holds the size, and the
-- highest if none does.
pub order_from_size-IsLeast :
    (orders size : ℕ)
    → 0 < orders
    → orders < 2 ^ 31
    → size ≤ 2 ^ 62
    → IsLeast size (orders - 1) (order_from_size orders size)
unfolding order_from_size
order_from_size-IsLeast orders size some_order few fits =
    let top : 0 + (orders - 1) ≡ orders - 1 = omega arith in
    subst (λ t. IsLeast size t (order_loop orders (orders - 1) 0 (block_size 0) size)) top
      (order_loop-IsLeast orders (orders - 1) 0 size (omega arith) fits (inl refl))

max_order_loop-IsGreatest :
    (orders n order size : ℕ)
    → order + n < 2 ^ 31
    → size ≤ 2 ^ 62
    → block_size order ≤ size
    → IsGreatest size (order + n) (max_order_loop orders n order (block_size order) size)
max_order_loop-IsGreatest orders zero order size a fits l = record {
  range = omega arith;
  lies = l;
  greatest = inr (omega arith);
}
max_order_loop-IsGreatest orders (suc n) order size a fits l =
    let step : u32 (order + 1) ≡ order + 1 = omega arith in
    let wide : u64 (block_size order * 2) ≡ block_size (order + 1) =
      omega (arith, next_size order) in
    let top : order + 1 + n ≡ order + suc n = omega arith in
    elim (Bool-cases (leb (u64 (block_size order * 2)) size)) [
      | inr e ↦
          rw e (record { range = omega arith; lies = l; greatest = inl (ground (arith, wide)) })
      | inl e ↦
          rw (e, step, wide)
            (subst
              (λ t.
                IsGreatest size t
                  (max_order_loop orders n (order + 1) (block_size (order + 1)) size))
              top
              (max_order_loop-IsGreatest orders n (order + 1) size (omega arith) fits
                (ground (arith, wide))))
    ]

-- A count of 0 for each order.
abbrev zeros : ℕ → List ℕ
zeros n = replicate n 0

worth_zero : (n : ℕ) → worth (zeros n) ≡ 0
worth_zero zero = refl
worth_zero (suc n) = omega (arith, worth_zero n)

get_zero : (n o : ℕ) → get_or (zeros n) o 0 ≡ 0
get_zero zero o = refl
get_zero (suc n) zero = refl
get_zero (suc n) (suc o) = get_zero n o

pow-le : (m n : ℕ) → m ≤ n → 2 ^ m ≤ 2 ^ n
pow-le zero n h = omega (arith, pow-pos n)
pow-le (suc m) zero h = absurd (omega arith)
pow-le (suc m) (suc n) h = omega (arith, pow-le m n (omega arith), double_pow m, double_pow n)

-- The start, with 1 to 31 orders and a heap of at least one page and at most 2^62 bytes, leaves a
-- valid state in which nothing is in use and one block is free, of the greatest order of which a
-- block lies in the heap.
pub init_buddy-IsValid :
    (orders : ℕ) (b : Buddy) (base size : ℕ)
    → 0 < orders
    → orders < 32
    → page_size ≤ size
    → size ≤ 2 ^ 62
    → let (st, b') = init_buddy orders b base size in
      (st ≡ ok)
      × IsValid orders b'
      × (b'.used_pages ≡ 0)
      × (free_worth b' ≡ 2 ^ max_order orders size)
      × IsGreatest size (orders - 1) (max_order orders size)
unfolding init_buddy
init_buddy-IsValid orders b base size some_order few low fits =
    let m = max_order orders size in
    let top : 0 + (orders - 1) ≡ orders - 1 = omega arith in
    let best : IsGreatest size (orders - 1) m =
      subst (λ t. IsGreatest size t (max_order_loop orders (orders - 1) 0 (block_size 0) size)) top
        (max_order_loop-IsGreatest orders (orders - 1) 0 size (omega arith) fits (omega arith)) in
    let long : length (zeros orders) ≡ orders = length-replicate orders 0 in
    let range : m < length (zeros orders) = omega (arith, best.range, long) in
    let one : get_or (zeros orders) m 0 + 1 ≡ 1 = omega (arith, get_zero orders m) in
    let all : worth (set (zeros orders) m 1) ≡ 2 ^ m =
      subst (λ c. worth (set (zeros orders) m c) ≡ worth (zeros orders) + 2 ^ m) one
        (worth_more (zeros orders) m range)
      ∙ omega (arith, worth_zero orders) in
    (
      refl,
      record {
        is_up = refl;
        heads = length-set (zeros orders) m base ∙ long;
        counts = length-set (zeros orders) m 1 ∙ long;
        few = omega (arith, all, pow-le m 31 (omega (arith, best.range)));
      },
      refl,
      all,
      best,
    )
