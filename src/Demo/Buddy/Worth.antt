-- ===== src/Demo/Buddy/Worth.antt =====
-- The pages that the counts of the orders stand for, and what allocations and frees do to them.
use team_os_3_0_baios.Base.{
  ℕ, zero, suc, ◌+◌, ◌-◌, ◌*◌, ◌^◌, ◌≤◌, ◌<◌, ◌≡◌, ◌⊎◌, ◌∙◌, inl, inr, refl, sym, ap, List, [], ◌∷◌,
  true, false, arith, not, ◌||◌, ltb, leb, get_or, set, length, length-set, u32, u64, Bool-cases,
  pow-suc, dec_lt, ℕ_discrete,
}
use team_os_3_0_baios.Demo.Error.{Error, ok, no_memory}
use team_os_3_0_baios.Demo.Buddy.{
  Buddy, page_size, count_at, head_at, put_block, take_block, split, take_from, search_from,
  alloc_pages,
}

-- A block of order `o` is `2 ^ o` pages.
abbrev pub worth : List ℕ → ℕ
worth [] = 0
worth (c ∷ cs) = c + 2 * worth cs

-- The free pages.
abbrev pub free_worth : Buddy → ℕ
free_worth b = worth b.free_count

pub record IsValid (orders : ℕ) (b : Buddy) : Type 0 where
  pub is_up : b.ready ≡ true
  pub heads : length b.free_list ≡ orders
  pub counts : length b.free_count ≡ orders
  pub few : free_worth b + b.used_pages < 2 ^ 32

pub double_pow : (n : ℕ) → 2 ^ suc n ≡ 2 * 2 ^ n
double_pow n = omega (arith, pow-suc 2 n)

double_pred : (n : ℕ) → 0 < n → 2 ^ n ≡ 2 * 2 ^ (n - 1)
double_pred zero h = absurd (omega arith)
double_pred (suc n) h = let down : suc n - 1 ≡ n = omega arith in rw down (double_pow n)

pub pow-pos : (n : ℕ) → 0 < 2 ^ n
pow-pos zero = omega arith
pow-pos (suc n) = omega (arith, pow-pos n, double_pow n)

pub worth_more :
    (cs : List ℕ) (o : ℕ) → o < length cs → worth (set cs o (get_or cs o 0 + 1)) ≡ worth cs + 2 ^ o
worth_more [] o h = absurd (omega arith)
worth_more (c ∷ cs) zero h = omega arith
worth_more (c ∷ cs) (suc o) h = omega (arith, worth_more cs o (omega arith), double_pow o)

pub worth_less :
    (cs : List ℕ) (o : ℕ)
    → 0 < get_or cs o 0
    → worth (set cs o (get_or cs o 0 - 1)) + 2 ^ o ≡ worth cs
worth_less [] o h = absurd (omega arith)
worth_less (c ∷ cs) zero h = omega arith
worth_less (c ∷ cs) (suc o) h = omega (arith, worth_less cs o h, double_pow o)

pub count-worth : (cs : List ℕ) (o : ℕ) → get_or cs o 0 ≤ worth cs
count-worth [] o = omega arith
count-worth (c ∷ cs) zero = omega arith
count-worth (c ∷ cs) (suc o) = omega (arith, count-worth cs o)

-- Giving a block back adds its pages.
pub put_block-worth :
    (b : Buddy) (o block : ℕ)
    → o < length b.free_count
    → free_worth b + 1 < 2 ^ 32
    → free_worth (put_block b o block) ≡ free_worth b + 2 ^ o
put_block-worth b o block h few =
    let small : u32 (count_at b o + 1) ≡ count_at b o + 1 =
      omega (arith, count-worth b.free_count o) in
    ap (λ c. worth (set b.free_count o c)) small ∙ worth_more b.free_count o h

-- Splitting keeps a block of the order asked for, and gives the rest of the pages back.
split-worth :
    (k order o block : ℕ) (b : Buddy)
    → k + order ≡ o
    → o ≤ length b.free_count
    → free_worth b + 2 ^ o < 2 ^ 32
    → let b' = split k o block b in
      (free_worth b' + 2 ^ order ≡ free_worth b + 2 ^ o)
      × (b'.used_pages ≡ b.used_pages)
      × (b'.ready ≡ b.ready)
      × (length b'.free_list ≡ length b.free_list)
      × (length b'.free_count ≡ length b.free_count)
split-worth zero order o block b h r few =
    let same : order ≡ o = omega arith in
    (ap (λ n. free_worth b + 2 ^ n) same, refl, refl, refl, refl)
split-worth (suc k) order o block b h r few =
    let half = u64 (block + page_size * 2 ^ (o - 1)) in
    let b' = put_block b (o - 1) half in
    let some_pages = pow-pos (o - 1) in
    let twice = double_pred o (omega arith) in
    let put = put_block-worth b (o - 1) half (omega arith) (omega arith) in
    let same_list = length-set b.free_list (o - 1) half in
    let same_count = length-set b.free_count (o - 1) (u32 (count_at b (o - 1) + 1)) in
    let (w, u, y, l, c) =
      split-worth k order (o - 1) block b' (omega arith) (omega (arith, same_count))
        (omega (arith, put, twice)) in
    (omega (arith, w, put, twice), u, y, l ∙ same_list, c ∙ same_count)

-- What an allocation that may fail comes to: the free and the used pages together stay as many.
pub record Allocated (orders order : ℕ) (b : Buddy) (out : Error × ℕ × Buddy) : Type 0 where
  pub valid : let (st, block, b') = out in IsValid orders b'
  pub kept :
      let (st, block, b') = out in free_worth b' + b'.used_pages ≡ free_worth b + b.used_pages
  pub used :
      let (st, block, b') = out in
      ((st ≡ ok) × (b'.used_pages ≡ b.used_pages + 2 ^ order))
      ⊎ ((st ≡ no_memory) × (b' ≡ b) × ((o : ℕ) → order ≤ o → count_at b o ≡ 0))

take_from-Allocated :
    {orders : ℕ} {b : Buddy} (order o : ℕ)
    → IsValid orders b
    → order ≤ o
    → o < orders
    → 0 < count_at b o
    → Allocated orders order b (take_from order o b)
take_from-Allocated {orders} {b} order o v h range c =
    let less = worth_less b.free_count o c in
    let same = length-set b.free_count o (count_at b o - 1) in
    let (w, u, y, l, n) =
      split-worth (o - order) order o (head_at b o) (take_block b o) (omega arith)
        (omega (arith, same, v.counts)) (omega (arith, less, v.few)) in
    let rest = split (o - order) o (head_at b o) (take_block b o) in
    let grown : u64 (rest.used_pages + 2 ^ order) ≡ b.used_pages + 2 ^ order =
      omega (arith, u, w, less, v.few) in
    record {
      valid = record {
        is_up = y ∙ v.is_up;
        heads = l ∙ length-set b.free_list o 0 ∙ v.heads;
        counts = n ∙ same ∙ v.counts;
        few = omega (arith, grown, w, less, v.few);
      };
      kept = omega (arith, grown, w, less);
      used = inl (refl, grown);
    }

count_at-beyond : (cs : List ℕ) (o : ℕ) → length cs ≤ o → get_or cs o 0 ≡ 0
count_at-beyond [] o h = refl
count_at-beyond (c ∷ cs) zero h = absurd (omega arith)
count_at-beyond (c ∷ cs) (suc o) h = count_at-beyond cs o (omega arith)

search_from-Allocated :
    {orders : ℕ} {b : Buddy} (n order o : ℕ)
    → IsValid orders b
    → order ≤ o
    → n + o ≡ orders
    → ((m : ℕ) → order ≤ m → m < o → count_at b m ≡ 0)
    → Allocated orders order b (search_from n order o b)
search_from-Allocated {b = b} zero order o v h e before = record {
  valid = v;
  kept = refl;
  used = inr (
    refl,
    refl,
    λ m g. elim (dec_lt m o) [
      | yes low ↦ before m g low
      | no high ↦ count_at-beyond b.free_count m (omega (arith, v.counts))
    ],
  );
}
search_from-Allocated {orders} {b} (suc n) order o v h e before =
    elim (Bool-cases (ltb 0 (count_at b o))) [
      | inl y ↦ rw y (take_from-Allocated order o v h (omega arith) (ground arith))
      | inr z ↦
          let empty : count_at b o ≡ 0 = ground arith in
          let before' : (m : ℕ) → order ≤ m → m < o + 1 → count_at b m ≡ 0 = λ m g l.
            elim (ℕ_discrete o m) [
              | yes s ↦ sym (ap (count_at b) s) ∙ empty
              | no ne ↦ before m g (omega arith)
            ] in
          rw z (search_from-Allocated n order (o + 1) v (omega arith) (omega arith) before')
    ]

-- In a valid state, an allocation of an order in range keeps the state valid and the sum of the
-- free and the used pages as it was; it succeeds and takes `2 ^ order` pages into use, or it finds
-- no memory, changes nothing, and no order from the one asked for up has a free block.
pub alloc_pages-Allocated :
    {orders : ℕ} {b : Buddy} (order : ℕ)
    → IsValid orders b
    → order < orders
    → Allocated orders order b (alloc_pages orders b order)
unfolding alloc_pages
alloc_pages-Allocated {orders} {b} order v range =
    let on : (not b.ready || leb orders order) ≡ false = ground (arith, v.is_up) in
    rw on (
      search_from-Allocated (orders - order) order order v (omega arith) (omega arith)
        (λ m g l. absurd (omega arith)))
