-- ===== src/Memory/Seed.antt =====
-- The loop of `baios_mm_init` that puts blocks into the free lists.
use team_os_3_0_baios.Base.{
  ℕ, zero, suc, ◌+◌, ◌-◌, ◌^◌, ◌≤◌, ◌<◌, ◌≡◌, ◌≢◌, ◌∙◌, refl, sym, ap, subst, List, [], ◌∷◌, none,
  some, false, ◌==◌, arith, length, u64, update, ℕ_discrete,
}
use team_os_3_0_baios.Memory.{
  Page, Memory, max_order, order_to_pages, list_add, add_free, fit_order, seed_block, seed,
}
use team_os_3_0_baios.Memory.Chain.{
  IsChain, Absent, Linked-update, update_other, update_same, list_add-IsChain,
}
use team_os_3_0_baios.Memory.Blocks.{
  Block, firsts, IsTiled, pow_pos, Absent-firsts, Absent-order, length-firsts, order-firsts,
  Marked-update, Marked-same, list_add-same, IsChain-list_add,
}

-- The block chosen fits, and is at least one page, and of an order that is not above the first tried.
pub fit_order-le :
    (order n : ℕ)
    → 0 < n
    → (0 < order_to_pages (fit_order order n))
      × (order_to_pages (fit_order order n) ≤ n)
      × (fit_order order n ≤ order)
unfolding fit_order
fit_order-le zero n pos = ground arith
fit_order-le (suc order) n pos = ground (arith, pow_pos (suc order), fit_order-le order n pos)

-- The descriptor that a round writes before it adds the block.
abbrev head_page : Memory → ℕ → ℕ → Page
head_page m p order = record (m.pages p) { order = order; flags = 1 }

firsts_same :
    (b : Block) (bs : List Block) (k : ℕ) → b.order ≡ k → firsts k (b ∷ bs) ≡ b.first ∷ firsts k bs
firsts_same b bs k e = ground arith

firsts_other : (b : Block) (bs : List Block) (k : ℕ) → b.order ≢ k → firsts k (b ∷ bs) ≡ firsts k bs
firsts_other b bs k n = ground arith

-- The head of the list of one order is in no list of another order.
Absent-head :
    (m : Memory) (bs : List Block) (top order k h : ℕ)
    → IsTiled m bs top
    → order ≢ k
    → m.heads order ≡ some h
    → Absent h (firsts k bs)
Absent-head m bs top order k h t ne e = go (firsts order bs) refl
  where
    go : (xs : List ℕ) → firsts order bs ≡ xs → Absent h (firsts k bs)
    go [] f = absurd (cc (subst (λ ys. IsChain m.pages (m.heads order) ys) f (t.chains order)).0)
    go (x ∷ xs) f =
        let chain = subst (λ ys. IsChain m.pages (m.heads order) ys) f (t.chains order) in
        let same : h ≡ x = ground (arith, chain.0.0) in
        let of_order : (m.pages h).order ≡ order =
          ap (λ q. (m.pages q).order) same ∙ order-firsts m.pages bs order x xs t.marked f in
        Absent-order m.pages bs h k t.marked (λ u. ne (sym of_order ∙ u))

-- A round adds its block behind the others.
seed_block-IsTiled :
    (m : Memory) (bs : List Block) (p order : ℕ)
    → IsTiled m bs p
    → order ≤ max_order
    → p + 1 < 2 ^ 64
    → IsTiled
        (seed_block m p order)
        (record { first = p; order = order } ∷ bs)
        (p + order_to_pages order)
unfolding seed_block add_free
seed_block-IsTiled m bs p order t low small =
    let b : Block = record { first = p; order = order } in
    let pages1 = update m.pages p (head_page m p order) in
    let absent : (k : ℕ) → Absent p (firsts k bs) =
      λ k. Absent-firsts bs p p k t.tiles (omega arith) in
    let chain1 : (k : ℕ) → IsChain pages1 (m.heads k) (firsts k bs) = λ k. (
      Linked-update m.pages p (head_page m p order) none (m.heads k) (firsts k bs) (absent k)
          (t.chains k).0,
      (t.chains k).1,
    ) in
    let out = list_add pages1 (m.heads order) p in
    let same : (i : ℕ)
        → ((out.0 i).order ≡ (pages1 i).order) × ((out.0 i).flags ≡ (pages1 i).flags) =
      list_add-same pages1 (m.heads order) p in
    record {
      tiles = (refl, low, t.tiles);
      chains = λ k. elim (ℕ_discrete order k) [
        | yes e ↦
            let added =
              list_add-IsChain pages1 (m.heads order) p (firsts order bs) (absent order)
                (chain1 order) in
            subst (λ j. IsChain out.0 (update m.heads order out.1 j) (firsts j (b ∷ bs))) e
              (rw (firsts_same b bs order refl, update_same m.heads order out.1) added)
        | no ne ↦
            rw (firsts_other b bs k ne, update_other m.heads order k out.1 ne)
              (IsChain-list_add pages1 (m.heads order) p (m.heads k) (firsts k bs) (absent k)
                (λ h e. Absent-head m bs p order k h t ne e) (chain1 k))
      ];
      counted = λ k. elim (ℕ_discrete order k) [
        | yes e ↦
            let most = length-firsts bs p order t.tiles in
            let more : u64 (m.counts order + 1) ≡ suc (length (firsts order bs)) =
              omega (arith, t.counted order) in
            subst
              (λ j. update m.counts order (u64 (m.counts order + 1)) j ≡ length (firsts j (b ∷ bs)))
              e
              (rw (firsts_same b bs order refl)
                (update_same m.counts order (u64 (m.counts order + 1)) ∙ more))
        | no ne ↦
            rw (firsts_other b bs k ne)
              (update_other m.counts order k (u64 (m.counts order + 1)) ne ∙ t.counted k)
      ];
      marked =
          Marked-same pages1 out.0 (b ∷ bs) (λ i. (same i).0)
            (
              ap (λ (q : Page). q.order) (update_same m.pages p (head_page m p order)),
              Marked-update m.pages bs p p (head_page m p order) t.tiles (omega arith) t.marked,
            );
      free = λ i. (same i).1 ∙ (elim (ℕ_discrete p i) [
        | yes e ↦
            subst (λ j. (pages1 j).flags ≡ 1) e
              (ap (λ (q : Page). q.flags) (update_same m.pages p (head_page m p order)))
        | no ne ↦
            ap (λ (q : Page). q.flags) (update_other m.pages p i (head_page m p order) ne)
            ∙ t.free i
      ]);
    }

-- The loop covers all pages that remain, with as much fuel as there are.
pub seed-IsTiled :
    (fuel : ℕ) (m : Memory) (bs : List Block) (p n : ℕ)
    → IsTiled m bs p
    → n ≤ fuel
    → p + n < 2 ^ 64
    → (bs' : List Block) × IsTiled (seed fuel m p n) bs' (p + n)
unfolding seed
seed-IsTiled zero m bs p n t h small =
    let none_left : p ≡ p + n = omega arith in (bs, subst (IsTiled m bs) none_left t)
seed-IsTiled (suc fuel) m bs p zero t h small =
    let none_left : p ≡ p + 0 = omega arith in (bs, subst (IsTiled m bs) none_left t)
seed-IsTiled (suc fuel) m bs p (suc n) t h small =
    let o = fit_order max_order (suc n) in
    let (some_pages, fits, low) = fit_order-le max_order (suc n) (omega arith) in
    let one = seed_block-IsTiled m bs p o t low (omega arith) in
    let (bs', all) =
      seed-IsTiled fuel (seed_block m p o) (record { first = p; order = o } ∷ bs)
        (p + order_to_pages o) (suc n - order_to_pages o) one (omega arith) (omega arith) in
    let end : p + order_to_pages o + (suc n - order_to_pages o) ≡ p + suc n = omega arith in
    let go : (suc n == 0) ≡ false = ground arith in
    (
      bs',
      rw go (
          subst
            (IsTiled
              (seed fuel (seed_block m p o) (p + order_to_pages o) (suc n - order_to_pages o)) bs')
            end all),
    )
