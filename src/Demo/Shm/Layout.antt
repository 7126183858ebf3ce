-- ===== src/Demo/Shm/Layout.antt =====
-- Where the shared regions lie: the shape of a table of regions, and what writes do to it.
use team_os_3_0_baios.Base.{
  ℕ, zero, suc, ◌+◌, ◌≤◌, ◌<◌, ◌≡◌, ◌≢◌, ◌⊎◌, inl, inr, refl, sym, ap, subst, ◌∙◌, List, [], ◌∷◌,
  arith, length, get_or, set, get_or-set_self, get_or-set_ne, ℕ_discrete, if◌then◌else◌, ◌==◌, u64,
}
use team_os_3_0_baios.Demo.Shm.{ShmRegion, zero_region, add_shared}

abbrev pub entry : List ShmRegion → ℕ → ShmRegion
entry rs i = get_or rs i zero_region

-- The sizes of the first `n` entries.
abbrev pub total : List ShmRegion → ℕ → ℕ
total [] n = 0
total (r ∷ rs) zero = 0
total (r ∷ rs) (suc n) = r.size + total rs n

-- The first `count` regions that hold memory lie between `heap` and `top`, in the order of the
-- table, none over another.
pub record Layout (heap : ℕ) (rs : List ShmRegion) (count top : ℕ) : Type 0 where
  pub inside :
      (i : ℕ)
      → i < count
      → 0 < (entry rs i).size
      → (heap ≤ (entry rs i).base) × ((entry rs i).base + (entry rs i).size ≤ top)
  pub apart :
      (i j : ℕ)
      → i < j
      → j < count
      → 0 < (entry rs i).size
      → 0 < (entry rs j).size
      → (entry rs i).base + (entry rs i).size ≤ (entry rs j).base

pub Layout-grow :
    {heap count top top' : ℕ} {rs : List ShmRegion}
    → Layout heap rs count top
    → top ≤ top'
    → Layout heap rs count top'
Layout-grow l h = record {
  inside = λ i c p. ((l.inside i c p).0, omega (arith, (l.inside i c p).1));
  apart = l.apart;
}

-- A write that gives an entry no memory, or leaves it its own.
abbrev pub Keeps : ShmRegion → ShmRegion → Type 0
Keeps old new = (new.size ≡ 0) ⊎ ((new.base ≡ old.base) × (new.size ≡ old.size))

-- An entry of the table after such a write: it has no memory, or the memory it had.
entry-set-Keeps :
    (rs : List ShmRegion) (i j : ℕ) (r : ShmRegion)
    → Keeps (entry rs i) r
    → Keeps (entry rs j) (entry (set rs i r) j)
entry-set-Keeps [] i j r k = inr (refl, refl)
entry-set-Keeps (x ∷ xs) zero zero r k = k
entry-set-Keeps (x ∷ xs) zero (suc j) r k = inr (refl, refl)
entry-set-Keeps (x ∷ xs) (suc i) zero r k = inr (refl, refl)
entry-set-Keeps (x ∷ xs) (suc i) (suc j) r k = entry-set-Keeps xs i j r k

pub Layout-set :
    {heap count top : ℕ} {rs : List ShmRegion} (i : ℕ) (r : ShmRegion)
    → Layout heap rs count top
    → Keeps (entry rs i) r
    → Layout heap (set rs i r) count top
Layout-set {rs = rs} i r l k = record {
  inside = λ j c p. elim (entry-set-Keeps rs i j r k) [
    | inl e ↦ absurd (omega arith)
    | inr (b, e) ↦ rw (b, e) (l.inside j c (omega arith))
  ];
  apart = λ j m h c p q. elim (entry-set-Keeps rs i j r k) [
    | inl e ↦ absurd (omega arith)
    | inr (b, e) ↦ elim (entry-set-Keeps rs i m r k) [
      | inl e' ↦ absurd (omega arith)
      | inr (b', e') ↦ rw (b, e, b') (l.apart j m h c (omega arith) (omega arith))
    ]
  ];
}

-- A region added after the last, in memory above all others.
pub Layout-append :
    {heap count top top' : ℕ} {rs : List ShmRegion} (r : ShmRegion)
    → Layout heap rs count top
    → count < length rs
    → heap ≤ top
    → top ≡ r.base
    → r.base + r.size ≤ top'
    → Layout heap (set rs count r) (count + 1) top'
Layout-append {count = count} {rs = rs} r l room low at high =
    let self = get_or-set_self rs count r zero_region room in
    record {
      inside = λ j c p. elim (ℕ_discrete count j) [
        | yes e ↦
            let same : entry (set rs count r) j ≡ r =
              sym (ap (λ x. entry (set rs count r) x) e) ∙ self in
            rw same (omega arith, high)
        | no ne ↦
            let same = get_or-set_ne rs count j r zero_region ne in
            let p' : 0 < (entry rs j).size = subst (λ (x : ShmRegion). 0 < x.size) same p in
            let (a, b) = l.inside j (omega arith) p' in rw same (a, omega arith)
      ];
      apart = λ j m h c p q.
          let ne : count ≢ j = λ e. absurd (omega arith) in
          let same = get_or-set_ne rs count j r zero_region ne in
          let p' : 0 < (entry rs j).size = subst (λ (x : ShmRegion). 0 < x.size) same p in
          elim (ℕ_discrete count m) [
            | yes e ↦
                let last : entry (set rs count r) m ≡ r =
                  sym (ap (λ x. entry (set rs count r) x) e) ∙ self in
                let (a, b) = l.inside j (omega arith) p' in rw (same, last) (omega arith)
            | no ne' ↦
                let same' = get_or-set_ne rs count m r zero_region ne' in
                let q' : 0 < (entry rs m).size = subst (λ (x : ShmRegion). 0 < x.size) same' q in
                rw (same, same') (l.apart j m h (omega arith) p' q')
          ];
    }

-- What `baios_mem_stats` adds up is at most the sizes of the regions.
pub add_shared-total :
    (acc : ℕ) (rs : List ShmRegion) (n : ℕ) → add_shared acc rs n ≤ acc + total rs n
add_shared-total acc [] n = omega arith
add_shared-total acc (r ∷ rs) zero = omega arith
add_shared-total acc (r ∷ rs) (suc n) =
    let acc' = if r.handle == 0 then acc else u64 (acc + r.size) in
    let small : acc' ≤ acc + r.size = ground arith in omega (arith, add_shared-total acc' rs n)

-- A write to an entry changes the sum by the difference of the sizes.
pub total-set :
    (rs : List ShmRegion) (i n : ℕ) (r : ShmRegion)
    → i < n
    → i < length rs
    → total (set rs i r) n + (entry rs i).size ≡ total rs n + r.size
total-set [] i n r h g = absurd (omega arith)
total-set (x ∷ xs) zero zero r h g = absurd (omega arith)
total-set (x ∷ xs) zero (suc n) r h g = omega arith
total-set (x ∷ xs) (suc i) zero r h g = absurd (omega arith)
total-set (x ∷ xs) (suc i) (suc n) r h g =
    omega (arith, total-set xs i n r (omega arith) (omega arith))

pub total_none : (rs : List ShmRegion) → total rs 0 ≡ 0
total_none [] = refl
total_none (r ∷ rs) = refl

-- An entry added after the last.
pub total-append :
    (rs : List ShmRegion) (n : ℕ) (r : ShmRegion)
    → n < length rs
    → total (set rs n r) (suc n) ≡ total rs n + r.size
total-append [] n r g = absurd (omega arith)
total-append (x ∷ xs) zero r g = omega (arith, total_none xs)
total-append (x ∷ xs) (suc n) r g = omega (arith, total-append xs n r (omega arith))
