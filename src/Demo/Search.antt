-- ===== src/Demo/Search.antt =====
-- The search that the tables of this kernel share: a loop over the first `n` entries of an array.
use team_os_3_0_baios.Base.{
  ℕ, zero, suc, ◌<◌, ◌≡◌, inl, inr, refl, subst, List, [], ◌∷◌, Option, none, some, Bool, true,
  false, arith, length, get_or, set, if◌then◌else◌, Bool-cases, Option-cases,
}
use mathlib.Core.Option

module _ {ℓ} {A : Type ℓ} where
  -- The first of the first `n` entries that passes a test.
  abbrev pub find_index : (A → Bool) → List A → ℕ → Option ℕ
  find_index test [] n = none
  find_index test (r ∷ rs) zero = none
  find_index test (r ∷ rs) (suc n) =
      let rest = Option.map suc (find_index test rs n) in if test r then some 0 else rest

  module _ (test : A → Bool) (d : A) where
    -- An index that a search finds is below its bound and in the table, and its entry passes.
    pub find_index-range :
        (rs : List A) (n i : ℕ)
        → find_index test rs n ≡ some i
        → (i < n) × (i < length rs) × (test (get_or rs i d) ≡ true)
    find_index-range [] n i e = ground arith
    find_index-range (r ∷ rs) zero i e = ground arith
    find_index-range (r ∷ rs) (suc n) i e = elim (Bool-cases (test r)) [
      | inl y ↦ ground arith
      | inr y ↦ elim (Option-cases (find_index test rs n)) [
        | inl o ↦ ground arith
        | inr (j, o) ↦
            let (a, b, c) = find_index-range rs n j o in
            let same : suc j ≡ i = ground arith in
            subst (λ k. (k < suc n) × (k < suc (length rs)) × (test (get_or (r ∷ rs) k d) ≡ true))
              same (omega arith, omega arith, c)
      ]
    ]

    -- Some entry among the first `n` passes.
    pub find_index-some :
        (rs : List A) (n i : ℕ)
        → i < n
        → i < length rs
        → test (get_or rs i d) ≡ true
        → (j : ℕ) × (find_index test rs n ≡ some j)
    find_index-some [] n i low range pass = absurd (omega arith)
    find_index-some (x ∷ xs) zero i low range pass = absurd (omega arith)
    find_index-some (x ∷ xs) (suc n) zero low range pass = (0, rw pass refl)
    find_index-some (x ∷ xs) (suc n) (suc i) low range pass = elim (Bool-cases (test x)) [
      | inl e ↦ (0, rw e refl)
      | inr e ↦
          let (j, o) = find_index-some xs n i (omega arith) (omega arith) pass in
          (suc j, rw (e, o) refl)
    ]

  module _ (test : A → Bool) where
    -- A search that fails on the first `n` entries, and an entry `n` that passes.
    pub find_index-set :
        (rs : List A) (n : ℕ) (r : A)
        → n < length rs
        → find_index test rs n ≡ none
        → test r ≡ true
        → find_index test (set rs n r) (suc n) ≡ some n
    find_index-set [] n r range fails pass = absurd (omega arith)
    find_index-set (x ∷ xs) zero r range fails pass = rw pass refl
    find_index-set (x ∷ xs) (suc n) r range fails pass = elim (Bool-cases (test x)) [
      | inl e ↦ ground arith
      | inr e ↦ elim (Option-cases (find_index test xs n)) [
        | inl o ↦ rw (e, find_index-set xs n r (omega arith) o pass) refl
        | inr (j, o) ↦ ground arith
      ]
    ]

    -- A search that fails still fails once the next entry is taken in, if that does not pass.
    pub find_index-set-none :
        (rs : List A) (n : ℕ) (r : A)
        → find_index test rs n ≡ none
        → test r ≡ false
        → find_index test (set rs n r) (suc n) ≡ none
    find_index-set-none [] n r fails pass = refl
    find_index-set-none (x ∷ []) zero r fails pass = rw pass refl
    find_index-set-none (x ∷ (y ∷ xs)) zero r fails pass = rw pass refl
    find_index-set-none (x ∷ xs) (suc n) r fails pass = elim (Bool-cases (test x)) [
      | inl e ↦ ground arith
      | inr e ↦ elim (Option-cases (find_index test xs n)) [
        | inl o ↦ rw (e, find_index-set-none xs n r o pass) refl
        | inr (j, o) ↦ ground arith
      ]
    ]

    -- A write to the entry that a search finds: it is found again if it still passes.
    pub find_index-same :
        (rs : List A) (n i : ℕ) (r : A)
        → find_index test rs n ≡ some i
        → test r ≡ true
        → find_index test (set rs i r) n ≡ some i
    find_index-same [] n i r e pass = ground arith
    find_index-same (x ∷ xs) zero i r e pass = ground arith
    find_index-same (x ∷ xs) (suc n) zero r e pass = rw pass refl
    find_index-same (x ∷ xs) (suc n) (suc i) r e pass = elim (Bool-cases (test x)) [
      | inl y ↦ ground arith
      | inr y ↦ elim (Option-cases (find_index test xs n)) [
        | inl o ↦ ground arith
        | inr (j, o) ↦
            let hit : find_index test xs n ≡ some i = ground arith in
            rw (y, find_index-same xs n i r hit pass) refl
      ]
    ]

  -- A search with a stronger test fails where one has failed.
  pub find_index-none :
      (test test' : A → Bool) (rs : List A) (n : ℕ)
      → ((r : A) → test r ≡ false → test' r ≡ false)
      → find_index test rs n ≡ none
      → find_index test' rs n ≡ none
  find_index-none test test' [] n weaker e = refl
  find_index-none test test' (x ∷ xs) zero weaker e = refl
  find_index-none test test' (x ∷ xs) (suc n) weaker e = elim (Bool-cases (test x)) [
    | inl y ↦ ground arith
    | inr y ↦ elim (Option-cases (find_index test xs n)) [
      | inl o ↦ rw (weaker x y, find_index-none test test' xs n weaker o) refl
      | inr (j, o) ↦ ground arith
    ]
  ]
