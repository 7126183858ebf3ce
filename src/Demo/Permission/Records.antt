-- ===== src/Demo/Permission/Records.antt =====
-- The records of BIOS/sw/permissions.cpp by their pid: what writes and additions do to the others.
use team_os_3_0_baios.Base.{
  ℕ, zero, suc, ◌+◌, ◌≤◌, ◌<◌, ◌≡◌, ◌≢◌, ◌∙◌, refl, sym, ap, List, [], ◌∷◌, Option, none, some,
  Bool, true, false, ◌==◌, leb, arith, length, get_or, set, get_or-set_self, Bool-cases, inl, inr,
}
use mathlib.Core.Option
use team_os_3_0_baios.Demo.Search.{find_index, find_index-range, find_index-set, find_index-same}
use team_os_3_0_baios.Demo.Permission.{
  Perms, PermRecord, zero_record, max_perm_records, record_at, find_record, put_record, ensure_at,
}

some-none : {i : ℕ} → some i ≡ none → ⊥
some-none e = cc

-- The record of a pid, if there is one.
abbrev pub lookup : Perms → ℕ → Option PermRecord
lookup s pid = Option.map (record_at s) (find_record s pid)

module _ (test : PermRecord → Bool) where
  abbrev pub seen : List PermRecord → ℕ → Option PermRecord
  seen rs n = Option.map (λ i. get_or rs i zero_record) (find_index test rs n)

  seen-suc :
      (x : PermRecord) (xs : List PermRecord) (o : Option ℕ)
      → Option.map (λ i. get_or (x ∷ xs) i zero_record) (Option.map suc o)
        ≡ Option.map (λ i. get_or xs i zero_record) o
  seen-suc x xs none = refl
  seen-suc x xs (some i) = refl

  seen-next :
      (x : PermRecord) (xs : List PermRecord) (n : ℕ)
      → test x ≡ false
      → seen (x ∷ xs) (suc n) ≡ seen xs n
  seen-next x xs n e = rw e (seen-suc x xs (find_index test xs n))

  seen-zero : (xs : List PermRecord) → seen xs 0 ≡ none
  seen-zero [] = refl
  seen-zero (x ∷ xs) = refl

  seen-here :
      (x : PermRecord) (xs : List PermRecord) (n : ℕ)
      → test x ≡ true
      → seen (x ∷ xs) (suc n) ≡ some x
  seen-here x xs n e = rw e refl

  -- A write to an entry that fails the test before and after.
  seen-set :
      (rs : List PermRecord) (n i : ℕ) (r : PermRecord)
      → test (get_or rs i zero_record) ≡ false
      → test r ≡ false
      → seen (set rs i r) n ≡ seen rs n
  seen-set [] n i r e f = refl
  seen-set (x ∷ xs) zero i r e f = seen-zero (set (x ∷ xs) i r)
  seen-set (x ∷ xs) (suc n) zero r e f = seen-next r xs n f ∙ sym (seen-next x xs n e)
  seen-set (x ∷ xs) (suc n) (suc i) r e f = elim (Bool-cases (test x)) [
    | inl y ↦ seen-here x (set xs i r) n y ∙ sym (seen-here x xs n y)
    | inr z ↦ seen-next x (set xs i r) n z ∙ seen-set xs n i r e f ∙ sym (seen-next x xs n z)
  ]

  -- An entry added after the last that fails the test.
  seen-append :
      (rs : List PermRecord) (n : ℕ) (r : PermRecord)
      → test r ≡ false
      → seen (set rs n r) (suc n) ≡ seen rs n
  seen-append [] n r f = refl
  seen-append (x ∷ xs) zero r f = seen-next r xs 0 f ∙ seen-zero xs
  seen-append (x ∷ xs) (suc n) r f = elim (Bool-cases (test x)) [
    | inl y ↦ seen-here x (set xs n r) (suc n) y ∙ sym (seen-here x xs n y)
    | inr z ↦ seen-next x (set xs n r) (suc n) z ∙ seen-append xs n r f ∙ sym (seen-next x xs n z)
  ]

abbrev is_of : ℕ → PermRecord → Bool
is_of pid r = r.pid == pid

-- What looking for a record of a pid, or adding one, comes to.
abbrev pub Ensured : Perms → ℕ → Option ℕ × Perms → Type 0
Ensured s pid (none, s') = (max_perm_records ≤ s.count) × (s' ≡ s)
Ensured s pid (some i, s') =
    (find_record s' pid ≡ some i)
    × ((find_record s pid ≡ none) → (record_at s' i).granted ≡ 0)
    × ((other : ℕ) → other ≢ pid → lookup s' other ≡ lookup s other)

pub ensure_at-Ensured :
    (s : Perms) (pid : ℕ) (o : Option ℕ)
    → length s.records ≡ max_perm_records
    → find_record s pid ≡ o
    → Ensured s pid (ensure_at s pid o)
ensure_at-Ensured s pid (some i) sized e =
    (e, λ n. absurd (some-none (sym e ∙ n)), λ other ne. refl)
ensure_at-Ensured s pid none sized e = elim (Bool-cases (leb max_perm_records s.count)) [
  | inl full ↦ rw full (ground arith, refl)
  | inr room ↦
      let r : PermRecord = record zero_record { pid = pid } in
      let range : s.count < length s.records = ground arith in
      let next : s.count + 1 ≡ suc s.count = omega arith in
      let own : is_of pid r ≡ true = ground arith in
      let not_own : (other : ℕ) → other ≢ pid → is_of other r ≡ false = λ other ne. ground arith in
      rw (room, next)
        (
          find_index-set (is_of pid) s.records s.count r range e own,
          λ n.
              ap (λ (x : PermRecord). x.granted)
                (get_or-set_self s.records s.count r zero_record range),
          λ other ne. seen-append (is_of other) s.records s.count r (not_own other ne),
        )
]

-- A record of the pid written over.
pub put_record-lookup :
    (s : Perms) (pid i granted requested : ℕ)
    → find_record s pid ≡ some i
    → let r : PermRecord = record (record_at s i) { granted = granted; requested = requested } in
      let s' = put_record s i r in
      (lookup s' pid ≡ some r) × ((other : ℕ) → other ≢ pid → lookup s' other ≡ lookup s other)
put_record-lookup s pid i granted requested e =
    let (low, range, hit) = find_index-range (is_of pid) zero_record s.records s.count i e in
    let r : PermRecord = record (record_at s i) { granted = granted; requested = requested } in
    let again = find_index-same (is_of pid) s.records s.count i r e hit in
    let same : (record_at s i).pid ≡ pid = ground arith in
    (
      ap (Option.map (record_at (put_record s i r))) again
          ∙ ap some (get_or-set_self s.records i r zero_record range),
      λ other ne.
          let miss : is_of other (record_at s i) ≡ false = ground arith in
          seen-set (is_of other) s.records s.count i r miss miss,
    )
