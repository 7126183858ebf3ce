-- ===== src/Demo/Process/Live.antt =====
-- What the scheduler of BIOS/sw/process_manager.cpp picks from the list that creations build.
use team_os_3_0_baios.Base.{
  ℕ, zero, suc, ◌+◌, ◌-◌, ◌≤◌, ◌<◌, ◌≡◌, ◌≢◌, ◌⊎◌, ◌∙◌, inl, inr, refl, ap, Option, none, some,
  true, false, ◌==◌, leb, if◌then◌else◌, arith, length, Bool-cases, ℕ_discrete,
}
use team_os_3_0_baios.Demo.Process.{Sw, proc_at}
use team_os_3_0_baios.Demo.Process.Schedule.{is_runnable, or_list, scan}

-- The place before, none before the first.
abbrev pub before : ℕ → Option ℕ
before zero = none
before (suc i) = some i

-- The first `n` places hold processes, each linked to the one created before it, and the current
-- process, if there is one, is among them.
pub record IsLinked (n : ℕ) (s : Sw) : Type 0 where
  pub sized : n ≤ length s.pool
  pub list : s.process_list ≡ before n
  pub links : (i : ℕ) → i < n → (proc_at s i).next ≡ before i
  pub current_in : (c : ℕ) → s.current ≡ some c → c < n

abbrev pub IsRunnable : Sw → ℕ → Type 0
IsRunnable s i = is_runnable (proc_at s i).state ≡ true

abbrev pub IsIdle : Sw → ℕ → Type 0
IsIdle s i = is_runnable (proc_at s i).state ≡ false

-- The loop has looked at `i` when it comes to `p`: it goes from `start` down, and round from the top.
abbrev IsBetween : (start p i : ℕ) → Type 0
IsBetween start p i =
    ((p ≤ start) × (p < i) × (i ≤ start)) ⊎ ((start < p) × ((i ≤ start) ⊎ (p < i)))

abbrev Passed : Sw → (n start p : ℕ) → Type 0
Passed s n start p = (i : ℕ) → i < n → IsBetween start p i → IsIdle s i

-- `q` comes after `p` among the places up to `m`.
abbrev IsAfter : (m p q : ℕ) → Type 0
IsAfter m p q = ((p ≡ 0) × (q ≡ m)) ⊎ (q + 1 ≡ p)

-- How many places are left to look at.
abbrev pub left : (n start p : ℕ) → ℕ
left n start p = if leb p start then p + n - start else p - start

IsBetween-step :
    {m start p q i : ℕ}
    → start ≤ m
    → p ≤ m
    → i ≤ m
    → IsAfter m p q
    → i ≢ p
    → q ≢ start
    → IsBetween start q i
    → IsBetween start p i
IsBetween-step a b c d e f g = ground arith

IsBetween-end :
    {m start p q i : ℕ}
    → start ≤ m
    → p ≤ m
    → i ≤ m
    → IsAfter m p q
    → i ≢ p
    → q ≡ start
    → IsBetween start p i
IsBetween-end a b c d e f = ground arith

left-step :
    {m start p q fuel : ℕ}
    → start ≤ m
    → p ≤ m
    → IsAfter m p q
    → q ≢ start
    → left (suc m) start p ≤ suc fuel
    → left (suc m) start q ≤ fuel
left-step a b c d e = ground arith

-- What the loop gives: a process that can run, or none where no process can.
abbrev pub Picked : Sw → ℕ → Option (Option ℕ) → Type 0
Picked s n none = ⊥
Picked s n (some none) = (i : ℕ) → i < n → IsIdle s i
Picked s n (some (some p)) = (p < n) × IsRunnable s p

pub IsAfter-eq :
    {n : ℕ} {s : Sw} (m p : ℕ)
    → IsLinked n s
    → p < n
    → (q : ℕ) × (or_list (proc_at s p).next m ≡ q) × IsAfter m p q
IsAfter-eq m zero l h = (m, rw (l.links zero h) refl, inl (refl, refl))
IsAfter-eq m (suc p) l h = (p, rw (l.links (suc p) h) refl, inr (omega arith))

pub scan-Picked :
    {s : Sw} (fuel m start p : ℕ)
    → IsLinked (suc m) s
    → start ≤ m
    → p ≤ m
    → left (suc m) start p ≤ fuel
    → Passed s (suc m) start p
    → Picked s (suc m) (scan fuel s m start p)
scan-Picked zero m start p l hs hp enough passed = absurd (ground arith)
scan-Picked {s} (suc fuel) m start p l hs hp enough passed =
    elim (Bool-cases (is_runnable (proc_at s p).state)) [
      | inl y ↦ rw y (omega arith, y)
      | inr z ↦
          let (q, next, after) = IsAfter-eq m p l (omega arith) in
          let at_p : (i : ℕ) → i ≡ p → IsIdle s i =
            λ i same. ap (λ k. is_runnable (proc_at s k).state) same ∙ z in
          elim (ℕ_discrete q start) [
            | yes back ↦
                let stop : (q == start) ≡ true = ground arith in
                rw (z, next, stop)
                  (λ i h. elim (ℕ_discrete i p) [
                    | yes same ↦ at_p i same
                    | no ne ↦ passed i h (IsBetween-end hs hp (omega arith) after ne back)
                  ])
            | no on ↦
                let go : (q == start) ≡ false = ground arith in
                let in_range : q ≤ m = ground arith in
                let passed' : Passed s (suc m) start q = λ i h w. elim (ℕ_discrete i p) [
                  | yes same ↦ at_p i same
                  | no ne ↦ passed i h (IsBetween-step hs hp (omega arith) after ne on w)
                ] in
                rw (z, next, go)
                  (scan-Picked fuel m start q l hs in_range (left-step hs hp after on enough)
                    passed')
          ]
    ]
