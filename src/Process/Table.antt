-- ===== src/Process/Table.antt =====
-- The slots as a table keyed by pid: what a write at one slot does to the searches.
use team_os_3_0_baios.Base.{
  ℕ, zero, suc, ◌≤◌, ◌<◌, ◌≡◌, refl, [], ◌∷◌, Option, none, some, true, ◌==◌, if◌then◌else◌,
  get_elem?, set, length, arith, Bool-cases, inl, inr, ap,
}
use mathlib.Core.Option
use team_os_3_0_baios.Process.{Process, Slots, find_slot, find_pid}

-- How many slots hold a process.
abbrev pub occupied : Slots → ℕ
occupied [] = 0
occupied (none ∷ ps) = occupied ps
occupied (some p ∷ ps) = suc (occupied ps)

-- Every pid is below `n` and not 0.
abbrev pub Below : ℕ → Slots → Type 0
Below n [] = Unit {0}
Below n (none ∷ ps) = Below n ps
Below n (some p ∷ ps) = (0 < p.pid) × (p.pid < n) × Below n ps

-- No two slots hold the same pid.
abbrev pub Distinct : Slots → Type 0
Distinct [] = Unit {0}
Distinct (none ∷ ps) = Distinct ps
Distinct (some p ∷ ps) = (find_pid p.pid ps ≡ none) × Distinct ps

-- The process that a search finds.
abbrev pub lookup : ℕ → Slots → Option Process
lookup pid [] = none
lookup pid (none ∷ ps) = lookup pid ps
lookup pid (some p ∷ ps) = if p.pid == pid then some p else lookup pid ps

-- The slot found is empty.
pub find_slot-empty : (ps : Slots) (i : ℕ) → find_slot ps ≡ some i → get_elem? ps i ≡ some none
unfolding find_slot
find_slot-empty [] i e = cc
find_slot-empty (none ∷ ps) zero e = refl
find_slot-empty (none ∷ ps) (suc i) e = ground arith
find_slot-empty (some p ∷ ps) zero e = ground arith
find_slot-empty (some p ∷ ps) (suc i) e = find_slot-empty ps i (ground arith)

-- There is one unless all are occupied.
pub find_slot-none : (ps : Slots) → find_slot ps ≡ none → occupied ps ≡ length ps
unfolding find_slot
find_slot-none [] e = refl
find_slot-none (none ∷ ps) e = ground arith
find_slot-none (some p ∷ ps) e = ground (arith, find_slot-none ps)

pub find_pid-Below : (pid n : ℕ) (ps : Slots) → Below n ps → n ≤ pid → find_pid pid ps ≡ none
unfolding find_pid
find_pid-Below pid n [] b h = refl
find_pid-Below pid n (none ∷ ps) b h = ground (arith, find_pid-Below pid n ps b)
find_pid-Below pid n (some p ∷ ps) b h = ground (arith, find_pid-Below pid n ps b.2)

pub Below-mono : (m n : ℕ) (ps : Slots) → m ≤ n → Below m ps → Below n ps
Below-mono m n [] h b = tt
Below-mono m n (none ∷ ps) h b = Below-mono m n ps h b
Below-mono m n (some p ∷ ps) h b = (b.0, omega arith, Below-mono m n ps h b.2)

-- A process put into an empty slot.
module _ (p : Process) where
  pub find_pid-set :
      (q : ℕ) (ps : Slots) (i : ℕ)
      → get_elem? ps i ≡ some none
      → find_pid p.pid ps ≡ none
      → find_pid q (set ps i (some p)) ≡ (if p.pid == q then some i else find_pid q ps)
  unfolding find_pid
  find_pid-set q [] i e f = cc
  find_pid-set q (none ∷ ps) zero e f = refl
  find_pid-set q (none ∷ ps) (suc i) e f = ground (arith, find_pid-set q ps i e)
  find_pid-set q (some r ∷ ps) zero e f = cc
  find_pid-set q (some r ∷ ps) (suc i) e f = ground (arith, find_pid-set q ps i e)

  pub lookup-set :
      (q : ℕ) (ps : Slots) (i : ℕ)
      → get_elem? ps i ≡ some none
      → find_pid p.pid ps ≡ none
      → lookup q (set ps i (some p)) ≡ (if p.pid == q then some p else lookup q ps)
  unfolding find_pid
  lookup-set q [] i e f = cc
  lookup-set q (none ∷ ps) zero e f = refl
  lookup-set q (none ∷ ps) (suc i) e f = ground (arith, lookup-set q ps i e)
  lookup-set q (some r ∷ ps) zero e f = cc
  lookup-set q (some r ∷ ps) (suc i) e f = ground (arith, lookup-set q ps i e)

  pub occupied-set :
      (ps : Slots) (i : ℕ)
      → get_elem? ps i ≡ some none
      → occupied (set ps i (some p)) ≡ suc (occupied ps)
  occupied-set [] i e = cc
  occupied-set (none ∷ ps) zero e = refl
  occupied-set (none ∷ ps) (suc i) e = occupied-set ps i e
  occupied-set (some r ∷ ps) zero e = cc
  occupied-set (some r ∷ ps) (suc i) e = ap suc (occupied-set ps i e)

  pub Below-set :
      (n : ℕ) (ps : Slots) (i : ℕ)
      → 0 < p.pid
      → p.pid < n
      → Below n ps
      → Below n (set ps i (some p))
  Below-set n [] i h k b = tt
  Below-set n (none ∷ ps) zero h k b = (h, k, b)
  Below-set n (none ∷ ps) (suc i) h k b = Below-set n ps i h k b
  Below-set n (some r ∷ ps) zero h k b = (h, k, b.2)
  Below-set n (some r ∷ ps) (suc i) h k b = (b.0, b.1, Below-set n ps i h k b.2)

  pub Distinct-set :
      (ps : Slots) (i : ℕ)
      → get_elem? ps i ≡ some none
      → find_pid p.pid ps ≡ none
      → Distinct ps
      → Distinct (set ps i (some p))
  unfolding find_pid
  Distinct-set [] i e f d = tt
  Distinct-set (none ∷ ps) zero e f d = (ground arith, d)
  Distinct-set (none ∷ ps) (suc i) e f d = Distinct-set ps i e (ground arith) d
  Distinct-set (some r ∷ ps) zero e f d = cc
  Distinct-set (some r ∷ ps) (suc i) e f d =
      (ground (arith, find_pid-set r.pid ps i e), Distinct-set ps i e (ground arith) d.1)

pub lookup-none : (q : ℕ) (ps : Slots) → find_pid q ps ≡ none → lookup q ps ≡ none
unfolding find_pid
lookup-none q [] e = refl
lookup-none q (none ∷ ps) e = ground (arith, lookup-none q ps)
lookup-none q (some r ∷ ps) e = ground (arith, lookup-none q ps)

pub occupied-le : (ps : Slots) → occupied ps ≤ length ps
occupied-le [] = omega arith
occupied-le (none ∷ ps) = omega (arith, occupied-le ps)
occupied-le (some p ∷ ps) = omega (arith, occupied-le ps)

-- A search and a lookup succeed together.
pub lookup-some :
    (pid : ℕ) (ps : Slots) (i : ℕ)
    → find_pid pid ps ≡ some i
    → (p : Process) × (get_elem? ps i ≡ some (some p)) × (lookup pid ps ≡ some p) × (p.pid ≡ pid)
unfolding find_pid
lookup-some pid [] i e = cc
lookup-some pid (none ∷ ps) zero e = ground arith
lookup-some pid (none ∷ ps) (suc i) e = lookup-some pid ps i (ground arith)
lookup-some pid (some r ∷ ps) zero e = (r, refl, ground arith, ground arith)
lookup-some pid (some r ∷ ps) (suc i) e =
    let (p, at, found, same) = lookup-some pid ps i (ground arith) in (p, at, ground arith, same)

same_pid : (a b : ℕ) → ((a == b) ≡ true) → a ≡ b
same_pid a b h = ground arith

-- A process that a slot holds is found by its pid, in that slot.
pub find_pid-held :
    (ps : Slots) (i : ℕ) (p : Process)
    → Distinct ps
    → get_elem? ps i ≡ some (some p)
    → (find_pid p.pid ps ≡ some i) × (lookup p.pid ps ≡ some p)
unfolding find_pid
find_pid-held [] i p d e = cc
find_pid-held (none ∷ ps) zero p d e = cc
find_pid-held (none ∷ ps) (suc i) p d e =
    let rest = find_pid-held ps i p d e in (ap (Option.map suc) rest.0, rest.1)
find_pid-held (some x ∷ ps) zero p d e = ground arith
find_pid-held (some x ∷ ps) (suc i) p (new, d) e =
    let rest = find_pid-held ps i p d e in
    elim (Bool-cases (x.pid == p.pid)) [
      | inl h ↦ absurd (cc (new, rest.0, ap (λ n. find_pid n ps) (same_pid x.pid p.pid h)))
      | inr h ↦ ground (arith, rest)
    ]
