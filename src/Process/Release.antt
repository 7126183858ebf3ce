-- ===== src/Process/Release.antt =====
-- The table when a slot is emptied, or its process becomes a zombie.
use team_os_3_0_baios.Base.{
  ℕ, zero, suc, ◌≡◌, refl, [], ◌∷◌, none, some, ◌==◌, if◌then◌else◌, set, modify, arith, ap, ◌∙◌,
}
use mathlib.Core.Option
use team_os_3_0_baios.Process.{Slots, find_pid, make_zombie}
use team_os_3_0_baios.Process.Table.{occupied, Below, Distinct, lookup, lookup-none}

-- A slot that is emptied, where the search for `pid` ends.
module _ (pid : ℕ) where
  pub find_pid-clear :
      (q : ℕ) (ps : Slots) (i : ℕ)
      → find_pid pid ps ≡ some i
      → Distinct ps
      → find_pid q (set ps i none) ≡ (if pid == q then none else find_pid q ps)
  unfolding find_pid
  find_pid-clear q [] i e d = cc
  find_pid-clear q (none ∷ ps) zero e d = ground arith
  find_pid-clear q (none ∷ ps) (suc i) e d = ground (arith, find_pid-clear q ps i)
  find_pid-clear q (some r ∷ ps) zero e d = ground arith
  find_pid-clear q (some r ∷ ps) (suc i) e d = ground (arith, find_pid-clear q ps i)

  pub lookup-clear :
      (q : ℕ) (ps : Slots) (i : ℕ)
      → find_pid pid ps ≡ some i
      → Distinct ps
      → lookup q (set ps i none) ≡ (if pid == q then none else lookup q ps)
  unfolding find_pid
  lookup-clear q [] i e d = cc
  lookup-clear q (none ∷ ps) zero e d = ground arith
  lookup-clear q (none ∷ ps) (suc i) e d = ground (arith, lookup-clear q ps i)
  lookup-clear q (some r ∷ ps) zero e d = ground (arith, lookup-none q ps)
  lookup-clear q (some r ∷ ps) (suc i) e d = ground (arith, lookup-clear q ps i)

  pub occupied-clear :
      (ps : Slots) (i : ℕ) → find_pid pid ps ≡ some i → suc (occupied (set ps i none)) ≡ occupied ps
  unfolding find_pid
  occupied-clear [] i e = cc
  occupied-clear (none ∷ ps) zero e = ground arith
  occupied-clear (none ∷ ps) (suc i) e = ground (arith, occupied-clear ps i)
  occupied-clear (some r ∷ ps) zero e = refl
  occupied-clear (some r ∷ ps) (suc i) e = ground (arith, occupied-clear ps i)

-- Emptying a slot keeps what holds of all slots.
pub Below-clear : (n : ℕ) (ps : Slots) (i : ℕ) → Below n ps → Below n (set ps i none)
Below-clear n [] i b = tt
Below-clear n (none ∷ ps) zero b = b
Below-clear n (none ∷ ps) (suc i) b = Below-clear n ps i b
Below-clear n (some r ∷ ps) zero b = b.2
Below-clear n (some r ∷ ps) (suc i) b = (b.0, b.1, Below-clear n ps i b.2)

find_pid-clear_none :
    (q : ℕ) (ps : Slots) (i : ℕ) → find_pid q ps ≡ none → find_pid q (set ps i none) ≡ none
unfolding find_pid
find_pid-clear_none q [] i e = refl
find_pid-clear_none q (none ∷ ps) zero e = e
find_pid-clear_none q (none ∷ ps) (suc i) e = ground (arith, find_pid-clear_none q ps i)
find_pid-clear_none q (some r ∷ ps) zero e = ground arith
find_pid-clear_none q (some r ∷ ps) (suc i) e = ground (arith, find_pid-clear_none q ps i)

pub Distinct-clear : (ps : Slots) (i : ℕ) → Distinct ps → Distinct (set ps i none)
Distinct-clear [] i d = tt
Distinct-clear (none ∷ ps) zero d = d
Distinct-clear (none ∷ ps) (suc i) d = Distinct-clear ps i d
Distinct-clear (some r ∷ ps) zero d = d.1
Distinct-clear (some r ∷ ps) (suc i) d =
    (find_pid-clear_none r.pid ps i d.0, Distinct-clear ps i d.1)

-- Making a zombie keeps the pids.
pub find_pid-zombie :
    (q : ℕ) (ps : Slots) (i : ℕ) → find_pid q (modify ps i make_zombie) ≡ find_pid q ps
unfolding find_pid
find_pid-zombie q [] i = refl
find_pid-zombie q (none ∷ ps) zero = refl
find_pid-zombie q (none ∷ ps) (suc i) = ap (Option.map suc) (find_pid-zombie q ps i)
find_pid-zombie q (some r ∷ ps) zero = refl
find_pid-zombie q (some r ∷ ps) (suc i) = ground (arith, find_pid-zombie q ps i)

pub lookup-zombie :
    (pid q : ℕ) (ps : Slots) (i : ℕ)
    → find_pid pid ps ≡ some i
    → lookup q (modify ps i make_zombie)
      ≡ (if pid == q then make_zombie (lookup q ps) else lookup q ps)
unfolding find_pid
lookup-zombie pid q [] i e = cc
lookup-zombie pid q (none ∷ ps) zero e = ground arith
lookup-zombie pid q (none ∷ ps) (suc i) e = ground (arith, lookup-zombie pid q ps i)
lookup-zombie pid q (some r ∷ ps) zero e = ground arith
lookup-zombie pid q (some r ∷ ps) (suc i) e = ground (arith, lookup-zombie pid q ps i)

pub occupied-zombie : (ps : Slots) (i : ℕ) → occupied (modify ps i make_zombie) ≡ occupied ps
occupied-zombie [] i = refl
occupied-zombie (none ∷ ps) zero = refl
occupied-zombie (none ∷ ps) (suc i) = occupied-zombie ps i
occupied-zombie (some r ∷ ps) zero = refl
occupied-zombie (some r ∷ ps) (suc i) = ap suc (occupied-zombie ps i)

pub Below-zombie : (n : ℕ) (ps : Slots) (i : ℕ) → Below n ps → Below n (modify ps i make_zombie)
Below-zombie n [] i b = tt
Below-zombie n (none ∷ ps) zero b = b
Below-zombie n (none ∷ ps) (suc i) b = Below-zombie n ps i b
Below-zombie n (some r ∷ ps) zero b = b
Below-zombie n (some r ∷ ps) (suc i) b = (b.0, b.1, Below-zombie n ps i b.2)

pub Distinct-zombie : (ps : Slots) (i : ℕ) → Distinct ps → Distinct (modify ps i make_zombie)
Distinct-zombie [] i d = tt
Distinct-zombie (none ∷ ps) zero d = d
Distinct-zombie (none ∷ ps) (suc i) d = Distinct-zombie ps i d
Distinct-zombie (some r ∷ ps) zero d = d
Distinct-zombie (some r ∷ ps) (suc i) d =
    (find_pid-zombie r.pid ps i ∙ d.0, Distinct-zombie ps i d.1)
