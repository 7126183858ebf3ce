-- ===== src/Process/Valid.antt =====
-- The invariant of the process table of BIOS/src/sw/process_manager.c, and the operations on it.
use team_os_3_0_baios.Base.{
  ℕ, zero, suc, ◌+◌, ◌<◌, ◌^◌, ◌≡◌, refl, List, Option, none, some, Bool, true, false, length,
  length-set, length-modify, length-replicate, arith, Option-cases, inl, inr, replicate, u32, ◌∙◌,
  sym,
}
use team_os_3_0_baios.Types.{max_processes, Prio}
use team_os_3_0_baios.Process.{
  Process, Procs, init, find_slot, find_pid, get, create, place, exit, kill, new_process,
  make_zombie,
}
use team_os_3_0_baios.Process.Table.{
  occupied, Below, Distinct, find_slot-empty, find_pid-Below, Below-mono, occupied-set, Below-set,
  Distinct-set, occupied-le,
}
use team_os_3_0_baios.Process.Release.{
  occupied-clear, Below-clear, Distinct-clear, occupied-zombie, Below-zombie, Distinct-zombie,
}

pub record IsValid (s : Procs) : Type 0 where
  pub is_up : s.is_ready ≡ true
  pub sized : length s.procs ≡ max_processes
  pub counted : s.count ≡ occupied s.procs
  pub below : Below s.next_pid s.procs
  pub distinct : Distinct s.procs
  pub next_pos : 0 < s.next_pid

occupied-replicate : (n : ℕ) → occupied (replicate n none) ≡ 0
occupied-replicate zero = refl
occupied-replicate (suc n) = occupied-replicate n

Below-replicate : (m n : ℕ) → Below m (replicate n none)
Below-replicate m zero = tt
Below-replicate m (suc n) = Below-replicate m n

Distinct-replicate : (n : ℕ) → Distinct (replicate n none)
Distinct-replicate zero = tt
Distinct-replicate (suc n) = Distinct-replicate n

pub init-IsValid : (s : Procs) → s.is_ready ≡ false → IsValid (init s).1
unfolding init
init-IsValid s h =
    rw (h, init)
      record {
        is_up = refl;
        sized = length-replicate {A = Option Process} max_processes none;
        counted = sym (occupied-replicate max_processes);
        below = Below-replicate 1 max_processes;
        distinct = Distinct-replicate max_processes;
        next_pos = omega arith;
      }

-- The next pid is not in use.
pub fresh : {s : Procs} → IsValid s → find_pid s.next_pid s.procs ≡ none
fresh {s} v = find_pid-Below s.next_pid s.next_pid s.procs v.below (omega arith)

pub place-IsValid :
    {s : Procs} (name : List ℕ) (prio : Prio) (allocated : Bool) (slot : ℕ)
    → find_slot s.procs ≡ some slot
    → s.next_pid + 1 < 2 ^ 32
    → IsValid s
    → IsValid (place s name prio allocated slot).2
unfolding place
place-IsValid {s} name prio false slot e small v = v
place-IsValid {s} name prio true slot e small v =
    let p = new_process s name prio in
    let empty = find_slot-empty s.procs slot e in
    record {
      is_up = v.is_up;
      sized = length-set s.procs slot (some p) ∙ v.sized;
      counted =
          omega (arith, occupied-set p s.procs slot empty, occupied-le s.procs, v.counted, v.sized);
      below = rw wrap (
          Below-set p (s.next_pid + 1) s.procs slot v.next_pos (omega arith)
            (Below-mono s.next_pid (s.next_pid + 1) s.procs (omega arith) v.below));
      distinct = Distinct-set p s.procs slot empty (fresh v) v.distinct;
      next_pos = omega arith;
    }
  where
    wrap : u32 (s.next_pid + 1) ≡ s.next_pid + 1
    wrap = omega arith

-- `baios_proc_create` keeps the table valid, whether or not it creates a process, while the pid
-- counter is below its last value.
pub create-IsValid :
    {s : Procs} (name : Option (List ℕ)) (prio : Prio) (given allocated : Bool)
    → s.next_pid + 1 < 2 ^ 32
    → IsValid s
    → IsValid (create s name prio given allocated).2
unfolding create
create-IsValid none prio given allocated small v = v
create-IsValid {s} (some name) prio given allocated small v =
    elim (Option-cases (find_slot s.procs)) [
      | inl e ↦ ground arith
      | inr (slot, e) ↦ ground (arith, place-IsValid name prio allocated slot e small v)
    ]

-- `baios_proc_exit` keeps it.
pub exit-IsValid : {s : Procs} (pid : ℕ) → IsValid s → IsValid (exit s pid).1
unfolding exit
exit-IsValid {s} pid v = elim (Option-cases (get s pid)) [
  | inl e ↦ rw (e, exit) v
  | inr (i, e) ↦
      rw (e, exit)
        record {
          is_up = v.is_up;
          sized = length-modify s.procs i make_zombie ∙ v.sized;
          counted = v.counted ∙ sym (occupied-zombie s.procs i);
          below = Below-zombie s.next_pid s.procs i v.below;
          distinct = Distinct-zombie s.procs i v.distinct;
          next_pos = v.next_pos;
        }
]

pub get_find : (s : Procs) (pid i : ℕ) → get s pid ≡ some i → find_pid pid s.procs ≡ some i
unfolding get
get_find s pid i e = ground arith

-- baios_proc_kill keeps a valid table valid, whatever the pid.
pub kill-IsValid : {s : Procs} (pid : ℕ) → IsValid s → IsValid (kill s pid).1
unfolding kill
kill-IsValid {s} pid v = elim (Option-cases (get s pid)) [
  | inl e ↦ rw (e, kill) v
  | inr (i, e) ↦
      rw (e, kill)
        record {
          is_up = v.is_up;
          sized = length-set s.procs i none ∙ v.sized;
          counted = omega (
            arith,
            occupied-clear pid s.procs i (get_find s pid i e),
            occupied-le s.procs,
            v.counted,
            v.sized,
          );
          below = Below-clear s.next_pid s.procs i v.below;
          distinct = Distinct-clear s.procs i v.distinct;
          next_pos = v.next_pos;
        }
]
