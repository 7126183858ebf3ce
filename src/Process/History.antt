-- ===== src/Process/History.antt =====
-- Histories of the process table: any sequence of creations, exits and kills.
use team_os_3_0_baios.Base.{
  ℕ, ◌+◌, ◌≤◌, ◌<◌, ◌^◌, ◌≡◌, ◌⊎◌, inl, inr, refl, List, [], ◌∷◌, Option, none, some, Bool, true,
  false, arith, length, Option-cases, subst,
}
use team_os_3_0_baios.Types.{Prio}
use team_os_3_0_baios.Process.{Procs, find_slot, create, place, exit, kill}
use team_os_3_0_baios.Process.Valid.{IsValid, create-IsValid, exit-IsValid, kill-IsValid}

-- A call of the process manager, with what it is given.
pub data Call : Type 0 where
  creates : (name : Option (List ℕ)) (prio : Prio) (given allocated : Bool) → Call
  exits kills : (pid : ℕ) → Call

-- The pid that goes out, if one does, and the table after the call.
pub call : Procs → Call → Option ℕ × Procs
call s (creates name prio given allocated) =
    let (st, out, s') = create s name prio given allocated in (out, s')
call s (exits pid) = (none, (exit s pid).1)
call s (kills pid) = (none, (kill s pid).1)

-- All pids that go out, in order, and the table at the end.
abbrev pub with_pid : Option ℕ → List ℕ → List ℕ
with_pid none pids = pids
with_pid (some pid) pids = pid ∷ pids

pub run : Procs → List Call → List ℕ × Procs
unfolding call
run s [] = ([], s)
run s (c ∷ cs) = let (out, s') = call s c in let (pids, s'') = run s' cs in (with_pid out pids, s'')

-- The pids rise strictly, from `lo` on.
abbrev pub Rising : ℕ → List ℕ → Type 0
Rising lo [] = Unit {0}
Rising lo (pid ∷ pids) = (lo ≤ pid) × Rising (pid + 1) pids

-- A call gives no pid and leaves the counter, or gives the counter's and moves it on.
abbrev Moves : Procs → Option ℕ → Procs → Type 0
Moves s out s' =
    ((out ≡ none) × (s'.next_pid ≡ s.next_pid))
    ⊎ ((out ≡ some s.next_pid) × (s'.next_pid ≡ s.next_pid + 1))

place-Moves :
    (s : Procs) (name : List ℕ) (prio : Prio) (allocated : Bool) (slot : ℕ)
    → s.next_pid + 1 < 2 ^ 32
    → let (st, out, s') = place s name prio allocated slot in Moves s out s'
unfolding place
place-Moves s name prio false slot small = inl (refl, refl)
place-Moves s name prio true slot small = inr (refl, omega arith)

create-Moves :
    (s : Procs) (name : Option (List ℕ)) (prio : Prio) (given allocated : Bool)
    → s.next_pid + 1 < 2 ^ 32
    → let (st, out, s') = create s name prio given allocated in Moves s out s'
unfolding create
create-Moves s none prio given allocated small = inl (refl, refl)
create-Moves s (some name) prio given allocated small = elim (Option-cases (find_slot s.procs)) [
  | inl e ↦ ground arith
  | inr (slot, e) ↦ ground (arith, place-Moves s name prio allocated slot small)
]

exit-next_pid : (s : Procs) (pid : ℕ) → (exit s pid).1.next_pid ≡ s.next_pid
unfolding exit
exit-next_pid s pid = ground arith

kill-next_pid : (s : Procs) (pid : ℕ) → (kill s pid).1.next_pid ≡ s.next_pid
unfolding kill
kill-next_pid s pid = ground arith

call-Moves : (s : Procs) (c : Call) → s.next_pid + 1 < 2 ^ 32 → Moves s (call s c).0 (call s c).1
unfolding call
call-Moves s (creates name prio given allocated) small =
    create-Moves s name prio given allocated small
call-Moves s (exits pid) small = inl (refl, exit-next_pid s pid)
call-Moves s (kills pid) small = inl (refl, kill-next_pid s pid)

call-IsValid : (s : Procs) (c : Call) → s.next_pid + 1 < 2 ^ 32 → IsValid s → IsValid (call s c).1
unfolding call
call-IsValid s (creates name prio given allocated) small v =
    create-IsValid name prio given allocated small v
call-IsValid s (exits pid) small v = exit-IsValid pid v
call-IsValid s (kills pid) small v = kill-IsValid pid v

with_pid-Rising :
    (s : Procs) (out : Option ℕ) (s' : Procs) (pids : List ℕ)
    → Moves s out s'
    → Rising s'.next_pid pids
    → Rising s.next_pid (with_pid out pids)
with_pid-Rising s out s' pids (inl (e, f)) r = rw e (subst (λ n. Rising n pids) f r)
with_pid-Rising s out s' pids (inr (e, f)) r = rw e (omega arith, subst (λ n. Rising n pids) f r)

-- From a valid table, and as long as the pid counter does not come to its last value, every
-- sequence of calls leaves a valid table, and the pids that it gives out rise strictly: none is
-- given twice.
pub run-IsValid :
    (cs : List Call) {s : Procs}
    → IsValid s
    → s.next_pid + length cs < 2 ^ 32
    → let (pids, s') = run s cs in IsValid s' × Rising s.next_pid pids
unfolding run
run-IsValid [] v small = (v, tt)
run-IsValid (c ∷ cs) {s} v small =
    let moves = call-Moves s c (omega arith) in
    let rest = run-IsValid cs (call-IsValid s c (omega arith) v) (bounded moves) in
    (rest.0, with_pid-Rising s (call s c).0 (call s c).1 (run (call s c).1 cs).0 moves rest.1)
  where
    bounded : Moves s (call s c).0 (call s c).1 → (call s c).1.next_pid + length cs < 2 ^ 32
    bounded (inl (e, f)) = omega (arith, f)
    bounded (inr (e, f)) = omega (arith, f)
