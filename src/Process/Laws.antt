-- ===== src/Process/Laws.antt =====
-- What creating, exiting and killing do to the processes that can be found.
use team_os_3_0_baios.Base.{
  ℕ, ◌+◌, ◌<◌, ◌≡◌, ◌≢◌, List, none, some, Bool, true, ◌==◌, if◌then◌else◌, get_elem?, set, length,
  length-set, arith, Option-cases, inl, inr,
}
use team_os_3_0_baios.Types.{ok, overflow, notfound, max_processes, Prio}
use team_os_3_0_baios.Process.{
  Process, Procs, zombie, find_slot, find_pid, get, create, place, exit, kill, new_process,
}
use team_os_3_0_baios.Process.Table.{
  occupied, lookup, find_slot-empty, find_slot-none, lookup-set, lookup-some, lookup-none,
  occupied-set, occupied-le, find_pid-held,
}
use team_os_3_0_baios.Process.Release.{lookup-clear, lookup-zombie, occupied-clear}
use team_os_3_0_baios.Process.Valid.{IsValid, fresh, get_find}

-- With a free slot and memory, `baios_proc_create` gives the next pid, and from then on that pid
-- finds the new process, ready and with the first 63 bytes of the name, and every other pid finds
-- what it found before.
pub create-lookup :
    {s : Procs} (name : List ℕ) (prio : Prio) (q : ℕ)
    → IsValid s
    → occupied s.procs < max_processes
    → let (st, out, s') = create s (some name) prio true true in
      (st ≡ ok)
      × (out ≡ some s.next_pid)
      × (lookup q s'.procs
          ≡ (if s.next_pid == q then some (new_process s name prio) else lookup q s.procs))
      × (s'.count ≡ s.count + 1)
unfolding create place
create-lookup {s} name prio q v room = elim (Option-cases (find_slot s.procs)) [
  | inl e ↦ absurd (omega (arith, find_slot-none s.procs e, v.sized))
  | inr (slot, e) ↦ ground (
    arith,
    lookup-set (new_process s name prio) q s.procs slot (find_slot-empty s.procs slot e) (fresh v),
  )
]

-- With all 256 slots taken it returns `overflow`, gives no pid and changes nothing.
pub create_full :
    {s : Procs} (name : List ℕ) (prio : Prio) (allocated : Bool)
    → IsValid s
    → occupied s.procs ≡ max_processes
    → create s (some name) prio true allocated ≡ (overflow, none, s)
unfolding create
create_full {s} name prio allocated v full = elim (Option-cases (find_slot s.procs)) [
  | inl e ↦ ground arith
  | inr (slot, e) ↦
      let p = new_process s name prio in
      absurd (
        omega (
          arith,
          occupied-set p s.procs slot (find_slot-empty s.procs slot e),
          occupied-le (set s.procs slot (some p)),
          length-set s.procs slot (some p),
          v.sized,
        ))
]

slot_of :
    {s : Procs} {pid : ℕ} {p : Process}
    → IsValid s
    → 0 < pid
    → lookup pid s.procs ≡ some p
    → (i : ℕ) × (get s pid ≡ some i)
unfolding get
slot_of {s} {pid} v pos e = elim (Option-cases (find_pid pid s.procs)) [
  | inl h ↦ absurd (cc (lookup-none pid s.procs h))
  | inr (i, h) ↦ (i, ground arith)
]

-- In a valid table, baios_proc_kill of a pid that is found and not 0 makes that pid find nothing,
-- leaves what every other pid finds, and takes one off the count.
pub kill-lookup :
    {s : Procs} (pid q : ℕ) {p : Process}
    → IsValid s
    → 0 < pid
    → lookup pid s.procs ≡ some p
    → let (st, s') = kill s pid in
      (st ≡ ok)
      × (lookup q s'.procs ≡ (if pid == q then none else lookup q s.procs))
      × (s'.count + 1 ≡ s.count)
      × (s'.current ≢ get s pid)
unfolding kill
kill-lookup {s} pid q v pos e =
    let (i, at) = slot_of v pos e in
    ground (
      arith,
      lookup-clear pid q s.procs i (get_find s pid i at),
      occupied-clear pid s.procs i (get_find s pid i at),
      occupied-le s.procs,
    )

-- In a valid table, baios_proc_exit of a pid that is found and not 0 makes that process a zombie
-- that still counts, and leaves what every other pid finds.
pub exit-lookup :
    {s : Procs} (pid q : ℕ) {p : Process}
    → IsValid s
    → 0 < pid
    → lookup pid s.procs ≡ some p
    → let (st, s') = exit s pid in
      (st ≡ ok)
      × (lookup q s'.procs
          ≡ (if pid == q then some (record p { state = zombie }) else lookup q s.procs))
      × (s'.count ≡ s.count)
      × (s'.current ≢ get s pid)
unfolding exit
exit-lookup {s} pid q v pos e =
    let (i, at) = slot_of v pos e in
    ground (arith, lookup-zombie pid q s.procs i (get_find s pid i at), same_pid pid q)
  where
    same_pid : (a b : ℕ) → ((a == b) ≡ true) → a ≡ b
    same_pid a b h = ground arith

-- When the process of the current slot exits, no process is current.
pub exit-current :
    {s : Procs} (q i : ℕ) {p : Process}
    → IsValid s
    → s.current ≡ some i
    → get_elem? s.procs i ≡ some (some p)
    → 0 < p.pid
    → let (st, s') = exit s p.pid in
      (st ≡ ok)
      × (lookup q s'.procs
          ≡ (if p.pid == q then some (record p { state = zombie }) else lookup q s.procs))
      × (s'.current ≡ none)
unfolding exit get
exit-current {s} q i {p} v cur held pos =
    let found = find_pid-held s.procs i p v.distinct held in
    ground (arith, exit-lookup p.pid q v pos found.1, found.0)

-- A pid that finds nothing is refused by both, and nothing changes.
pub missing :
    {s : Procs} (pid : ℕ)
    → lookup pid s.procs ≡ none
    → (exit s pid ≡ (notfound, s)) × (kill s pid ≡ (notfound, s))
unfolding exit kill
missing {s} pid e = elim (Option-cases (get s pid)) [
  | inl h ↦ ground arith
  | inr (i, h) ↦ let (p, _, found, _) = lookup-some pid s.procs i (get_find s pid i h) in cc found
]

-- In a started table with a free slot, and once the pid counter has come round to 0, the next
-- process gets the pid 0, by which it can be neither found nor killed.
pub create-pid_zero :
    (s : Procs) (name : List ℕ) (prio : Prio)
    → s.is_ready ≡ true
    → occupied s.procs < length s.procs
    → s.next_pid ≡ 0
    → let (st, out, s') = create s (some name) prio true true in
      (st ≡ ok) × (out ≡ some 0) × (get s' 0 ≡ none) × (kill s' 0 ≡ (notfound, s'))
unfolding create place kill get
create-pid_zero s name prio up room zero_pid = elim (Option-cases (find_slot s.procs)) [
  | inl e ↦ absurd (omega (arith, find_slot-none s.procs e))
  | inr (slot, e) ↦ ground arith
]
