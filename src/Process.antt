-- ===== src/Process.antt =====
-- The process manager of BIOS/src/sw/process_manager.c, with the types of BIOS/include/process.h.
-- A `baios_process_t` lives in the slot that points to it, and a pointer to it is that slot's
-- number. Its list link `next`, which the file never uses, is left out.
pub mod Table
pub mod Release
pub mod Valid
pub mod Laws
pub mod History
mod Tests
use team_os_3_0_baios.Base.{
  ℕ, suc, ◌+◌, ◌-◌, ◌%◌, ◌^◌, List, [], ◌∷◌, Option, none, some, Bool, true, false, not, ◌||◌, ◌==◌,
  if◌then◌else◌, get_elem?, set, modify, take, replicate, u32, sub32,
}
use team_os_3_0_baios.Types.{
  Status, ok, inval, overflow, nomem, notfound, state_error, Prio, max_processes,
}
use mathlib.Core.Option

-- `baios_proc_state_t`
pub data ProcState : Type 0 where
  created ready running blocked zombie dead : ProcState

-- `baios_process_t`
pub record Process : Type 0 where
  pub pid : ℕ
  pub ppid : ℕ
  pub name : List ℕ
  pub state : ProcState
  pub priority : Prio
  pub create_time_ns : ℕ
  pub cpu_time_ns : ℕ
  pub thread_count : ℕ
  pub handle_count : ℕ
  pub capabilities : ℕ

-- `g_procs`: one slot is a null pointer or a process.
abbrev pub Slots : Type 0
Slots = List (Option Process)

-- The file's static state; `current` is the slot that `g_current` points to.
pub record Procs : Type 0 where
  pub procs : Slots
  pub current : Option ℕ
  pub count : ℕ
  pub next_pid : ℕ
  pub is_ready : Bool

-- The state that `baios_proc_init` sets up.
abbrev pub fresh_procs : Procs
fresh_procs = record {
  procs = replicate max_processes none;
  current = none;
  count = 0;
  next_pid = 1;
  is_ready = true;
}

-- `baios_proc_init`
unfoldable pub init : Procs → Status × Procs
init s = if s.is_ready then (state_error, s) else (ok, fresh_procs)

-- `baios_proc_shutdown`
unfoldable pub shutdown : Procs → Procs
shutdown s =
    if s.is_ready
    then record s {
      procs = replicate max_processes none;
      current = none;
      count = 0;
      is_ready = false;
    }
    else s

-- `find_slot`; `none` is the -1.
unfoldable pub find_slot : Slots → Option ℕ
find_slot [] = none
find_slot (none ∷ ps) = some 0
find_slot (some p ∷ ps) = Option.map suc (find_slot ps)

-- The loop of `baios_proc_get`.
unfoldable pub find_pid : ℕ → Slots → Option ℕ
find_pid pid [] = none
find_pid pid (none ∷ ps) = Option.map suc (find_pid pid ps)
find_pid pid (some p ∷ ps) = if p.pid == pid then some 0 else Option.map suc (find_pid pid ps)

-- `baios_proc_get`: the slot of the process, where the source returns a pointer to it.
unfoldable pub get : Procs → ℕ → Option ℕ
get s pid = if not s.is_ready || pid == 0 then none else find_pid pid s.procs

-- `baios_proc_count`
abbrev pub proc_count : Procs → ℕ
proc_count s = s.count

abbrev pub pid_of : Option (Option Process) → ℕ
pid_of none = 0
pid_of (some none) = 0
pid_of (some (some p)) = p.pid

abbrev pub slot_pid : Slots → Option ℕ → ℕ
slot_pid ps none = 0
slot_pid ps (some i) = pid_of (get_elem? ps i)

-- `g_current ? g_current->pid : 0`
abbrev pub current_pid : Procs → ℕ
current_pid s = slot_pid s.procs s.current

-- `if (!g_current) g_current = p`
abbrev or_slot : Option ℕ → ℕ → Option ℕ
or_slot none slot = some slot
or_slot (some i) slot = some i

-- The process that `baios_proc_create` fills in: `strncpy` keeps 63 bytes of the name, and the
-- state is `ready` when the call returns.
abbrev pub new_process : Procs → List ℕ → Prio → Process
new_process s name prio = record {
  pid = s.next_pid;
  ppid = current_pid s;
  name = take 63 name;
  state = ready;
  priority = prio;
  create_time_ns = 0;
  cpu_time_ns = 0;
  thread_count = 1;
  handle_count = 0;
  capabilities = 0;
}

-- `baios_proc_create` once a slot is found; `allocated` says that `calloc` gave memory.
unfoldable pub place : Procs → List ℕ → Prio → Bool → ℕ → Status × Option ℕ × Procs
place s name prio allocated slot = if not allocated then (nomem, none, s) else (
  ok,
  some s.next_pid,
  record s {
    procs = set s.procs slot (some (new_process s name prio));
    current = or_slot s.current slot;
    count = u32 (s.count + 1);
    next_pid = u32 (s.next_pid + 1);
  },
)

-- `baios_proc_create`. A null `name` is `none`, `given` says that `out_pid` is not null; the option
-- in the result is what goes through it.
unfoldable pub create : Procs → Option (List ℕ) → Prio → Bool → Bool → Status × Option ℕ × Procs
unfolding place
create s none prio given allocated = (inval, none, s)
create s (some name) prio given allocated =
    if not s.is_ready || not given then (inval, none, s) else elim (find_slot s.procs) [
      | none ↦ (overflow, none, s)
      | some slot ↦ place s name prio allocated slot
    ]

-- `if (g_current == p) g_current = NULL`
abbrev pub unless_slot : Option ℕ → ℕ → Option ℕ
unless_slot none slot = none
unless_slot (some i) slot = if i == slot then none else some i

abbrev pub make_zombie : Option Process → Option Process
make_zombie none = none
make_zombie (some p) = some (record p { state = zombie })

-- `baios_proc_exit`. The exit code is not used.
unfoldable pub exit : Procs → ℕ → Status × Procs
exit s pid = elim (get s pid) [
  | none ↦ (notfound, s)
  | some slot ↦ (
    ok,
    record s { procs = modify s.procs slot make_zombie; current = unless_slot s.current slot },
  )
]

-- `baios_proc_kill`. The slot that holds the pointer is the one that it was found in.
unfoldable pub kill : Procs → ℕ → Status × Procs
kill s pid = elim (get s pid) [
  | none ↦ (notfound, s)
  | some slot ↦ (
    ok,
    record s {
      procs = set s.procs slot none;
      current = unless_slot s.current slot;
      count = sub32 s.count 1;
    },
  )
]
