-- ===== src/Demo/Process.antt =====
-- The processes of BIOS/sw/process_manager.cpp, with stacks from the heap of Demo/Shm.
-- A pointer to a process is its place in the pool. `heap` is the address of the heap, and `clip`
-- what a name becomes in a field whose length no header declares.
mod Tests
pub mod Schedule
pub mod Live
pub mod Built
pub mod Revive
use Prim.Native.String.{String}
use team_os_3_0_baios.Base.{
  ℕ, zero, suc, ◌+◌, ◌*◌, ◌-◌, ◌%◌, ◌^◌, List, [], ◌∷◌, Option, none, some, Bool, true, false, not,
  ◌&&◌, ◌||◌, ◌==◌, if◌then◌else◌, get_or, set, replicate, u32, is_some,
}
use mathlib.Core.Option
use team_os_3_0_baios.Types.{max_processes}
use team_os_3_0_baios.Demo.Error.{Error, ok, invalid_arg, busy, no_memory, not_found}
use team_os_3_0_baios.Demo.Shm.{Shm}
use team_os_3_0_baios.Demo.Shm

-- The process states that the file names; 0 is what `memset` leaves.
pub data ProcState : Type 0 where
  unset ready running terminated zombie : ProcState

-- `baios_process_t`, with the fields that this file uses.
pub record Proc : Type 0 where
  pub pid : ℕ
  pub uid : ℕ
  pub gid : ℕ
  pub name : String
  pub state : ProcState
  pub priority : ℕ
  pub entry_point : ℕ
  pub stack_size : ℕ
  pub stack_base : ℕ
  pub permissions : ℕ
  pub parent : Option ℕ
  pub next : Option ℕ

abbrev pub zero_proc : Proc
zero_proc = record {
  pid = 0;
  uid = 0;
  gid = 0;
  name = "";
  state = unset;
  priority = 0;
  entry_point = 0;
  stack_size = 0;
  stack_base = 0;
  permissions = 0;
  parent = none;
  next = none;
}

-- `baios_sw_state_t` with the pool, the marks of the file, and the heap below.
pub record Sw : Type 0 where
  pub pool : List Proc
  pub used : List Bool
  pub process_list : Option ℕ
  pub current : Option ℕ
  pub next_pid : ℕ
  pub process_count : ℕ
  pub initialized : Bool
  pub shm : Shm

abbrev pub proc_at : Sw → ℕ → Proc
proc_at s i = get_or s.pool i zero_proc

abbrev pub put_proc : Sw → ℕ → Proc → Sw
put_proc s i p = record s { pool = set s.pool i p }

abbrev pub set_state : Sw → ℕ → ProcState → Sw
set_state s i st = put_proc s i (record (proc_at s i) { state = st })

-- The first place that is not in use.
abbrev pub find_free : List Bool → Option ℕ
find_free [] = none
find_free (u ∷ us) = let rest = Option.map suc (find_free us) in if u then rest else some 0

-- The search of `sw_process_get`.
abbrev pub find_pid : List Bool → List Proc → ℕ → Option ℕ
find_pid [] ps pid = none
find_pid (u ∷ us) [] pid = none
find_pid (u ∷ us) (p ∷ ps) pid =
    let rest = Option.map suc (find_pid us ps pid) in if u && (p.pid == pid) then some 0 else rest

-- `sw_process_get`
abbrev pub get : Sw → ℕ → Option ℕ
get s pid = find_pid s.used s.pool pid

-- `sw_process_current`
abbrev pub get_current : Sw → Option ℕ
get_current s = s.current

-- `BAIOS_PERM_DEFAULT_USER`: to read and to write files, and the network.
abbrev pub default_user : ℕ
default_user = 2 ^ 0 + 2 ^ 1 + 2 ^ 3

-- `BAIOS_PERM_DEFAULT_SYSTEM`: `BAIOS_CAP_ROOT`.
abbrev pub default_system : ℕ
default_system = 2 ^ 31

-- `BAIOS_PRIO_IDLE`
abbrev pub prio_idle : ℕ
prio_idle = 0

-- `BAIOS_PRIO_NORMAL`
abbrev pub prio_normal : ℕ
prio_normal = 2

module _ (heap : ℕ) (clip : String → String) where
  -- The process that `sw_process_create` writes to its place, before it is put in the list.
  abbrev pub new_proc : Sw → String → ℕ → ℕ → ℕ → Proc
  new_proc s name entry prio stack = record {
    pid = s.next_pid;
    uid = 1000;
    gid = 1000;
    name = clip name;
    state = ready;
    priority = prio;
    entry_point = entry;
    stack_size = 64 * 1024;
    stack_base = stack;
    permissions = default_user;
    parent = s.current;
    next = none;
  }

  -- `sw_process_create` with its place and its stack, if there is one.
  abbrev pub place : Sw → ℕ → String → ℕ → ℕ → Option ℕ × Shm → Error × Option ℕ × Sw
  place s slot name entry prio (none, shm) = (
    no_memory,
    none,
    record (put_proc s slot (new_proc s name entry prio 0)) {
      next_pid = u32 (s.next_pid + 1);
      shm = shm;
    },
  )
  place s slot name entry prio (some offset, shm) = (
    ok,
    some s.next_pid,
    record s {
      pool =
          set s.pool slot
            (record (new_proc s name entry prio (heap + offset)) { next = s.process_list });
      used = set s.used slot true;
      process_list = some slot;
      next_pid = u32 (s.next_pid + 1);
      process_count = u32 (s.process_count + 1);
      shm = shm;
    },
  )

  abbrev pub create_at : Sw → Option ℕ → String → ℕ → ℕ → Error × Option ℕ × Sw
  create_at s none name entry prio = (no_memory, none, s)
  create_at s (some slot) name entry prio =
      place s slot name entry prio (Shm.kmalloc s.shm (64 * 1024))

  -- `sw_process_create`, with a place for the pid: the status and the pid.
  unfoldable pub create : Sw → Option String → ℕ → ℕ → Error × Option ℕ × Sw
  create s none entry prio = (invalid_arg, none, s)
  create s (some name) entry prio = create_at s (find_free s.used) name entry prio

  abbrev pub pid_or : Option ℕ → ℕ → ℕ
  pid_or none garbage = garbage
  pid_or (some pid) garbage = pid

  abbrev pub promote : Sw → Option ℕ → Sw
  promote s none = record s { current = none }
  promote s (some i) =
      record (put_proc s i
        (record (proc_at s i) { permissions = default_system; uid = 0; gid = 0 })) {
          current = some i;
        }

  -- `sw_kernel_init`. The pid of the init process is not set when it cannot be created: `garbage`
  -- is what its place on the stack holds.
  unfoldable pub kernel_init : Sw → (garbage : ℕ) → Error × Sw
  unfolding create
  kernel_init s garbage =
      let s0 : Sw = record {
        pool = s.pool;
        used = replicate max_processes false;
        process_list = none;
        current = none;
        next_pid = 1;
        process_count = 0;
        initialized = true;
        shm = s.shm;
      } in
      let (st, idle_pid, s1) = create s0 (some "idle") 0 prio_idle in
      let (st', init_pid, s2) = create s1 (some "init") 0 prio_normal in
      (ok, promote s2 (get s2 (pid_or init_pid garbage)))

abbrev pub kill_at : Sw → Option ℕ → Error × Sw
kill_at s none = (not_found, s)
kill_at s (some i) = (ok, set_state s i terminated)

-- `sw_process_kill`; the signal is not used.
unfoldable pub kill : Sw → (pid signal : ℕ) → Error × Sw
kill s pid signal = kill_at s (get s pid)

-- `sw_process_wait` on the state of the process: the status it gives, and what goes to `*out_status`.
abbrev pub wait_on : ProcState → Error × Option ℕ
wait_on terminated = (ok, some 0)
wait_on zombie = (ok, some 0)
wait_on unset = (busy, none)
wait_on ready = (busy, none)
wait_on running = (busy, none)

abbrev pub wait_at : Sw → Option ℕ → Error × Option ℕ
wait_at s none = (not_found, none)
wait_at s (some i) = wait_on (proc_at s i).state

-- `sw_process_wait`
abbrev pub wait : Sw → ℕ → Error × Option ℕ
wait s pid = wait_at s (get s pid)

-- `sw_kernel_shutdown`
unfoldable pub shutdown : Sw → Sw
shutdown s = if s.initialized then record s { initialized = false } else s
