-- ===== src/SwKernel.antt =====
-- The software microkernel of BIOS/src/sw/sw_kernel.cpp: start and stop, messages of the hardware
-- microkernel, and the system calls of the applications.
pub mod Lifecycle
pub mod Codec
pub mod Syscalls
mod Tests
use team_os_3_0_baios.Base.{
  ℕ, zero, suc, ◌+◌, ◌*◌, ◌/◌, ◌%◌, ◌^◌, ◌-◌, List, [], ◌∷◌, ◌++◌, Option, none, some, Bool, true,
  false, not, ◌||◌, ◌==◌, if◌then◌else◌, u64, replicate,
}
use team_os_3_0_baios.Types.{
  Status, ok, inval, state_error, nosys, Prio, normal, kernel, ipc_max_msg_size,
}
use team_os_3_0_baios.Ring.{Msg, zero_msg, msg_syscall}
use team_os_3_0_baios.Ipc
use team_os_3_0_baios.Ipc.{Ipc, Poll, Received, returned, waiting, fault}
use team_os_3_0_baios.Process
use team_os_3_0_baios.Process.{Procs, current_pid, proc_count}

-- The numbers of the system calls.
abbrev pub sys_nop : ℕ
sys_nop = 0

abbrev pub sys_write : ℕ
sys_write = 1

abbrev pub sys_read : ℕ
sys_read = 2

abbrev pub sys_open : ℕ
sys_open = 3

abbrev pub sys_close : ℕ
sys_close = 4

abbrev pub sys_spawn : ℕ
sys_spawn = 5

abbrev pub sys_exit : ℕ
sys_exit = 6

abbrev pub sys_getpid : ℕ
sys_getpid = 7

abbrev pub sys_ipc_send : ℕ
sys_ipc_send = 8

abbrev pub sys_mmap : ℕ
sys_mmap = 10

-- `baios_sw_stats_t`
pub record SwStats : Type 0 where
  pub initialized : Bool
  pub process_count : ℕ
  pub thread_count : ℕ
  pub syscall_count : ℕ
  pub ipc_rx : ℕ
  pub ipc_tx : ℕ

abbrev pub zero_stats : SwStats
zero_stats = record {
  initialized = false;
  process_count = 0;
  thread_count = 0;
  syscall_count = 0;
  ipc_rx = 0;
  ipc_tx = 0;
}

-- The kernel's static state with the process table.
pub record Software : Type 0 where
  pub stats : SwStats
  pub running : Bool
  pub procs : Procs

-- "init"
abbrev pub init_name : List ℕ
init_name = 105 ∷ 110 ∷ 105 ∷ 116 ∷ []

-- The last part of `baios_sw_init`, by the result of creating the first process.
abbrev pub with_first : Software → Status × Option ℕ × Procs → Status × Software
with_first s (ok, pid, procs) = (
  ok,
  record s {
    procs = procs;
    stats = record s.stats { initialized = true; process_count = proc_count procs };
  },
)
with_first s (st, pid, procs) = (st, record s { procs = Process.shutdown procs })

-- The same after `baios_proc_init`.
abbrev pub with_procs : Software → Bool → Status × Procs → Status × Software
with_procs s allocated (ok, procs) =
    with_first s (Process.create procs (some init_name) kernel true allocated)
with_procs s allocated (st, procs) = (st, record s { procs = procs })

-- `baios_sw_init`
unfoldable pub init : Software → Bool → Status × Software
init s allocated =
    if s.stats.initialized
    then (state_error, s)
    else with_procs (record s { stats = zero_stats }) allocated (Process.init s.procs)

-- `baios_sw_shutdown`
unfoldable pub shutdown : Software → Software
shutdown s =
    if s.stats.initialized
    then record {
      stats = record s.stats { initialized = false };
      running = false;
      procs = Process.shutdown s.procs;
    }
    else s

-- `baios_sw_handle_ipc`; `none` is a null pointer. Every type of message is only logged.
unfoldable pub handle_ipc : Software → Option Msg → Status × Software
handle_ipc s none = (inval, s)
handle_ipc s (some m) =
    if not s.stats.initialized
    then (inval, s)
    else (ok, record s { stats = record s.stats { ipc_rx = u64 (s.stats.ipc_rx + 1) } })

-- The bytes of an unsigned integer, lowest first.
unfoldable pub le_bytes : ℕ → ℕ → List ℕ
le_bytes zero x = []
le_bytes (suc n) x = x % 256 ∷ le_bytes n (x / 256)

-- A system call: its number, and `arg0` to `arg3`.
pub record Request : Type 0 where
  pub nr : ℕ
  pub arg0 : ℕ
  pub arg1 : ℕ
  pub arg2 : ℕ
  pub arg3 : ℕ

-- What is packed: the number in 4 bytes, each argument in 8, and the zeros behind.
unfoldable pub pack : Request → List ℕ
unfolding le_bytes
pack r =
    le_bytes 4 r.nr
    ++ (le_bytes 8 r.arg0
        ++ (le_bytes 8 r.arg1
            ++ (le_bytes 8 r.arg2 ++ (le_bytes 8 r.arg3 ++ replicate (ipc_max_msg_size - 36) 0))))

-- The message that carries a system call: `data_len` is `sizeof(u32) * 2 + sizeof(u64) * 4`.
abbrev pub syscall_msg : Software → Request → Msg
syscall_msg s r = record zero_msg {
  type = msg_syscall;
  src_id = current_pid s.procs;
  data_len = 40;
  payload = pack r;
}

-- What a system call gives: its status, what goes through `ret`, and the states after.
pub record Outcome : Type 0 where
  pub status : Status
  pub ret : Option ℕ
  pub software : Software
  pub ipc : Ipc

-- `*ret`, unless `ret` is null.
abbrev pub out : Bool → ℕ → Option ℕ
out given x = if given then some x else none

abbrev pub outcome : Status → Option ℕ → Software → Ipc → Outcome
outcome st r s ipc = record { status = st; ret = r; software = s; ipc = ipc }

-- `SYS_SPAWN` with the result of `baios_proc_create`.
abbrev pub spawned : Software → Ipc → Bool → Status × Option ℕ × Procs → Outcome
spawned s ipc given (ok, some pid, procs) =
    outcome ok (out given pid)
      (record s { procs = procs; stats = record s.stats { process_count = proc_count procs } }) ipc
spawned s ipc given (st, pid, procs) =
    outcome st (out given 0)
      (record s { procs = procs; stats = record s.stats { process_count = proc_count procs } }) ipc

-- `SYS_EXIT`
abbrev pub exited : Software → Ipc → Bool → Option ℕ → Outcome
exited s ipc given none = outcome state_error (out given 0) s ipc
exited s ipc given (some slot) =
    let (st, procs) = Process.exit s.procs (current_pid s.procs) in
    outcome st (out given 0) (record s { procs = procs }) ipc

abbrev pub count_tx : Status → Software → Software
count_tx ok s = record s { stats = record s.stats { ipc_tx = u64 (s.stats.ipc_tx + 1) } }
count_tx _ s = s

-- The calls that are passed on to the hardware microkernel.
unfoldable pub forward : Software → Ipc → Request → Bool → ℕ → Outcome
forward s ipc r given now =
    let (st, ipc') = Ipc.send_to_hw ipc (some (syscall_msg s r)) now in
    outcome st (out given 0) (count_tx st s) ipc'

abbrev pub is_forwarded : ℕ → Bool
is_forwarded nr =
    nr == sys_ipc_send
    || nr == sys_write
    || nr == sys_read
    || nr == sys_open
    || nr == sys_close
    || nr == sys_mmap

-- The switch of `baios_syscall`. `name_at` reads the text at an address of the caller's memory, and
-- `allocated` says that `calloc` gives memory.
unfoldable pub dispatch :
    (name_at : ℕ → List ℕ) → Software → Ipc → Request → (given allocated : Bool) → ℕ → Outcome
unfolding forward
dispatch name_at s ipc r given allocated now =
    if r.nr == sys_nop
    then outcome ok (out given 0) s ipc
    else if r.nr == sys_getpid
    then outcome ok (out given (current_pid s.procs)) s ipc
    else if r.nr == sys_spawn
    then (if r.arg0 == 0
        then outcome inval (out given 0) s ipc
        else spawned s ipc given
            (Process.create s.procs (some (name_at r.arg0)) normal true allocated))
    else if r.nr == sys_exit
    then exited s ipc given s.procs.current
    else if is_forwarded r.nr
    then forward s ipc r given now
    else outcome nosys (out given 0) s ipc

abbrev pub count_syscall : Software → Software
count_syscall s = record s {
  stats = record s.stats { syscall_count = u64 (s.stats.syscall_count + 1) };
}

-- `baios_syscall`; `given` says that `ret` is not null.
unfoldable pub syscall :
    (name_at : ℕ → List ℕ) → Software → Ipc → Request → (given allocated : Bool) → ℕ → Outcome
unfolding dispatch
syscall name_at s ipc r given allocated now =
    if not s.stats.initialized
    then outcome state_error none s ipc
    else dispatch name_at (count_syscall s) ipc r given allocated now

-- `baios_sw_get_stats` refreshes the count of processes.
abbrev pub get_stats : Software → SwStats × Software
get_stats s =
    let st : SwStats = record s.stats { process_count = proc_count s.procs } in
    (st, record s { stats = st })

abbrev pub handle_received : Software → Ipc → Received → Software × Ipc
handle_received s ipc (returned ok out ipc') = let (st, s') = handle_ipc s out in (s', ipc')
handle_received s ipc (returned st out ipc') = (s, ipc')
handle_received s ipc (waiting ipc') = (s, ipc')
handle_received s ipc fault = (s, ipc)

-- One round of `baios_sw_main_loop`: a poll of 50 ms, then the message, if there was one.
unfoldable pub main_round : Software → Ipc → ℕ → List Poll → Software × Ipc
main_round s ipc start polls = handle_received s ipc (Ipc.recv_from_hw ipc true 50 start polls)
