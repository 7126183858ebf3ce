-- ===== src/HwKernel.antt =====
-- The hardware microkernel of BIOS/src/hw/hw_kernel.c: its start and stop over the allocator, the
-- interrupts and the drivers, and what it does with a message of the software microkernel.
pub mod Lifecycle
use team_os_3_0_baios.Base.{
  ℕ, ◌+◌, ◌*◌, ◌%◌, ◌^◌, List, [], Option, none, some, Bool, true, false, not, ◌||◌, ◌==◌,
  if◌then◌else◌, u64,
}
use team_os_3_0_baios.Types.{Status, ok, inval, state_error}
use team_os_3_0_baios.Ring.{
  Msg, zero_msg, msg_syscall, msg_driver, msg_power, msg_reply, flag_reply,
}
use team_os_3_0_baios.Ipc
use team_os_3_0_baios.Ipc.{Ipc, Poll, Received, returned, waiting, fault}
use team_os_3_0_baios.Memory
use team_os_3_0_baios.Memory.{Memory}
use team_os_3_0_baios.Irq
use team_os_3_0_baios.Irq.{Irqs}
use team_os_3_0_baios.Driver
use team_os_3_0_baios.Driver.{Drivers, Callback}

-- `baios_hw_stats_t`
pub record HwStats : Type 0 where
  pub initialized : Bool
  pub uptime_ns : ℕ
  pub irq_total : ℕ
  pub syscall_fwd : ℕ

abbrev pub zero_stats : HwStats
zero_stats = record { initialized = false; uptime_ns = 0; irq_total = 0; syscall_fwd = 0 }

-- The kernel's static state with that of the three parts that it starts.
pub record Hardware : Type 0 where
  pub stats : HwStats
  pub running : Bool
  pub memory : Memory
  pub irqs : Irqs
  pub drivers : Drivers

-- The last part of `baios_hw_init`, by the result of `baios_driver_init`.
abbrev pub with_drivers : Hardware → Status × Drivers → Status × Hardware
with_drivers h (ok, drivers) =
    (ok, record h { drivers = drivers; stats = record h.stats { initialized = true } })
with_drivers h (st, drivers) = (
  st,
  record h { drivers = drivers; irqs = Irq.shutdown h.irqs; memory = Memory.shutdown h.memory },
)

-- The same after `baios_irq_init`.
abbrev pub with_irqs : Hardware → Status × Irqs → Status × Hardware
with_irqs h (ok, irqs) = with_drivers (record h { irqs = irqs }) (Driver.init h.drivers)
with_irqs h (st, irqs) = (st, record h { irqs = irqs; memory = Memory.shutdown h.memory })

-- The same after `baios_mm_init`.
abbrev pub with_memory : Hardware → Status × Memory → Status × Hardware
with_memory h (ok, memory) = with_irqs (record h { memory = memory }) (Irq.init h.irqs)
with_memory h (st, memory) = (st, record h { memory = memory })

-- `baios_hw_init`, with 64 MiB from 1 MiB on; `allocated` says that the allocator's `calloc` gives
-- memory.
unfoldable pub init : Hardware → Bool → Status × Hardware
init h allocated =
    if h.stats.initialized
    then (state_error, h)
    else with_memory (record h { stats = zero_stats })
        (Memory.init h.memory 0x100000 (64 * 1024 * 1024) allocated)

-- `baios_hw_shutdown`, with the driver callbacks that it makes.
unfoldable pub shutdown : Hardware → List Callback × Hardware
shutdown h =
    if h.stats.initialized
    then (
      (Driver.shutdown h.drivers).0,
      record {
        stats = record h.stats { initialized = false };
        running = false;
        memory = Memory.shutdown h.memory;
        irqs = Irq.shutdown h.irqs;
        drivers = (Driver.shutdown h.drivers).1;
      },
    )
    else ([], h)

-- The reply to a system call. Its data hold the four bytes of `BAIOS_OK`, which are 0.
abbrev pub reply_to : Msg → Msg
reply_to m = record zero_msg {
  type = msg_reply;
  flags = flag_reply;
  src_id = 0;
  dst_id = m.src_id;
  data_len = 4;
}

abbrev pub count_fwd : Hardware → Hardware
count_fwd h = record h { stats = record h.stats { syscall_fwd = u64 (h.stats.syscall_fwd + 1) } }

-- `baios_hw_handle_ipc`; `none` is a null pointer. The status of the reply's send is not used.
unfoldable pub handle_ipc : Hardware → Ipc → Option Msg → ℕ → Status × Hardware × Ipc
handle_ipc h ipc none now = (inval, h, ipc)
handle_ipc h ipc (some m) now =
    if not h.stats.initialized
    then (inval, h, ipc)
    else if m.type == msg_syscall
    then (ok, count_fwd h, (Ipc.send_to_sw ipc (some (reply_to m)) now).1)
    else if m.type == msg_driver || m.type == msg_power
    then (ok, h, ipc)
    else (inval, h, ipc)

abbrev pub handle_received : Hardware → Ipc → Received → ℕ → Hardware × Ipc
handle_received h ipc (returned ok out ipc') now =
    let (st, h', ipc'') = handle_ipc h ipc' out now in (h', ipc'')
handle_received h ipc (returned st out ipc') now = (h, ipc')
handle_received h ipc (waiting ipc') now = (h, ipc')
handle_received h ipc fault now = (h, ipc)

-- One round of `baios_hw_main_loop`: a poll of 50 ms, then the message, if there was one.
unfoldable pub main_round : Hardware → Ipc → ℕ → List Poll → ℕ → Hardware × Ipc
main_round h ipc start polls now =
    handle_received h ipc (Ipc.recv_from_sw ipc true 50 start polls) now

-- `baios_hw_get_stats`
abbrev pub get_stats : Hardware → HwStats
get_stats h = h.stats
