-- ===== src/Types.antt =====
-- BIOS/include/types.h and config.h: status codes, priorities and limits.
use Prim.Native.String.{String}
use team_os_3_0_baios.Base.{ℕ}

-- `baios_status_t`.
pub data Status : Type 0 where
  ok nomem inval perm notfound busy io timeout again nosys fault_addr overflow underflow ipc_error
        driver_error state_error :
      Status

pub Status-discrete : Discrete Status
Status-discrete = hlevel

-- `baios_status_str`
abbrev pub status_str : Status → String
status_str ok = "OK"
status_str nomem = "Out of memory"
status_str inval = "Invalid argument"
status_str perm = "Permission denied"
status_str notfound = "Not found"
status_str busy = "Resource busy"
status_str io = "I/O error"
status_str timeout = "Timeout"
status_str again = "Try again"
status_str nosys = "Not implemented"
status_str fault_addr = "Bad address"
status_str overflow = "Overflow"
status_str underflow = "Underflow"
status_str ipc_error = "IPC error"
status_str driver_error = "Driver error"
status_str state_error = "Invalid state"

-- `baios_prio_t`.
pub data Prio : Type 0 where
  idle low normal high realtime kernel : Prio

-- `BAIOS_MAX_PROCESSES`
abbrev pub max_processes : ℕ
max_processes = 256

-- `BAIOS_MAX_DRIVERS`
abbrev pub max_drivers : ℕ
max_drivers = 128

-- `BAIOS_MAX_IRQ`
abbrev pub max_irq : ℕ
max_irq = 256

-- `BAIOS_MAX_IPC_CHANNELS`
abbrev pub max_ipc_channels : ℕ
max_ipc_channels = 64

-- `BAIOS_IPC_SLOT_COUNT`
abbrev pub ipc_slot_count : ℕ
ipc_slot_count = 32

-- `BAIOS_IPC_MAX_MSG_SIZE`
abbrev pub ipc_max_msg_size : ℕ
ipc_max_msg_size = 4096
