-- ===== src/Boot.antt =====
-- Start and stop of the whole kernel, BIOS/src/boot/entry.c, with the states of
-- BIOS/include/baios.h. Logging and the demonstration in `main` are left out.
pub mod Exchange
pub mod Lifecycle
mod Tests
use team_os_3_0_baios.Base.{
  ℕ, List, [], Option, none, some, Bool, true, false, not, ◌||◌, if◌then◌else◌,
}
use team_os_3_0_baios.Types.{Status, ok, state_error}
use team_os_3_0_baios.Ipc
use team_os_3_0_baios.Ipc.{Ipc}
use team_os_3_0_baios.Driver.{Callback}
use team_os_3_0_baios.HwKernel
use team_os_3_0_baios.HwKernel.{Hardware}
use team_os_3_0_baios.SwKernel
use team_os_3_0_baios.SwKernel.{Software}

-- `baios_state_t`
pub data BootState : Type 0 where
  uninitialized hw_init sw_init running panic shut_down : BootState

abbrev pub is_uninitialized : BootState → Bool
is_uninitialized uninitialized = true
is_uninitialized _ = false

-- `RUNNING` or `PANIC`
abbrev pub can_shut_down : BootState → Bool
can_shut_down running = true
can_shut_down panic = true
can_shut_down _ = false

-- The static state of the whole program.
pub record Machine : Type 0 where
  pub state : BootState
  pub ipc : Ipc
  pub hardware : Hardware
  pub software : Software

-- What `calloc` gives to the allocator and to the first process.
pub record Memories : Type 0 where
  pub for_pages : Bool
  pub for_process : Bool

-- The last part of `baios_init`, by the result of `baios_sw_init`.
abbrev pub with_software : Machine → Status × Software → Status × Machine
with_software m (ok, s) = (ok, record m { software = s; state = running })
with_software m (st, s) = (
  st,
  record {
    state = uninitialized;
    ipc = Ipc.shutdown m.ipc;
    hardware = (HwKernel.shutdown m.hardware).1;
    software = s;
  },
)

-- The same after `baios_hw_init`.
abbrev pub with_hardware : Machine → Memories → Status × Hardware → Status × Machine
with_hardware m mem (ok, h) =
    with_software (record m { hardware = h; state = sw_init })
      (SwKernel.init m.software mem.for_process)
with_hardware m mem (st, h) =
    (st, record m { hardware = h; ipc = Ipc.shutdown m.ipc; state = uninitialized })

-- The same after `baios_ipc_init`.
abbrev pub with_ipc : Machine → Memories → Status × Ipc → Status × Machine
with_ipc m mem (ok, ipc) =
    with_hardware (record m { ipc = ipc; state = hw_init }) mem
      (HwKernel.init m.hardware mem.for_pages)
with_ipc m mem (st, ipc) = (st, record m { ipc = ipc })

-- `baios_init`
unfoldable pub init : Machine → Memories → Status × Machine
init m mem = if is_uninitialized m.state then with_ipc m mem (Ipc.init m.ipc) else (state_error, m)

-- `baios_shutdown`, with the driver callbacks that it makes.
unfoldable pub shutdown : Machine → Status × List Callback × Machine
shutdown m =
    if can_shut_down m.state
    then (
      ok,
      (HwKernel.shutdown m.hardware).0,
      record {
        state = uninitialized;
        software = SwKernel.shutdown m.software;
        hardware = (HwKernel.shutdown m.hardware).1;
        ipc = Ipc.shutdown m.ipc;
      },
    )
    else (state_error, [], m)

-- `baios_get_state`
abbrev pub get_state : Machine → BootState
get_state m = m.state
