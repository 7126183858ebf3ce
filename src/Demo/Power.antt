-- ===== src/Demo/Power.antt =====
-- The power states of BIOS/hw/power.c. `baios_power_state_t` is declared in no header: the states
-- are those that the code names, and `other` stands for any number beside them.
pub mod Reach
use team_os_3_0_baios.Base.{ℕ, ◌+◌, Bool, true, false, ◌==◌, leb, if◌then◌else◌, set_bit}
use team_os_3_0_baios.Demo.Error.{Error, ok, invalid_arg}

pub data PowerState : Type 0 where
  on idle suspend hibernate power_off : PowerState
  other : ℕ → PowerState

-- The file's static state; `wake_sources` is a mask of 32 bits.
pub record Power : Type 0 where
  pub state : PowerState
  pub wake_sources : ℕ

-- The state at the start of the program.
abbrev pub initial : Power
initial = record { state = on; wake_sources = 0 }

-- `hw_power_set_state`
unfoldable pub set_state : Power → PowerState → Error × Power
set_state p (other n) = (invalid_arg, p)
set_state p state = (ok, record p { state = state })

-- `hw_power_get_state`
abbrev pub get_state : Power → PowerState
get_state p = p.state

-- `hw_power_register_wake_source`
unfoldable pub register_wake_source : Power → ℕ → Error × Power
register_wake_source p irq =
    if leb 32 irq
    then (invalid_arg, p)
    else (ok, record p { wake_sources = set_bit p.wake_sources irq })

abbrev pub idle_from : PowerState → PowerState
idle_from on = idle
idle_from state = state

-- `hw_power_enter_idle`
unfoldable pub enter_idle : Power → Power
enter_idle p = record p { state = idle_from p.state }

abbrev pub wake_from : PowerState → PowerState
wake_from idle = on
wake_from suspend = on
wake_from state = state

-- `hw_power_wake`
unfoldable pub wake : Power → Power
wake p = record p { state = wake_from p.state }
