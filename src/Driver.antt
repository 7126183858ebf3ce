-- ===== src/Driver.antt =====
-- The driver registry of BIOS/src/hw/driver_compat.c, with the types of
-- BIOS/include/driver_compat.h. The chain that `g_drivers` and the `next` links make is a list,
-- newest first; a driver object is known by its address. The callbacks are outside: an operation
-- gives the calls that it makes, in order, and nothing that it does depends on what they return.
pub mod Valid
pub mod Laws
mod Tests
use Prim.Native.String.{String}
use team_os_3_0_baios.Base.{
  ℕ, ◌+◌, ◌-◌, ◌/◌, ◌%◌, ◌^◌, List, [], ◌∷◌, ◌++◌, map, Option, none, some, Bool, true, false, not,
  ◌||◌, ◌&&◌, ◌==◌, leb, if◌then◌else◌, is_some, u32, sub32, set_bit, clear_bit, has_bit, str_eq,
}
use team_os_3_0_baios.Types.{Status, ok, inval, overflow, busy, notfound, state_error, max_drivers}

-- `baios_driver_t`. A callback is known by the number of its code; bit 0 of the flags is
-- `BAIOS_DRV_FLAG_LOADED`.
pub record Driver : Type 0 where
  pub address : ℕ
  pub name : Option String
  pub version : Option String
  pub major : ℕ
  pub minor : ℕ
  pub probe : Option ℕ
  pub remove : Option ℕ
  pub suspend : Option ℕ
  pub resume : Option ℕ
  pub priv : ℕ
  pub flags : ℕ

-- The file's static state.
pub record Drivers : Type 0 where
  pub drivers : List Driver
  pub count : ℕ
  pub ready : Bool

-- A call of a driver's callback, with the driver and its private data.
pub data Callback : Type 0 where
  probes removes : (code address priv : ℕ) → Callback

abbrev pub probe_call : Driver → Option ℕ → List Callback
probe_call d none = []
probe_call d (some f) = probes f d.address d.priv ∷ []

abbrev pub remove_call : Driver → Option ℕ → List Callback
remove_call d none = []
remove_call d (some f) = removes f d.address d.priv ∷ []

-- `baios_driver_init`
unfoldable pub init : Drivers → Status × Drivers
init s =
    if s.ready then (state_error, s) else (ok, record { drivers = []; count = 0; ready = true })

-- The loop of `baios_driver_shutdown`.
unfoldable pub remove_all : List Driver → List Callback
remove_all [] = []
remove_all (d ∷ ds) = (if has_bit d.flags 0 then remove_call d d.remove else []) ++ remove_all ds

-- `baios_driver_shutdown`
unfoldable pub shutdown : Drivers → List Callback × Drivers
shutdown s =
    if s.ready
    then (remove_all s.drivers, record { drivers = []; count = 0; ready = false })
    else ([], s)

-- `strcmp(d->name, name) == 0`; a registered driver has a name.
abbrev pub is_named : Option String → String → Bool
is_named none name = false
is_named (some n) name = str_eq n name

-- The first driver of that name.
unfoldable pub find_name : String → List Driver → Option Driver
find_name name [] = none
find_name name (d ∷ ds) = if is_named d.name name then some d else find_name name ds

abbrev pub loaded : Driver → Driver
loaded d = record d { flags = set_bit d.flags 0 }

-- `baios_driver_register` of a driver whose name is not null.
unfoldable pub register_named : Drivers → Driver → String → Status × List Callback × Drivers
register_named s d name =
    if leb max_drivers s.count
    then (overflow, [], s)
    else if is_some (find_name name s.drivers)
    then (busy, [], s)
    else (
      ok,
      probe_call d d.probe,
      record s { drivers = loaded d ∷ s.drivers; count = u32 (s.count + 1) },
    )

abbrev pub register_with : Drivers → Driver → Option String → Status × List Callback × Drivers
register_with s d none = (inval, [], s)
register_with s d (some name) = register_named s d name

-- `baios_driver_register`; `none` is a null pointer. The result of the probe is only logged.
unfoldable pub register : Drivers → Option Driver → Status × List Callback × Drivers
unfolding register_named
register s none = (inval, [], s)
register s (some d) = if not s.ready then (inval, [], s) else register_with s d d.name

-- The driver at an address, and the chain without it.
unfoldable pub unlink : ℕ → List Driver → Option (Driver × List Driver)
unlink address [] = none
unlink address (d ∷ ds) =
    if d.address == address
    then some (d, ds)
    else elim (unlink address ds) [ none ↦ none | some (e, es) ↦ some (e, d ∷ es) ]

-- `baios_driver_unregister` of the driver at an address; 0 is the null pointer. The `LOADED` flag
-- that the source clears stands in an object that the registry no longer holds.
unfoldable pub unregister : Drivers → ℕ → Status × List Callback × Drivers
unregister s address =
    if not s.ready || address == 0 then (inval, [], s) else elim (unlink address s.drivers) [
      | none ↦ (notfound, [], s)
      | some (d, ds) ↦
          (ok, remove_call d d.remove, record s { drivers = ds; count = sub32 s.count 1 })
    ]

-- `baios_driver_find`; `none` for the name is a null pointer.
unfoldable pub find : Drivers → Option String → Option Driver
find s none = none
find s (some name) = if not s.ready then none else find_name name s.drivers

-- `baios_driver_foreach`: the drivers that `fn` is called with, in order; `given` says that it is
-- not null.
unfoldable pub foreach : Drivers → Bool → List Driver
foreach s given = if not s.ready || not given then [] else s.drivers

-- `baios_driver_count`
abbrev pub driver_count : Drivers → ℕ
driver_count s = s.count
