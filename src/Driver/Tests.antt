-- ===== src/Driver/Tests.antt =====
-- The theorems on the registry at registries of up to two drivers.
use Prim.Native.String.{String}
use team_os_3_0_baios.Base.{ℕ, ◌≡◌, refl, [], none, some, false, arith, length}
use team_os_3_0_baios.Types.{ok}
use team_os_3_0_baios.Driver.{
  Driver, Drivers, init, register, find_name, unregister, shutdown, find, remove_call,
}
use team_os_3_0_baios.Driver.Valid.{IsValid, init-IsValid, register-IsValid}
use team_os_3_0_baios.Driver.Laws.{unregister-register, shutdown-owed, owed}

abbrev off : Drivers
off = record { drivers = []; count = 0; ready = false }

abbrev started : Drivers
started = (init off).1

started-IsValid : IsValid started
started-IsValid = init-IsValid off refl

abbrev driver : ℕ → String → Driver
driver address name = record {
  address = address;
  name = some name;
  version = none;
  major = 1;
  minor = 0;
  probe = some 10;
  remove = some 20;
  suspend = none;
  resume = none;
  priv = 0;
  flags = 0;
}

nothing_yet : (length started.drivers ≡ 0) × (find started (some "disk") ≡ none)
unfolding init find find_name
nothing_yet = (refl, refl)

abbrev one : Drivers
one = (register started (some (driver 1 "disk"))).2

one-IsValid : IsValid one
one-IsValid = register-IsValid (some (driver 1 "disk")) started-IsValid

second : (register one (some (driver 2 "net"))).0 ≡ ok
unfolding register init find_name
second = refl

unregister-register_example :
    unregister (register one (some (driver 2 "net"))).2 2
    ≡ (ok, remove_call (driver 2 "net") (some 20), one)
unregister-register_example = unregister-register (driver 2 "net") one-IsValid (omega arith) second

shutdown-owed_example :
    let (calls, s') = shutdown one in
    (calls ≡ owed one.drivers) × (s'.drivers ≡ []) × (s'.count ≡ 0) × (s'.ready ≡ false)
shutdown-owed_example = shutdown-owed one-IsValid
