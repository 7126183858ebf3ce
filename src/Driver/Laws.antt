-- ===== src/Driver/Laws.antt =====
-- What registering, finding, unregistering and shutting down do.
use Prim.Native.String.{String}
use team_os_3_0_baios.Base.{
  ◌<◌, ◌≡◌, refl, List, [], ◌∷◌, ◌++◌, none, some, false, length, arith, str_eq, Option-cases, inl,
  inr, if◌then◌else◌, ap,
}
use team_os_3_0_baios.Types.{ok, busy, max_drivers}
use team_os_3_0_baios.Driver.{
  Driver, Drivers, Callback, register, unregister, unlink, find, find_name, loaded, probe_call,
  remove_call, remove_all, shutdown,
}
use team_os_3_0_baios.Driver.Valid.{IsValid, AllLoaded}

-- Registering a named driver, in a valid registry with room and no driver of that name, succeeds,
-- calls its probe, and makes the name find it and every other name find what it found before.
pub find-register :
    {s : Drivers} (d : Driver) (name other : String)
    → IsValid s
    → d.name ≡ some name
    → length s.drivers < max_drivers
    → find s (some name) ≡ none
    → let (st, calls, s') = register s (some d) in
      (st ≡ ok)
      × (calls ≡ probe_call d d.probe)
      × (find s' (some other)
          ≡ (if str_eq name other then some (loaded d) else find s (some other)))
unfolding register find find_name
find-register {s} d name other v e room absent = ground (arith, v.is_up, v.counted)

-- A second driver of the same name is refused, and nothing changes or is called.
pub register_busy :
    {s : Drivers} (d e : Driver) (name : String)
    → IsValid s
    → d.name ≡ some name
    → length s.drivers < max_drivers
    → find s (some name) ≡ some e
    → register s (some d) ≡ (busy, [], s)
unfolding register find
register_busy {s} d e name v named room found = ground (arith, v.is_up, v.counted)

-- In a valid registry, unregistering the driver that has just been registered, at an address that
-- is not null, calls its remove callback and gives the registry back as it was.
pub unregister-register :
    {s : Drivers} (d : Driver)
    → IsValid s
    → 0 < d.address
    → (register s (some d)).0 ≡ ok
    → unregister (register s (some d)).2 d.address ≡ (ok, remove_call d d.remove, s)
unfolding register unregister unlink
unregister-register {s} d v pos e = elim (Option-cases d.name) [
  | inl h ↦ ground (arith, v.is_up, v.counted, v.bounded)
  | inr (name, h) ↦ ground (arith, v.is_up, v.counted, v.bounded)
]

-- What a shutdown owes: the remove callback of each driver, where there is one.
abbrev pub owed : List Driver → List Callback
owed [] = []
owed (d ∷ ds) = remove_call d d.remove ++ owed ds

remove_all-owed : (ds : List Driver) → AllLoaded ds → remove_all ds ≡ owed ds
unfolding remove_all
remove_all-owed [] l = refl
remove_all-owed (d ∷ ds) l = rw l.0 (ap (◌++◌ (remove_call d d.remove)) (remove_all-owed ds l.1))

-- A shutdown calls the remove callback of every registered driver once, newest first, and leaves
-- the registry empty and down.
pub shutdown-owed :
    {s : Drivers}
    → IsValid s
    → let (calls, s') = shutdown s in
      (calls ≡ owed s.drivers) × (s'.drivers ≡ []) × (s'.count ≡ 0) × (s'.ready ≡ false)
unfolding shutdown
shutdown-owed {s} v = ground (arith, v.is_up, remove_all-owed s.drivers v.all_loaded)
