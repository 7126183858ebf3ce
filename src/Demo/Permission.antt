-- ===== src/Demo/Permission.antt =====
-- The capabilities of BIOS/sw/permissions.cpp and BIOS/include/permissions.h. A capability is one of
-- the values that its type names, and a set of them a mask of 32 bits. The processes of Demo/Process
-- have the sets that hold for a process without a record.
mod Tests
pub mod Records
pub mod Laws
use team_os_3_0_baios.Base.{
  ℕ, ◌+◌, List, Option, none, some, Bool, true, false, not, ◌||◌, ◌==◌, leb, if◌then◌else◌, get_or,
  set, replicate, has_bit, set_bit, clear_bit,
}
use team_os_3_0_baios.Demo.Search.{find_index}
use team_os_3_0_baios.Demo.Error.{Error, ok, invalid_arg, no_memory, not_found, permission}
use team_os_3_0_baios.Demo.Process.{Sw, proc_at}
use team_os_3_0_baios.Demo.Process

-- `baios_capability_t`
pub data Cap : Type 0 where
  no_cap read_file write_file exec network camera microphone location sensors bluetooth storage
        system root :
      Cap

-- The bit of a capability in a set.
abbrev pub bit_of : Cap → Option ℕ
bit_of no_cap = none
bit_of read_file = some 0
bit_of write_file = some 1
bit_of exec = some 2
bit_of network = some 3
bit_of camera = some 4
bit_of microphone = some 5
bit_of location = some 6
bit_of sensors = some 7
bit_of bluetooth = some 8
bit_of storage = some 9
bit_of system = some 10
bit_of root = some 31

-- `set & cap`, as a test
abbrev pub has_cap : ℕ → Cap → Bool
has_cap caps cap = elim (bit_of cap) [ none ↦ false | some k ↦ has_bit caps k ]

-- `set | cap`
abbrev pub with_cap : ℕ → Cap → ℕ
with_cap caps cap = elim (bit_of cap) [ none ↦ caps | some k ↦ set_bit caps k ]

-- `set & ~cap`
abbrev pub without_cap : ℕ → Cap → ℕ
without_cap caps cap = elim (bit_of cap) [ none ↦ caps | some k ↦ clear_bit caps k ]

-- `MAX_PERM_RECORDS`
abbrev pub max_perm_records : ℕ
max_perm_records = 256

-- `baios_perm_record_t`
pub record PermRecord : Type 0 where
  pub pid : ℕ
  pub granted : ℕ
  pub requested : ℕ

abbrev pub zero_record : PermRecord
zero_record = record { pid = 0; granted = 0; requested = 0 }

-- The static state of the file.
pub record Perms : Type 0 where
  pub records : List PermRecord
  pub count : ℕ
  pub ready : Bool

abbrev pub record_at : Perms → ℕ → PermRecord
record_at s i = get_or s.records i zero_record

-- `find_record`
abbrev pub find_record : Perms → ℕ → Option ℕ
find_record s pid = find_index (λ r. r.pid == pid) s.records s.count

-- `perm_init`
unfoldable pub init : Perms → Error × Perms
init s = (ok, record { records = replicate max_perm_records zero_record; count = 0; ready = true })

abbrev pub put_record : Perms → ℕ → PermRecord → Perms
put_record s i r = record s { records = set s.records i r }

-- The record of a pid, or a new one: its place, if there is one, and the state.
abbrev pub ensure_at : Perms → ℕ → Option ℕ → Option ℕ × Perms
ensure_at s pid (some i) = (some i, s)
ensure_at s pid none = if leb max_perm_records s.count then (none, s) else (
  some s.count,
  record s {
    records = set s.records s.count (record zero_record { pid = pid });
    count = s.count + 1;
  },
)

abbrev pub ensure : Perms → ℕ → Option ℕ × Perms
ensure s pid = ensure_at s pid (find_record s pid)

abbrev pub grant_at : Option ℕ × Perms → Cap → Error × Perms
grant_at (none, s) cap = (no_memory, s)
grant_at (some i, s) cap =
    let r = record_at s i in
    (
      ok,
      put_record s i
          (record r { granted = with_cap r.granted cap; requested = without_cap r.requested cap }),
    )

-- `perm_grant`
unfoldable pub grant : Perms → ℕ → Cap → Error × Perms
grant s pid cap = if s.ready then grant_at (ensure s pid) cap else (invalid_arg, s)

abbrev pub revoke_at : Perms → Option ℕ → Cap → Error × Perms
revoke_at s none cap = (not_found, s)
revoke_at s (some i) cap =
    let r = record_at s i in (ok, put_record s i (record r { granted = without_cap r.granted cap }))

-- `perm_revoke`
unfoldable pub revoke : Perms → ℕ → Cap → Error × Perms
revoke s pid cap = revoke_at s (find_record s pid) cap

-- A set has the capability, or all of them.
abbrev pub allows : ℕ → Cap → Bool
allows caps cap = has_cap caps cap || has_cap caps root

abbrev pub check_process : Sw → Option ℕ → Cap → Bool
check_process sw none cap = false
check_process sw (some p) cap = allows (proc_at sw p).permissions cap

abbrev pub check_at : Perms → Sw → ℕ → Option ℕ → Cap → Bool
check_at s sw pid none cap = check_process sw (Process.get sw pid) cap
check_at s sw pid (some i) cap = allows (record_at s i).granted cap

-- `perm_check`
unfoldable pub check : Perms → Sw → ℕ → Cap → Bool
check s sw pid cap = check_at s sw pid (find_record s pid) cap

-- `perm_is_dangerous`
abbrev pub is_dangerous : Cap → Bool
is_dangerous camera = true
is_dangerous microphone = true
is_dangerous location = true
is_dangerous system = true
is_dangerous root = true
is_dangerous no_cap = false
is_dangerous read_file = false
is_dangerous write_file = false
is_dangerous exec = false
is_dangerous network = false
is_dangerous sensors = false
is_dangerous bluetooth = false
is_dangerous storage = false

abbrev pub ask_at : Option ℕ × Perms → Cap → Error × Perms
ask_at (none, s) cap = (no_memory, s)
ask_at (some i, s) cap =
    let r = record_at s i in
    (permission, put_record s i (record r { requested = with_cap r.requested cap }))

-- `perm_request`
unfoldable pub request : Perms → ℕ → Cap → Error × Perms
unfolding grant
request s pid cap = if is_dangerous cap then ask_at (ensure s pid) cap else grant s pid cap

abbrev pub set_of_process : Sw → Option ℕ → Error × Option ℕ
set_of_process sw none = (not_found, none)
set_of_process sw (some p) = (ok, some (proc_at sw p).permissions)

abbrev pub set_at : Perms → Sw → ℕ → Option ℕ → Error × Option ℕ
set_at s sw pid none = set_of_process sw (Process.get sw pid)
set_at s sw pid (some i) = (ok, some (record_at s i).granted)

-- `perm_get`, with a place for the set.
abbrev pub get : Perms → Sw → ℕ → Error × Option ℕ
get s sw pid = set_at s sw pid (find_record s pid)
