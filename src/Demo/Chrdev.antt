-- ===== src/Demo/Chrdev.antt =====
-- The character devices of BIOS/hw/linux_compat.c, with descriptors from the heap of Demo/Shm. The
-- list of drivers is a list, newest first. `size` is the size of a descriptor, and `clip` what a
-- name becomes in its field of 64 bytes.
pub mod Laws
use Prim.Native.String.{String}
use team_os_3_0_baios.Base.{
  ℕ, zero, suc, List, [], ◌∷◌, Option, none, some, Bool, true, false, ◌==◌, if◌then◌else◌,
  replicate,
}
use team_os_3_0_baios.Demo.Error.{Error, ok, invalid_arg, no_memory, not_found}
use team_os_3_0_baios.Demo.Shm.{Shm, kfree}
use team_os_3_0_baios.Demo.Shm

-- The tables of operations of the file, and those of others by a number.
pub data FileOps : Type 0 where
  null_fops zero_fops : FileOps
  other_fops : ℕ → FileOps

-- `baios_linux_driver_t`, at an offset in the heap, with the fields that this file uses.
pub record Chrdev : Type 0 where
  pub at : ℕ
  pub name : String
  pub major : ℕ
  pub fops : FileOps
  pub registered : Bool

-- The static state of the file, and the heap.
pub record Devs : Type 0 where
  pub drivers : List Chrdev
  pub ready : Bool
  pub shm : Shm

-- `null_read`: the end of the file, nothing written.
abbrev pub null_read : ℕ → List ℕ
null_read count = []

-- `null_write`
abbrev pub null_write : ℕ → ℕ
null_write count = count

-- `zero_read`: the bytes written, which are as many as it returns.
abbrev pub zero_read : ℕ → List ℕ
zero_read count = replicate count 0

-- `zero_write`
abbrev pub zero_write : ℕ → ℕ
zero_write count = count

module _ (size : ℕ) (clip : String → String) where
  -- `linux_register_chrdev` with its memory, if there is some: the status and the descriptor.
  abbrev pub add_driver :
      Devs → ℕ → String → FileOps → Option ℕ × Shm → Error × Option Chrdev × Devs
  add_driver s major name fops (none, shm) = (no_memory, none, record s { shm = shm })
  add_driver s major name fops (some at, shm) =
      let drv : Chrdev = record {
        at = at;
        name = clip name;
        major = major;
        fops = fops;
        registered = true;
      } in
      (ok, some drv, record s { drivers = drv ∷ s.drivers; shm = shm })

  -- `linux_register_chrdev`
  unfoldable pub register_chrdev :
      Devs → ℕ → Option String → Option FileOps → Error × Option Chrdev × Devs
  register_chrdev s major none fops = (invalid_arg, none, s)
  register_chrdev s major (some name) none = (invalid_arg, none, s)
  register_chrdev s major (some name) (some fops) =
      if s.ready
      then add_driver s major name fops (Shm.kmalloc s.shm size)
      else (invalid_arg, none, s)

  -- `driver_null_init`
  abbrev pub null_init : Devs → Error × Devs
  null_init s = let (st, drv, s') = register_chrdev s 1 (some "null") (some null_fops) in (st, s')

  -- `driver_zero_init`
  abbrev pub zero_init : Devs → Error × Devs
  zero_init s = let (st, drv, s') = register_chrdev s 1 (some "zero") (some zero_fops) in (st, s')

  -- `linux_compat_init`: what its five calls return is not looked at, and three of them do nothing.
  unfoldable pub compat_init : Devs → Error × Devs
  unfolding register_chrdev
  compat_init s = (ok, (zero_init (null_init (record s { drivers = []; ready = true })).1).1)

-- The loop of `linux_unregister_chrdev`: the first descriptor of that major and the list without it.
abbrev pub unlink : List Chrdev → ℕ → Option Chrdev × List Chrdev
unlink [] major = (none, [])
unlink (d ∷ ds) major =
    let rest = unlink ds major in if d.major == major then (some d, ds) else (rest.0, d ∷ rest.1)

abbrev pub drop_driver : Devs → Option Chrdev × List Chrdev → Error × Devs
drop_driver s (none, ds) = (not_found, s)
drop_driver s (some d, ds) = (ok, record s { drivers = ds; shm = kfree s.shm (some d.at) })

-- `linux_unregister_chrdev`
unfoldable pub unregister_chrdev : Devs → ℕ → Error × Devs
unregister_chrdev s major = drop_driver s (unlink s.drivers major)

-- `baios_builtin_driver_t`, but for its probe, and the table without its last row, which ends it.
pub record Builtin : Type 0 where
  pub name : String
  pub major : ℕ
  pub minor : ℕ

-- `baios_builtin_drivers`
abbrev pub builtin_drivers : List Builtin
builtin_drivers =
    record { name = "null"; major = 1; minor = 3 }
    ∷ record { name = "zero"; major = 1; minor = 5 }
    ∷ record { name = "console"; major = 5; minor = 1 }
    ∷ record { name = "timer"; major = 10; minor = 0 }
    ∷ record { name = "random"; major = 1; minor = 8 }
    ∷ []
