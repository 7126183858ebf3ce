-- ===== src/Demo/Chrdev/Laws.antt =====
-- Registering a character device and removing one.
use Prim.Native.String.{String}
use team_os_3_0_baios.Base.{
  ℕ, ◌≡◌, refl, sym, subst, Option, none, some, true, ◌==◌, if◌then◌else◌, arith, inl, inr, ◌⊎◌,
}
use team_os_3_0_baios.Demo.Error.{Error, ok, no_memory, invalid_arg}
use team_os_3_0_baios.Demo.Shm.{Shm}
use team_os_3_0_baios.Demo.Shm
use team_os_3_0_baios.Demo.Chrdev.{
  Devs, Chrdev, FileOps, add_driver, register_chrdev, unregister_chrdev,
}

module _ (size : ℕ) (clip : String → String) where
  -- What a registration and then a removal come to.
  abbrev Undone : Devs → ℕ → Error × Option Chrdev × Devs → Type 0
  Undone s major (st, drv, s') =
      ((st ≡ no_memory) × (drv ≡ none) × (s'.drivers ≡ s.drivers))
      ⊎ ((st ≡ ok)
          × ((unregister_chrdev s' major).0 ≡ ok)
          × ((unregister_chrdev s' major).1.drivers ≡ s.drivers))

  add_driver-Undone :
      (s : Devs) (major : ℕ) (name : String) (fops : FileOps) (m : Option ℕ × Shm)
      → Undone s major (add_driver size clip s major name fops m)
  unfolding unregister_chrdev
  add_driver-Undone s major name fops (none, shm) = inl (refl, refl, refl)
  add_driver-Undone s major name fops (some at, shm) =
      let same : (major == major) ≡ true = ground arith in inr (refl, rw same refl, rw same refl)

  -- With the layer ready, the registration of a named device with operations either finds no memory
  -- and leaves the list, or succeeds, and then the removal of its major number succeeds and gives
  -- the list back as it was, whatever other devices have that number.
  pub unregister_chrdev-register_chrdev :
      (s : Devs) (major : ℕ) (name : String) (fops : FileOps)
      → s.ready ≡ true
      → let (st, drv, s') = register_chrdev size clip s major (some name) (some fops) in
        ((st ≡ no_memory) × (drv ≡ none) × (s'.drivers ≡ s.drivers))
        ⊎ ((st ≡ ok)
            × ((unregister_chrdev s' major).0 ≡ ok)
            × ((unregister_chrdev s' major).1.drivers ≡ s.drivers))
  unfolding register_chrdev
  unregister_chrdev-register_chrdev s major name fops up =
      subst
        (λ b. Undone s major (
          if b
          then add_driver size clip s major name fops (Shm.kmalloc s.shm size)
          else (invalid_arg, none, s)))
        (sym up) (add_driver-Undone s major name fops (Shm.kmalloc s.shm size))
