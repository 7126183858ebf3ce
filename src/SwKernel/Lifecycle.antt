-- ===== src/SwKernel/Lifecycle.antt =====
-- Start and stop of the software microkernel, BIOS/src/sw/sw_kernel.cpp.
use team_os_3_0_baios.Base.{◌≡◌, refl, some, true, false, arith, subst, sym}
use team_os_3_0_baios.Types.{Status, ok, nomem, kernel}
use team_os_3_0_baios.Process
use team_os_3_0_baios.Process.{
  Procs, Process, find_slot, place, fresh_procs, current_pid, new_process,
}
use team_os_3_0_baios.Process.Valid.{IsValid, init-IsValid, create-IsValid}
use team_os_3_0_baios.SwKernel.{Software, init, shutdown, init_name}

-- Neither the kernel nor the process table is up.
pub record IsDown (s : Software) : Type 0 where
  pub kernel_down : s.stats.initialized ≡ false
  pub procs_down : s.procs.is_ready ≡ false

-- Both are up, the table is valid, and the first process, with pid 1, is the current one.
pub record IsUp (s : Software) : Type 0 where
  pub kernel_up : s.stats.initialized ≡ true
  pub procs_valid : IsValid s.procs
  pub first_current : current_pid s.procs ≡ 1

procs_init : (p : Procs) → p.is_ready ≡ false → Process.init p ≡ (ok, fresh_procs)
unfolding Process.init
procs_init p e = ground arith

procs_ready :
    (p : Procs)
    → p.is_ready ≡ false
    → ((Process.init p).0 ≡ ok) × IsValid (Process.init p).1 × ((Process.init p).1.next_pid ≡ 1)
unfolding Process.init
procs_ready p e = (ground arith, init-IsValid p e, ground arith)

-- What creating the first process in a fresh table gives.
abbrev First : Procs → Type 0
First p =
    ((Process.create p (some init_name) kernel true true).0 ≡ ok)
    × (current_pid (Process.create p (some init_name) kernel true true).2 ≡ 1)
    × ((Process.create p (some init_name) kernel true false).0 ≡ nomem)

First-fresh : First fresh_procs
unfolding Process.create find_slot
First-fresh = (refl, refl, refl)

First-created : (p : Procs) → p.is_ready ≡ false → First (Process.init p).1
First-created p e = subst (λ (t : Status × Procs). First t.1) (sym (procs_init p e)) First-fresh

-- With memory for the first process the start succeeds, and the kernel and the table are up.
pub init-IsUp : {s : Software} → IsDown s → ((init s true).0 ≡ ok) × IsUp (init s true).1
unfolding init
init-IsUp {s} d =
    let ready = procs_ready s.procs d.procs_down in
    let created = First-created s.procs d.procs_down in
    ground (
      arith,
      ready,
      created,
      create-IsValid {s = (Process.init s.procs).1} (some init_name) kernel true true
          (omega (arith, ready.2)) ready.1,
    )

-- Without it the start fails with `nomem`, and neither is left up.
pub init-IsDown : {s : Software} → IsDown s → ((init s false).0 ≡ nomem) × IsDown (init s false).1
unfolding init Process.shutdown
init-IsDown {s} d =
    ground (arith, procs_ready s.procs d.procs_down, First-created s.procs d.procs_down)

-- A stop leaves neither up.
pub shutdown-IsDown : {s : Software} → IsUp s → IsDown (shutdown s)
unfolding shutdown Process.shutdown
shutdown-IsDown u = ground arith
