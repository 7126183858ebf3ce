-- ===== src/HwKernel/Lifecycle.antt =====
-- Start and stop of the hardware microkernel, BIOS/src/hw/hw_kernel.c.
use team_os_3_0_baios.Base.{sym, subst, ℕ, ◌*◌, ◌≤◌, ◌≡◌, true, false, arith}
use team_os_3_0_baios.Types.{ok, nomem}
use team_os_3_0_baios.Memory
use team_os_3_0_baios.Memory.{Memory}
use team_os_3_0_baios.Memory.Init.{AllFree, init-free}
use team_os_3_0_baios.Irq
use team_os_3_0_baios.Irq.{Irqs}
use team_os_3_0_baios.Driver
use team_os_3_0_baios.Irq.Count.{IsValid as IrqsValid, init-IsValid as init-IrqsValid}
use team_os_3_0_baios.Driver.Valid.{IsValid as DriversValid, init-IsValid as init-DriversValid}
use team_os_3_0_baios.Driver.{Callback, Drivers}
use team_os_3_0_baios.HwKernel.{Hardware, init, shutdown}

-- No part is up.
pub record IsDown (h : Hardware) : Type 0 where
  pub kernel_down : h.stats.initialized ≡ false
  pub memory_down : h.memory.ready ≡ false
  pub irqs_down : h.irqs.ready ≡ false
  pub drivers_down : h.drivers.ready ≡ false

-- Every part is up, and valid.
pub record IsUp (h : Hardware) : Type 0 where
  pub kernel_up : h.stats.initialized ≡ true
  pub memory_up : h.memory.ready ≡ true
  pub irqs_up : h.irqs.ready ≡ true
  pub irqs_valid : IrqsValid h.irqs
  pub drivers_valid : DriversValid h.drivers

memory_ready :
    (m : Memory) (base size : ℕ)
    → m.ready ≡ false
    → 4096 ≤ size
    → ((Memory.init m base size true).0 ≡ ok) × ((Memory.init m base size true).1.ready ≡ true)
unfolding Memory.init
memory_ready m base size e h = ground arith

memory_refused :
    (m : Memory) (base size : ℕ)
    → m.ready ≡ false
    → 4096 ≤ size
    → ((Memory.init m base size false).0 ≡ nomem)
      × ((Memory.init m base size false).1.ready ≡ false)
unfolding Memory.init
memory_refused m base size e h = ground arith

irqs_ready :
    (s : Irqs)
    → s.ready ≡ false
    → ((Irq.init s).0 ≡ ok) × ((Irq.init s).1.ready ≡ true) × IrqsValid (Irq.init s).1
unfolding Irq.init
irqs_ready s e = (ground arith, ground arith, init-IrqsValid s e)

drivers_ready :
    (s : Drivers) → s.ready ≡ false → ((Driver.init s).0 ≡ ok) × DriversValid (Driver.init s).1
unfolding Driver.init
drivers_ready s e = (ground arith, init-DriversValid s e)

-- From a state with all parts down and with memory for the page descriptors, the start succeeds
-- and all parts are up.
pub init-IsUp : {h : Hardware} → IsDown h → ((init h true).0 ≡ ok) × IsUp (init h true).1
unfolding init
init-IsUp {h} d = ground (
  arith,
  memory_ready h.memory 0x100000 (64 * 1024 * 1024) d.memory_down (omega arith),
  irqs_ready h.irqs d.irqs_down,
  drivers_ready h.drivers d.drivers_down,
)

init-memory :
    {h : Hardware}
    → IsDown h
    → (init h true).1.memory ≡ (Memory.init h.memory 0x100000 (64 * 1024 * 1024) true).1
unfolding init
init-memory {h} d = ground (
  arith,
  memory_ready h.memory 0x100000 (64 * 1024 * 1024) d.memory_down (omega arith),
  irqs_ready h.irqs d.irqs_down,
  drivers_ready h.drivers d.drivers_down,
)

-- The start leaves all of the 64 MiB free.
pub init-AllFree : {h : Hardware} → IsDown h → AllFree (init h true).1.memory 16384
init-AllFree {h} d =
    subst (λ m. AllFree m 16384) (sym (init-memory d))
      (init-free h.memory 0x100000 (64 * 1024 * 1024) d.memory_down (omega arith)).1

-- With no memory for them it fails with `nomem`, and no part is left up.
pub init-IsDown : {h : Hardware} → IsDown h → ((init h false).0 ≡ nomem) × IsDown (init h false).1
unfolding init
init-IsDown {h} d =
    ground (arith, memory_refused h.memory 0x100000 (64 * 1024 * 1024) d.memory_down (omega arith))

-- A stop after that leaves no part up.
pub shutdown-IsDown : {h : Hardware} → IsUp h → IsDown (shutdown h).1
unfolding shutdown Memory.shutdown Irq.shutdown Driver.shutdown
shutdown-IsDown u = ground arith
