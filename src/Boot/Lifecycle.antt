-- ===== src/Boot/Lifecycle.antt =====
-- The life of the kernel of BIOS/src/boot/entry.c: a start with and without memory, and a stop.
use team_os_3_0_baios.Base.{sym, subst, ◌≡◌, ◌⊎◌, inl, inr, Bool-cases, true, false, arith}
use team_os_3_0_baios.Types.{ok, nomem}
use team_os_3_0_baios.Ipc
use team_os_3_0_baios.Ipc.{Ipc}
use team_os_3_0_baios.Ipc.Valid.{IsReady, init-IsReady}
use team_os_3_0_baios.HwKernel
use team_os_3_0_baios.Memory.Init.{AllFree}
use team_os_3_0_baios.HwKernel.Lifecycle as Hw
use team_os_3_0_baios.SwKernel.Lifecycle as Sw
use team_os_3_0_baios.Boot.{Machine, Memories, uninitialized, running, init, shutdown}

-- Nothing is up.
pub record IsDown (m : Machine) : Type 0 where
  pub state_down : m.state ≡ uninitialized
  pub ipc_down : m.ipc.ready ≡ false
  pub hardware_down : Hw.IsDown m.hardware
  pub software_down : Sw.IsDown m.software

-- Everything is up, and valid.
pub record IsUp (m : Machine) : Type 0 where
  pub state_up : m.state ≡ running
  pub ipc_up : IsReady m.ipc
  pub hardware_up : Hw.IsUp m.hardware
  pub software_up : Sw.IsUp m.software

ipc_ready : (s : Ipc) → s.ready ≡ false → ((Ipc.init s).0 ≡ ok) × IsReady (Ipc.init s).1
unfolding Ipc.init
ipc_ready s e = (ground arith, init-IsReady s e)

init-hardware :
    {m : Machine} (mem : Memories)
    → IsDown m
    → mem.for_pages ≡ true
    → mem.for_process ≡ true
    → ((init m mem).0 ≡ ok)
      × IsUp (init m mem).1
      × ((init m mem).1.hardware ≡ (HwKernel.init m.hardware true).1)
unfolding init
init-hardware {m} mem d p q =
    ground (
      arith,
      ipc_ready m.ipc d.ipc_down,
      Hw.init-IsUp d.hardware_down,
      Sw.init-IsUp d.software_down,
    )

-- With nothing up and memory for the page descriptors and the first process, `baios_init`
-- succeeds: the kernel is running, the IPC, the interrupts, the drivers and the processes are up and
-- valid, and the allocator is up with all 16384 pages free, in blocks that its free lists hold.
pub init-IsUp :
    {m : Machine} (mem : Memories)
    → IsDown m
    → mem.for_pages ≡ true
    → mem.for_process ≡ true
    → ((init m mem).0 ≡ ok) × IsUp (init m mem).1 × AllFree (init m mem).1.hardware.memory 16384
init-IsUp {m} mem d p q =
    let (done, up, same) = init-hardware mem d p q in
    (done, up, subst (λ h. AllFree h.memory 16384) (sym same) (Hw.init-AllFree d.hardware_down))

-- With nothing up, a start that runs out of memory on either side fails with `nomem`, and leaves
-- nothing up: what had been started is stopped again.
pub init-IsDown :
    {m : Machine} (mem : Memories)
    → IsDown m
    → (mem.for_pages ≡ false) ⊎ (mem.for_process ≡ false)
    → ((init m mem).0 ≡ nomem) × IsDown (init m mem).1
unfolding init Ipc.shutdown
init-IsDown {m} mem d p = elim (Bool-cases mem.for_pages) [
  | inl pages ↦ elim p [
    | inl no_pages ↦ absurd (cc pages)
    | inr no_process ↦ ground (
      arith,
      ipc_ready m.ipc d.ipc_down,
      Hw.init-IsUp d.hardware_down,
      Hw.shutdown-IsDown (Hw.init-IsUp d.hardware_down).1,
      Sw.init-IsDown d.software_down,
    )
  ]
  | inr no_pages ↦
      ground (arith, ipc_ready m.ipc d.ipc_down, Hw.init-IsDown d.hardware_down, d.software_down)
]

-- `baios_shutdown` of a running kernel succeeds and leaves nothing up, so that it can be started
-- again.
pub shutdown-IsDown : {m : Machine} → IsUp m → ((shutdown m).0 ≡ ok) × IsDown (shutdown m).2
unfolding shutdown Ipc.shutdown
shutdown-IsDown u =
    ground (arith, Hw.shutdown-IsDown u.hardware_up, Sw.shutdown-IsDown u.software_up)
