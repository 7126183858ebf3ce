-- ===== src/Demo/Kernel.antt =====
-- The start and the loop of BIOS/hw/main.c, over the parts of the demonstration kernel. The heap and
-- the shared regions are those below the channels. `raises` says what softirqs a softirq raises,
-- and `run_other` what a handler of the timer other than the file's own does.
mod Tests
pub mod Heartbeat
pub mod Start
use Prim.Native.String.{String}
use team_os_3_0_baios.Base.{
  ℕ, zero, suc, ◌+◌, ◌*◌, ◌%◌, ◌^◌, List, Option, none, some, Bool, true, false, ◌==◌,
  if◌then◌else◌, u64,
}
use mathlib.Core.Option
use team_os_3_0_baios.Demo.Error.{Error, ok}
use team_os_3_0_baios.Demo.Shm
use team_os_3_0_baios.Demo.Buddy.{Buddy, init_buddy}
use team_os_3_0_baios.Demo.Irq.{IrqTable, Invocation, irq_timer, register, dispatch}
use team_os_3_0_baios.Demo.Irq
use team_os_3_0_baios.Demo.Softirq.{Softirqs, Item, reset, process}
use team_os_3_0_baios.Demo.Chrdev.{Devs, compat_init}
use team_os_3_0_baios.Demo.Channel.{Env, Ipc}
use team_os_3_0_baios.Demo.Channel
use team_os_3_0_baios.Demo.Channel.Message.{Received, try_recv}

-- `baios_hw_state_t`, with the fields that this file uses.
pub record HwState : Type 0 where
  pub heartbeat : ℕ
  pub boot_time_ns : ℕ
  pub initialized : Bool

abbrev pub zero_hw : HwState
zero_hw = record { heartbeat = 0; boot_time_ns = 0; initialized = false }

-- The state of the file and of the parts that it starts.
pub record Kernel : Type 0 where
  pub hw : HwState
  pub buddy : Buddy
  pub irqs : IrqTable
  pub softirqs : Softirqs
  pub devs : Devs
  pub ipc : Ipc

-- The code of `timer_irq_handler`.
abbrev pub timer_handler : ℕ
timer_handler = 1

-- `g_hw.heartbeat++`
abbrev pub beat : Kernel → Kernel
beat k = record k { hw = record k.hw { heartbeat = u64 (k.hw.heartbeat + 1) } }

module _ (env : Env) (orders dev_size : ℕ) (clip : String → String) where
  -- The end of `hw_kernel_init`, once the channels have been started or not.
  abbrev pub with_channels : Kernel → (now : ℕ) → Error × Ipc → Error × Kernel
  with_channels k now (ok, ipc) = (
    ok,
    record k { ipc = ipc; hw = record { heartbeat = 0; boot_time_ns = now; initialized = true } },
  )
  with_channels k now (st, ipc) = (st, record k { ipc = ipc })

  -- The devices and then the channels, over one heap.
  abbrev pub with_timer : Kernel → (now : ℕ) → Error × IrqTable → Error × Kernel
  with_timer k now (ok, irqs) =
      let (st, devs) = compat_init dev_size clip (record k.devs { shm = k.ipc.shm }) in
      with_channels (record k { irqs = irqs; devs = devs }) now
        (Channel.init env (record k.ipc { shm = devs.shm }))
  with_timer k now (st, irqs) = (st, record k { irqs = irqs })

  -- `hw_kernel_init`; the first three calls always succeed.
  unfoldable pub init : Kernel → (now : ℕ) → Error × Kernel
  init k now =
      let (st, shm) = Shm.mem_init k.ipc.shm 0 (16 * 1024 * 1024) in
      let (st', buddy) = init_buddy orders k.buddy 1048576 (8 * 1024 * 1024) in
      let (st'', irqs) = Irq.init k.irqs in
      with_timer
        (record k {
          hw = zero_hw;
          buddy = buddy;
          irqs = irqs;
          softirqs = reset k.softirqs;
          ipc = record k.ipc { shm = shm };
        })
        now (register irqs irq_timer (some timer_handler) 0 (some "timer"))

-- `hw_kernel_shutdown`
unfoldable pub shutdown : Kernel → Kernel
shutdown k = if k.hw.initialized then record k { hw = record k.hw { initialized = false } } else k

module _ (raises : Item → List Item) (run_other : Invocation → Kernel → Kernel) where
  -- `softirq_process` on fuel.
  abbrev pub run_softirqs : ℕ → Kernel → Option Kernel
  run_softirqs fuel k =
      Option.map (λ (r : List Item × Softirqs). record k { softirqs = r.1 })
        (process raises fuel k.softirqs)

  -- The call that the dispatch makes, if any; `timer_irq_handler` is the file's own.
  abbrev pub run_call : ℕ → Kernel → Option Invocation → Option Kernel
  run_call fuel k none = some k
  run_call fuel k (some inv) =
      let own = run_softirqs fuel (beat k) in
      if inv.handler == timer_handler then own else some (run_other inv k)

  -- `hw_kernel_tick` on fuel for the softirqs.
  unfoldable pub tick : ℕ → Kernel → Option Kernel
  tick fuel k =
      let (irqs, called) = dispatch k.irqs irq_timer in
      let after = run_call fuel (record (beat k) { irqs = irqs }) called in
      if k.hw.initialized then after else some k

  -- What the loop does with a message: it prints it.
  abbrev pub poll : Env → Kernel → Kernel
  poll env k = record k { ipc = (try_recv env k.ipc 0 true (some 256)).state }

  abbrev pub rest_of_round : Env → ℕ → Option Kernel → Option Kernel
  rest_of_round env fuel none = none
  rest_of_round env fuel (some k) = Option.map (poll env) (run_softirqs fuel k)

  -- One round of the loop.
  unfoldable pub round : Env → ℕ → Kernel → Option Kernel
  unfolding tick
  round env fuel k = rest_of_round env fuel (tick fuel k)

  abbrev pub rounds_from : Env → ℕ → ℕ → Option Kernel → Option Kernel
  rounds_from env fuel n none = none
  rounds_from env fuel zero (some k) = some k
  rounds_from env fuel (suc n) (some k) = rounds_from env fuel n (round env fuel k)

  -- `hw_kernel_main_loop`
  abbrev pub main_loop : Env → ℕ → Kernel → Option Kernel
  main_loop env fuel k = rounds_from env fuel 10 (some k)

-- `hw_kernel_get_heartbeat`
abbrev pub get_heartbeat : Kernel → ℕ
get_heartbeat k = k.hw.heartbeat
