-- ===== src/Boot/Tests.antt =====
-- The theorems on the whole kernel at a machine that is down, and one that has been started.
use team_os_3_0_baios.Base.{
  ap, ℕ, ◌+◌, ◌<◌, ◌≡◌, inr, refl, List, [], ◌∷◌, ◌++◌, none, true, false, arith, length, u64,
}
use team_os_3_0_baios.Types.{ok, nomem}
use team_os_3_0_baios.Ring.{ring_init}
use team_os_3_0_baios.Ring.Refine.{limit}
use team_os_3_0_baios.Ipc
use team_os_3_0_baios.Ipc.{Ipc, to_hw, to_sw}
use team_os_3_0_baios.Ipc.Valid.{init-IsReady}
use team_os_3_0_baios.Ipc.Send.{queue}
use team_os_3_0_baios.Process.{fresh_procs, current_pid}
use team_os_3_0_baios.Memory.{Memory, fresh_page}
use team_os_3_0_baios.Memory
use team_os_3_0_baios.Memory.Init.{AllFree}
use team_os_3_0_baios.HwKernel
use team_os_3_0_baios.HwKernel.{Hardware, main_round, reply_to}
use team_os_3_0_baios.SwKernel
use team_os_3_0_baios.SwKernel.{Software, Request, syscall, syscall_msg, count_syscall, sys_write}
use team_os_3_0_baios.Boot.{Machine, Memories, uninitialized, init, shutdown}
use team_os_3_0_baios.Boot.Lifecycle.{IsDown, IsUp, init-IsUp, init-IsDown, shutdown-IsDown}
use team_os_3_0_baios.Boot.Exchange.{reply_for, syscall-reply}

abbrev off : Machine
off = record {
  state = uninitialized;
  ipc = record {
    sw_to_hw_ring = ring_init;
    hw_to_sw_ring = ring_init;
    channels = [];
    channel_count = 0;
    ready = false;
    seq_counter = 1;
  };
  hardware = record {
    stats = HwKernel.zero_stats;
    running = false;
    memory = record {
      pages = fresh_page;
      total_pages = 0;
      phys_base = 0;
      heads = λ _. none;
      counts = λ _. 0;
      stats = Memory.zero_stats;
      ready = false;
    };
    irqs = record { irqs = []; ready = false; total = 0 };
    drivers = record { drivers = []; count = 0; ready = false };
  };
  software = record {
    stats = SwKernel.zero_stats;
    running = false;
    procs = record fresh_procs { is_ready = false };
  };
}

off-IsDown : IsDown off
off-IsDown = record {
  state_down = refl;
  ipc_down = refl;
  hardware_down = record {
    kernel_down = refl;
    memory_down = refl;
    irqs_down = refl;
    drivers_down = refl;
  };
  software_down = record { kernel_down = refl; procs_down = refl };
}

abbrev enough : Memories
enough = record { for_pages = true; for_process = true }

abbrev no_process : Memories
no_process = record { for_pages = true; for_process = false }

init-IsUp_example :
    ((init off enough).0 ≡ ok)
    × IsUp (init off enough).1
    × AllFree (init off enough).1.hardware.memory 16384
init-IsUp_example = init-IsUp enough off-IsDown refl refl

init-IsDown_example : ((init off no_process).0 ≡ nomem) × IsDown (init off no_process).1
init-IsDown_example = init-IsDown no_process off-IsDown (inr refl)

abbrev started : Machine
started = (init off enough).1

started-IsUp : IsUp started
started-IsUp = let (done, up, free) = init-IsUp enough off-IsDown refl refl in up

shutdown-IsDown_example : ((shutdown started).0 ≡ ok) × IsDown (shutdown started).2
shutdown-IsDown_example = shutdown-IsDown started-IsUp

abbrev request : Request
request = record { nr = sys_write; arg0 = 1; arg1 = 4096; arg2 = 5; arg3 = 0 }

abbrev ipc : Ipc
ipc = (Ipc.init off.ipc).1

abbrev no_name : ℕ → List ℕ
no_name address = []

empty_queues : (queue ipc to_hw ≡ []) × (queue ipc to_sw ≡ [])
unfolding Ipc.init ring_init
empty_queues = (refl, refl)

room : length (queue ipc to_sw) < limit
room = omega (arith, ap length empty_queues.1)

syscall-reply_example :
    let o = syscall no_name started.software ipc request true true 5 in
    let (h', ipc') = main_round started.hardware o.ipc 6 [] 7 in
    (o.status ≡ ok)
    × (queue ipc' to_hw ≡ [])
    × (queue ipc' to_sw
        ≡ queue ipc to_sw
          ++ (reply_for (current_pid started.software.procs) (u64 (ipc.seq_counter + 1)) 7 ∷ []))
    × (h'.stats.syscall_fwd ≡ u64 (started.hardware.stats.syscall_fwd + 1))
syscall-reply_example =
    syscall-reply no_name started.software started.hardware request true true 5 6 7 []
      started-IsUp.software_up.kernel_up started-IsUp.hardware_up.kernel_up
      (init-IsReady off.ipc refl) refl empty_queues.0 room
