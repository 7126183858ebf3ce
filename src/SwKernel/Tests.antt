-- ===== src/SwKernel/Tests.antt =====
-- The theorems on the system calls, in a kernel that has just been started.
use team_os_3_0_baios.Base.{
  ℕ, ◌+◌, ◌<◌, ◌≤◌, ◌≡◌, refl, List, [], ◌∷◌, ◌++◌, some, true, false, arith, length, get_elem?,
  u64,
}
use team_os_3_0_baios.Types.{ok, kernel, max_processes}
use team_os_3_0_baios.Ring.{Ring, ring_init}
use team_os_3_0_baios.Ring.Refine.{limit}
use team_os_3_0_baios.Ipc
use team_os_3_0_baios.Ipc.{Ipc, to_hw, to_sw, stamp}
use team_os_3_0_baios.Ipc.Valid.{IsReady, init-IsReady}
use team_os_3_0_baios.Ipc.Send.{queue}
use team_os_3_0_baios.Process
use team_os_3_0_baios.Process.{current_pid, Process, Procs, fresh_procs, new_process, zombie}
use team_os_3_0_baios.Process.Table.{occupied}
use team_os_3_0_baios.SwKernel.{
  Software, Request, out, syscall, zero_stats, init, init_name, sys_write, pack,
}
use team_os_3_0_baios.SwKernel.Codec.{unpack, unpack-pack}
use team_os_3_0_baios.SwKernel.Lifecycle.{IsUp, init-IsUp}
use team_os_3_0_baios.SwKernel.Syscalls.{request_for, syscall_forward}

abbrev off : Software
off = record {
  stats = zero_stats;
  running = false;
  procs = record fresh_procs { is_ready = false };
}

abbrev started : Software
started = (init off true).1

started-IsUp : IsUp started
started-IsUp = (init-IsUp (record { kernel_down = refl; procs_down = refl })).1

abbrev ipc_off : Ipc
ipc_off = record {
  sw_to_hw_ring = ring_init;
  hw_to_sw_ring = ring_init;
  channels = [];
  channel_count = 0;
  ready = false;
  seq_counter = 1;
}

abbrev ipc : Ipc
ipc = (Ipc.init ipc_off).1

ipc-IsReady : IsReady ipc
ipc-IsReady = init-IsReady ipc_off refl

-- The rings with all slots but one in use.
abbrev full_ring : Ring
full_ring = record ring_init { head = 31 }

abbrev full : Ipc
full = record ipc { sw_to_hw_ring = full_ring }

full-IsReady : IsReady full
unfolding Ipc.init ring_init
full-IsReady = record {
  is_ready = ipc-IsReady.is_ready;
  to_hw_valid = record {
    sized = ipc-IsReady.to_hw_valid.sized;
    capacity_eq = refl;
    head_in = omega arith;
    tail_in = omega arith;
  };
  to_sw_valid = ipc-IsReady.to_sw_valid;
  channels_sized = ipc-IsReady.channels_sized;
  count_in = ipc-IsReady.count_in;
  has_default = ipc-IsReady.has_default;
  tx_default = ipc-IsReady.tx_default;
  rx_default = ipc-IsReady.rx_default;
}

-- A program's memory that holds "init" everywhere.
abbrev name_at : ℕ → List ℕ
name_at address = init_name

abbrev request : ℕ → Request
request nr = record { nr = nr; arg0 = 4096; arg1 = 2; arg2 = 3; arg3 = 4 }

unpack-pack_example : unpack (pack (request 1)) ≡ request 1
unpack-pack_example =
    unpack-pack (request 1) (omega arith) (omega arith) (omega arith) (omega arith) (omega arith)

room : length (queue ipc to_hw) < limit
unfolding Ipc.init ring_init
room = omega arith

syscall_forward_example :
    let o = syscall name_at started ipc (request sys_write) true true 5 in
    (o.status ≡ ok)
    × (o.ret ≡ out true 0)
    × (queue o.ipc to_hw
        ≡ queue ipc to_hw
          ++ (request_for (current_pid started.procs) ipc.seq_counter 5 (request sys_write) ∷ []))
    × (o.software.stats.ipc_tx ≡ u64 (started.stats.ipc_tx + 1))
    × (o.software.procs ≡ started.procs)
syscall_forward_example =
    syscall_forward name_at started ipc true true 5 (request sys_write) started-IsUp.kernel_up
      ipc-IsReady room refl

no_room : limit ≤ length (queue full to_hw)
unfolding ring_init
no_room = omega arith

few : occupied started.procs.procs < max_processes
unfolding init Process.init Process.create Process.find_slot
few = omega arith

abbrev first : Process
first = new_process fresh_procs init_name kernel

first_slot :
    (started.procs.current ≡ some 0) × (get_elem? started.procs.procs 0 ≡ some (some first))
unfolding init Process.init Process.create Process.find_slot
first_slot = (refl, refl)
