-- ===== src/Demo/Kernel/Tests.antt =====
-- The theorems on the kernel at a start with eleven orders and rings of four slots.
use team_os_3_0_baios.Base.{◌+◌, ◌<◌, ◌^◌, ◌≡◌, refl, [], some, false, arith, replicate}
use team_os_3_0_baios.Demo.Error.{ok}
use team_os_3_0_baios.Demo.Shm.{
  Shm, zero_region, max_shm_regions, mem_init, create, sim_alloc, attach, kmalloc,
}
use team_os_3_0_baios.Demo.Buddy.{init_buddy}
use team_os_3_0_baios.Demo.Softirq.{zero_item, max_softirq}
use team_os_3_0_baios.Demo.Irq.{Invocation, register}
use team_os_3_0_baios.Demo.Irq
use team_os_3_0_baios.Demo.Chrdev.{compat_init, register_chrdev}
use team_os_3_0_baios.Demo.Channel.{Env, Ipc, create_channel}
use team_os_3_0_baios.Demo.Channel
use team_os_3_0_baios.Demo.Kernel.{Kernel, zero_hw, init, main_loop}
use team_os_3_0_baios.Demo.Kernel.Heartbeat.{IsTicking, main_loop-heartbeat}
use team_os_3_0_baios.Demo.Kernel.Start.{init-IsTicking}

abbrev env : Env
env = record {
  slots = 4;
  ring_size = 512;
  magic = 77;
  access = 3;
  notify = 1;
  request = 2;
  hw_id = 1;
  sw_id = 2;
  no_reply = 4;
  heap = 65536;
  mark = λ f. f;
  clip = λ n. n;
  clip_channel = λ n. n;
  raw = λ c offset n. [];
}

abbrev no_regions : Shm
no_regions = record {
  table = replicate max_shm_regions zero_region;
  count = 0;
  next_handle = 1;
  initialized = false;
  heap_used = 0;
}

-- All static memory at 0, but for the counter of handles, which starts at 1.
abbrev off : Kernel
off = record {
  hw = zero_hw;
  buddy = record {
    heap_base = 0;
    heap_size = 0;
    total_pages = 0;
    used_pages = 0;
    free_list = replicate 11 0;
    free_count = replicate 11 0;
    ready = false;
  };
  irqs = record { table = []; ready = false };
  softirqs = record { queue = replicate max_softirq zero_item; head = 0; tail = 0 };
  devs = record { drivers = []; ready = false; shm = no_regions };
  ipc = record { shm = no_regions; channels = []; count = 0; ready = false; main = 0 };
}

abbrev up : Kernel
up = (init env 11 128 (λ n. n) off 7).1

init-ok : (init env 11 128 (λ n. n) off 7).0 ≡ ok
unfolding init mem_init init_buddy Irq.init register compat_init register_chrdev kmalloc sim_alloc
    Channel.init create_channel create attach
init-ok = refl

init-IsTicking_example : IsTicking up × (up.hw.heartbeat ≡ 0) × (up.hw.boot_time_ns ≡ 7)
init-IsTicking_example = init-IsTicking env 11 128 (λ n. n) off 7 init-ok

up-IsTicking : IsTicking up × (up.hw.heartbeat ≡ 0) × (up.hw.boot_time_ns ≡ 7)
up-IsTicking = init-IsTicking env 11 128 (λ n. n) off 7 init-ok

up-heartbeat : up.hw.heartbeat + 20 < 2 ^ 64
up-heartbeat = let (t, zero_beats, at) = up-IsTicking in omega (arith, zero_beats)

-- No softirq raises another, and no other handler is registered.
main_loop-heartbeat_example :
    (k' : Kernel) × (main_loop (λ x. []) (λ inv k. k) env 1 up ≡ some k')
    × IsTicking k'
    × (k'.hw.heartbeat ≡ up.hw.heartbeat + 20)
main_loop-heartbeat_example =
    main_loop-heartbeat (λ x. []) (λ inv k. k) env 0 up up-IsTicking.0 up-heartbeat
