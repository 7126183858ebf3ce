-- ===== src/Demo/Process/Tests.antt =====
-- The theorems on the scheduler at two processes.
use team_os_3_0_baios.Base.{
  ◌+◌, ◌*◌, u64, ℕ, zero, suc, ◌<◌, ◌≡◌, ◌≢◌, ◌⊎◌, refl, [], ◌∷◌, some, true, arith, replicate,
  false, none,
}
use team_os_3_0_baios.Demo.Error.{ok, no_memory}
use team_os_3_0_baios.Demo.Shm.{heap_size, zero_region, max_shm_regions}
use team_os_3_0_baios.Demo.Process.{Sw, zero_proc, ready, running, terminated, proc_at, kill}
use team_os_3_0_baios.Types.{max_processes}
use team_os_3_0_baios.Demo.Process.{create}
use team_os_3_0_baios.Demo.Process.Built.{IsBuilt, create-Extended}
use team_os_3_0_baios.Demo.Process.Schedule.{tick}
use team_os_3_0_baios.Demo.Process.Live.{before, IsLinked}
use team_os_3_0_baios.Demo.Process.Revive.{Ticked, tick-Ticked, tick-kill}

-- The second process runs, the first is ready.
abbrev two_procs : Sw
two_procs = record {
  pool =
      record zero_proc { pid = 1; state = ready }
      ∷ record zero_proc { pid = 2; state = running; next = some 0 }
      ∷ [];
  used = true ∷ true ∷ [];
  process_list = some 1;
  current = some 1;
  next_pid = 3;
  process_count = 2;
  initialized = true;
  shm = record {
    table = replicate max_shm_regions zero_region;
    count = 0;
    next_handle = 1;
    initialized = true;
    heap_used = 0;
  };
}

two-links : (i : ℕ) → i < 2 → (proc_at two_procs i).next ≡ before i
two-links zero h = refl
two-links (suc zero) h = refl
two-links (suc (suc i)) h = absurd (omega arith)

two_procs-IsLinked : IsLinked 2 two_procs
two_procs-IsLinked = record {
  sized = omega arith;
  list = refl;
  links = two-links;
  current_in = λ c e. ground (arith, e);
}

tick-Ticked_example : Ticked 2 two_procs (tick 2 two_procs)
tick-Ticked_example = tick-Ticked two_procs-IsLinked

tick-kill_example :
    let (st, s1) = kill two_procs 2 9 in
    (st ≡ ok)
    × ((proc_at s1 1).state ≡ terminated)
    × ((s2 : Sw) × (tick 2 s1 ≡ some s2) × (s2.current ≢ some 1) × ((proc_at s2 1).state ≡ ready))
tick-kill_example =
    tick-kill 2 9 1 0 two_procs-IsLinked refl refl (omega arith) (λ e. absurd (omega arith)) refl

-- No process, and the whole heap free.
abbrev no_procs : Sw
no_procs = record two_procs {
  pool = replicate max_processes zero_proc;
  used = replicate max_processes false;
  process_list = none;
  current = none;
  next_pid = 1;
  process_count = 0;
}

-- How many places are in use.
abbrev no_places : ℕ
no_places = 0

no_procs-IsBuilt : IsBuilt 0 no_procs
no_procs-IsBuilt = record {
  linked = record {
    sized = omega arith;
    list = refl;
    links = λ i h. absurd (omega arith);
    current_in = λ c e. ground (arith, e);
  };
  whole = refl;
  marked = refl;
  few = omega arith;
}

create-Extended_example :
    let (st, pid, s') = create 65536 (λ n. n) no_procs (some "idle") 0 0 in
    (proc_at s' 7 ≡ proc_at no_procs 7)
    × (((st ≡ ok)
          × (pid ≡ some 1)
          × IsBuilt 1 s'
          × ((proc_at s' 0).pid ≡ 1)
          × ((proc_at s' 0).state ≡ ready)
          × ((proc_at s' 0).stack_base ≡ 65536 + no_procs.shm.heap_used))
        ⊎ ((st ≡ no_memory)
            × (pid ≡ none)
            × IsBuilt 0 s'
            × ((no_places ≡ max_processes)
                ⊎ (heap_size < u64 (no_procs.shm.heap_used + 64 * 1024)))))
create-Extended_example =
    create-Extended 65536 (λ n. n) no_procs "idle" 0 0 7 no_procs-IsBuilt
      (λ e. absurd (omega arith))
