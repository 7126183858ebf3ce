-- ===== src/Demo/Softirq/Tests.antt =====
-- The theorems on the softirq queue at a queue that wraps, with a function that raises another.
use team_os_3_0_baios.Base.{
  ℕ, ◌≡◌, refl, List, [], ◌∷◌, ◌++◌, some, ◌==◌, if◌then◌else◌, arith, set, replicate,
}
use team_os_3_0_baios.Queue.{enqueue}
use team_os_3_0_baios.Demo.Softirq.{Softirqs, Item, zero_item, max_softirq, process}
use team_os_3_0_baios.Demo.Softirq.Refine.{
  IsValid, waiting, run_queue, calls_of, Ended, process_refines, put,
}
use team_os_3_0_baios.Demo.Softirq.Liveness.{Lighter, process-ends}

abbrev first : Item
first = record { fn = 5; arg = 1 }

abbrev second : Item
second = record { fn = 6; arg = 2 }

abbrev late : Item
late = record { fn = 7; arg = 3 }

-- The function 5 raises the function 7.
abbrev raised_by : Item → List Item
raised_by item = if item.fn == 5 then late ∷ [] else []

abbrev weight : Item → ℕ
weight item = if item.fn == 5 then 2 else 1

-- The first item in the last place, the second in the place 0.
abbrev two_waiting : Softirqs
two_waiting = record {
  queue = set (set (replicate max_softirq zero_item) 31 first) 0 second;
  head = 1;
  tail = 31;
}

two_waiting-IsValid : IsValid two_waiting
two_waiting-IsValid = record {
  sized = refl;
  head_in = omega arith;
  tail_in = omega arith;
  set_all = (λ e. absurd (omega arith), (λ e. absurd (omega arith), tt));
}

weight-Lighter : Lighter weight raised_by
weight-Lighter x = ground arith

process_refines_example :
    (calls_of (process raised_by 4 two_waiting) ≡ run_queue raised_by 4 (waiting two_waiting))
    × Ended (process raised_by 4 two_waiting)
process_refines_example = process_refines raised_by 4 two_waiting-IsValid

runs_late : run_queue raised_by 4 (waiting two_waiting) ≡ some (first ∷ second ∷ late ∷ [])
unfolding run_queue put enqueue
runs_late = refl

process-ends_example :
    (rest : List Item) × (s' : Softirqs) × (process raised_by 4 two_waiting
      ≡ some (waiting two_waiting ++ rest, s'))
    × (waiting s' ≡ [])
    × IsValid s'
process-ends_example =
    process-ends weight raised_by 4 weight-Lighter two_waiting-IsValid (omega arith)
