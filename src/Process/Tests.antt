-- ===== src/Process/Tests.antt =====
-- The theorems on the process table at tables of a few processes.
use team_os_3_0_baios.Base.{
  ℕ, ◌+◌, ◌≡◌, refl, List, [], ◌∷◌, some, true, false, arith, if◌then◌else◌, ◌==◌,
}
use team_os_3_0_baios.Types.{ok, normal, kernel}
use team_os_3_0_baios.Process.{Process, Procs, fresh_procs, init, create, find_slot, new_process}
use team_os_3_0_baios.Process.Table.{occupied, lookup}
use team_os_3_0_baios.Process.Valid.{IsValid, init-IsValid, create-IsValid}
use team_os_3_0_baios.Process.History.{Call, creates, exits, kills, run, Rising, run-IsValid}
use team_os_3_0_baios.Process.Laws.{create-lookup}

abbrev off : Procs
off = record fresh_procs { is_ready = false }

abbrev started : Procs
started = (init off).1

started-IsValid : IsValid started
started-IsValid = init-IsValid off refl

-- "sh"
abbrev shell : List ℕ
shell = 115 ∷ 104 ∷ []

empty_table : (occupied started.procs ≡ 0) × (started.next_pid ≡ 1)
unfolding init
empty_table = (refl, refl)

create-lookup_example :
    let (st, out, s') = create started (some shell) normal true true in
    (st ≡ ok)
    × (out ≡ some started.next_pid)
    × (lookup 1 s'.procs ≡ (
        if started.next_pid == 1
        then some (new_process started shell normal)
        else lookup 1 started.procs))
    × (s'.count ≡ started.count + 1)
create-lookup_example = create-lookup shell normal 1 started-IsValid (omega (arith, empty_table.0))

-- A table with one process, of pid 1.
abbrev one : Procs
one = (create started (some shell) normal true true).2

one-IsValid : IsValid one
one-IsValid =
    create-IsValid (some shell) normal true true (omega (arith, empty_table.1)) started-IsValid

abbrev shell_process : Process
shell_process = new_process started shell normal

shell_found : lookup 1 one.procs ≡ some shell_process
unfolding init create find_slot
shell_found = refl

-- A table whose pid counter has come round.
abbrev wrapped : Procs
wrapped = record fresh_procs { next_pid = 0 }

-- Two processes, of which the first exits and is removed, and a third.
abbrev calls : List Call
calls =
    creates (some shell) normal true true
    ∷ creates (some shell) kernel true true
    ∷ exits 1
    ∷ kills 1
    ∷ creates (some shell) normal true true
    ∷ []

run-IsValid_example :
    let (pids, s') = run started calls in IsValid s' × Rising started.next_pid pids
run-IsValid_example = run-IsValid calls started-IsValid (omega (arith, empty_table.1))
