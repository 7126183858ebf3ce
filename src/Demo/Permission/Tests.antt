-- ===== src/Demo/Permission/Tests.antt =====
-- The theorems on permissions at a process with all capabilities and no record.
use team_os_3_0_baios.Base.{◌≤◌, ◌≡◌, ◌⊎◌, refl, [], ◌∷◌, some, true, false, arith, replicate}
use team_os_3_0_baios.Demo.Error.{ok, permission, no_memory}
use team_os_3_0_baios.Demo.Shm.{zero_region, max_shm_regions}
use team_os_3_0_baios.Demo.Process.{Sw, zero_proc, default_system, ready}
use team_os_3_0_baios.Demo.Permission.{
  Cap, Perms, read_file, camera, zero_record, max_perm_records, grant, request, check,
}
use team_os_3_0_baios.Demo.Permission.Laws.{check-grant, check-request}

abbrev no_records : Perms
no_records = record { records = replicate max_perm_records zero_record; count = 0; ready = true }

-- One process, with the pid 2 and the root capability.
abbrev one_proc : Sw
one_proc = record {
  pool = record zero_proc { pid = 2; state = ready; permissions = default_system } ∷ [];
  used = true ∷ [];
  process_list = some 0;
  current = some 0;
  next_pid = 3;
  process_count = 1;
  initialized = true;
  shm = record {
    table = replicate max_shm_regions zero_region;
    count = 0;
    next_handle = 1;
    initialized = true;
    heap_used = 0;
  };
}

had_all : check no_records one_proc 2 read_file ≡ true
unfolding check
had_all = refl

check-request_example :
    let (st, s') = request no_records 2 camera in
    (st ≡ permission) × ((c : Cap) → check s' one_proc 2 c ≡ false)
check-request_example = check-request no_records one_proc 2 camera refl (omega arith) refl refl

check-grant_example :
    let (st, s') = grant no_records 5 camera in
    (((st ≡ ok) × (check s' one_proc 5 camera ≡ true))
      ⊎ ((st ≡ no_memory) × (max_perm_records ≤ no_records.count)))
    × (check s' one_proc 2 read_file ≡ check no_records one_proc 2 read_file)
check-grant_example =
    check-grant no_records one_proc 5 2 camera read_file refl refl (λ e. cc)
      (λ e. absurd (omega arith))
