-- ===== src/Demo/Shm/Tests.antt =====
-- The theorems on the shared regions at a few creations.
use Prim.Native.String.{String}
use team_os_3_0_baios.Base.{
  ℕ, ◌⊎◌, ◌+◌, ◌≤◌, ◌≡◌, refl, List, [], ◌∷◌, none, some, false, arith, length, replicate,
}
use team_os_3_0_baios.Demo.Error.{ok}
use team_os_3_0_baios.Demo.Shm.{
  Shm, zero_region, max_shm_regions, heap_size, region_at, create, attach, destroy, find, mem_init,
  sim_alloc, kmalloc, find_by_handle,
}
use team_os_3_0_baios.Demo.Shm.History.{Call, creates, attaches, kmallocs, AllFit, run, run-apart}
use team_os_3_0_baios.Demo.Shm.Handles.{attach-destroy, create-find}

abbrev fresh : Shm
fresh = record {
  table = replicate max_shm_regions zero_region;
  count = 0;
  next_handle = 1;
  initialized = false;
  heap_used = 0;
}

abbrev up : Shm
up = (mem_init fresh 0 heap_size).1

-- The heap at 65536, no flags added, names kept whole.
abbrev created : Shm → String → Shm
created s name = let (st, out, s') = create 65536 (λ f. f) (λ n. n) s (some name) 100 3 in s'

-- Two regions with memory given out between them.
abbrev calls : List Call
calls = creates (some "a") 100 3 ∷ kmallocs 5000 ∷ creates (some "b") 8192 3 ∷ attaches 1 ∷ []

abbrev end : Shm
end = run 65536 (λ f. f) (λ n. n) up calls

two_regions : (end.count ≡ 2) × ((region_at end 0).size ≡ 100) × ((region_at end 1).size ≡ 8192)
unfolding mem_init create sim_alloc attach kmalloc
two_regions = (refl, refl, refl)

calls-AllFit : AllFit calls
calls-AllFit = (omega arith, (omega arith, (omega arith, tt)))

run-apart_example :
    let a = region_at end 0 in
    let b = region_at end 1 in
    (65536 ≤ a.base)
    × ((◌≡◌ {A = ℕ} 0 1) ⊎ (a.base + a.size ≤ b.base))
    × (b.base + b.size ≤ 65536 + heap_size)
run-apart_example =
    run-apart 65536 (λ f. f) (λ n. n) fresh 0 heap_size calls 0 1 refl calls-AllFit (omega arith)
      (omega (arith, two_regions)) (omega (arith, two_regions)) (omega (arith, two_regions))

create-one : create 65536 (λ f. f) (λ n. n) up (some "a") 100 3 ≡ (ok, some 1, created up "a")
unfolding mem_init create sim_alloc
create-one = refl

up-table : (length up.table ≡ max_shm_regions) × (up.count ≡ 0)
unfolding mem_init
up-table = (refl, refl)

no_handle : find_by_handle up 1 ≡ none
unfolding mem_init
no_handle = refl

create-find_example :
    (find (created up "a") (some "a") ≡ (ok, some 1))
    × (let (st, out, s'') = attach (created up "a") 1 in
        (st ≡ ok) × (out ≡ some (65536 + up.heap_used)))
create-find_example =
    create-find 65536 (λ f. f) (λ n. n) up (created up "a") "a" 100 3 1 up-table.0 refl
      (λ e. absurd (omega arith)) no_handle create-one

destroy-one : destroy (created up "a") 1 ≡ (ok, (destroy (created up "a") 1).1)
unfolding mem_init create sim_alloc destroy
destroy-one = refl

attach-destroy_example : (attach (destroy (created up "a") 1).1 0).0 ≡ ok
attach-destroy_example =
    attach-destroy (created up "a") (destroy (created up "a") 1).1 1 destroy-one
