-- ===== src/Demo/Process/Built.antt =====
-- The pool and the list that creations of BIOS/sw/process_manager.cpp build.
use Prim.Native.String.{String}
use team_os_3_0_baios.Base.{
  u64, ℕ, zero, suc, ◌+◌, ◌-◌, ◌*◌, ◌≤◌, ◌<◌, ◌≡◌, ◌≢◌, ◌⊎◌, ◌∙◌, inl, inr, refl, sym, ap, subst,
  List, ◌∷◌, ◌++◌, Option, none, some, Bool, true, false, arith, length, length-set, get_or, set,
  replicate, get_or-set_self, get_or-set_ne, ℕ_discrete,
}
use mathlib.Core.Option
use team_os_3_0_baios.Types.{max_processes}
use team_os_3_0_baios.Demo.Error.{Error, ok, no_memory}
use team_os_3_0_baios.Demo.Shm.{Shm, heap_size}
use team_os_3_0_baios.Demo.Shm
use team_os_3_0_baios.Demo.Process.{
  proc_at, ready, Sw, Proc, zero_proc, find_free, new_proc, place, create_at, create,
}
use team_os_3_0_baios.Demo.Process.Live.{before, IsLinked}

-- The marks when the first `n` places are in use, and `k` are not.
abbrev marks : (n k : ℕ) → List Bool
marks n k = replicate n true ++ replicate k false

-- The first `n` of the 256 places are in use and linked in the order in which they were taken.
pub record IsBuilt (n : ℕ) (s : Sw) : Type 0 where
  pub linked : IsLinked n s
  pub whole : length s.pool ≡ max_processes
  pub marked : s.used ≡ marks n (max_processes - n)
  pub few : n ≤ max_processes

find_free-marks : (n k : ℕ) → find_free (marks n (suc k)) ≡ some n
find_free-marks zero k = refl
find_free-marks (suc n) k = ap (Option.map suc) (find_free-marks n k)

find_free-full : (n : ℕ) → find_free (marks n 0) ≡ none
find_free-full zero = refl
find_free-full (suc n) = ap (Option.map suc) (find_free-full n)

set-marks : (n k : ℕ) → set (marks n (suc k)) n true ≡ marks (suc n) k
set-marks zero k = refl
set-marks (suc n) k = ap (◌∷◌ true) (set-marks n k)

-- A place above those in use written over.
written-IsLinked :
    {n : ℕ} (s : Sw) (p : Proc)
    → IsLinked n s
    → (i : ℕ) → i < n
    → (get_or (set s.pool n p) i zero_proc).next ≡ before i
written-IsLinked {n} s p l i h =
    let ne : n ≢ i = λ e. absurd (omega arith) in
    ap (λ (x : Proc). x.next) (get_or-set_ne s.pool n i p zero_proc ne) ∙ l.links i h

-- A stack is refused when the heap has no room for it, and lies where the used part ended.
kmalloc-none :
    (s s' : Shm)
    → Shm.kmalloc s (64 * 1024) ≡ (none, s')
    → heap_size < u64 (s.heap_used + 64 * 1024)
unfolding Shm.kmalloc Shm.sim_alloc
kmalloc-none s s' e = ground arith

kmalloc-some :
    (s s' : Shm) (offset : ℕ) → Shm.kmalloc s (64 * 1024) ≡ (some offset, s') → offset ≡ s.heap_used
unfolding Shm.kmalloc Shm.sim_alloc
kmalloc-some s s' offset e = ground arith

module _ (heap : ℕ) (clip : String → String) where
  -- What a creation comes to, with `i` a place that it does not take: one more process, with the
  -- next pid, ready, and with its stack where the used part of the heap ended; or no memory, for one
  -- of the two reasons.
  abbrev Extended : Sw → (n i : ℕ) → Error × Option ℕ × Sw → Type 0
  Extended s n i (st, pid, s') =
      (proc_at s' i ≡ proc_at s i)
      × (((st ≡ ok)
            × (pid ≡ some s.next_pid)
            × IsBuilt (suc n) s'
            × ((proc_at s' n).pid ≡ s.next_pid)
            × ((proc_at s' n).state ≡ ready)
            × ((proc_at s' n).stack_base ≡ heap + s.shm.heap_used))
          ⊎ ((st ≡ no_memory)
              × (pid ≡ none)
              × IsBuilt n s'
              × ((n ≡ max_processes) ⊎ (heap_size < u64 (s.shm.heap_used + 64 * 1024)))))

  place-Extended :
      {n : ℕ} (s : Sw) (name : String) (entry prio i : ℕ) (m : Option ℕ × Shm)
      → Shm.kmalloc s.shm (64 * 1024) ≡ m
      → IsBuilt n s
      → n < max_processes
      → i ≢ n
      → Extended s n i (place heap clip s n name entry prio m)
  place-Extended {n} s name entry prio i (none, shm) e b room ne =
      let p = new_proc heap clip s name entry prio 0 in
      (
        get_or-set_ne s.pool n i p zero_proc (λ x. ne (sym x)),
        inr (
          refl,
          refl,
          record {
            linked = record {
              sized = omega (arith, length-set s.pool n p, b.linked.sized);
              list = b.linked.list;
              links = written-IsLinked s p b.linked;
              current_in = b.linked.current_in;
            };
            whole = length-set s.pool n p ∙ b.whole;
            marked = b.marked;
            few = b.few;
          },
          inr (kmalloc-none s.shm shm e),
        ),
      )
  place-Extended {n} s name entry prio i (some offset, shm) e b room ne =
      let p : Proc = record (new_proc heap clip s name entry prio (heap + offset)) {
        next = s.process_list;
      } in
      let left : max_processes - n ≡ suc (max_processes - suc n) = omega arith in
      let long = length-set s.pool n p in
      let self : get_or (set s.pool n p) n zero_proc ≡ p =
        get_or-set_self s.pool n p zero_proc (omega (arith, b.whole)) in
      let own : (get_or (set s.pool n p) n zero_proc).next ≡ before n =
        ap (λ (x : Proc). x.next) self ∙ b.linked.list in
      (
        get_or-set_ne s.pool n i p zero_proc (λ x. ne (sym x)),
        inl (
          refl,
          refl,
          record {
            linked = record {
              sized = omega (arith, long, b.whole);
              list = refl;
              links = λ j h. elim (ℕ_discrete j n) [
                | yes same ↦
                    subst (λ k. (get_or (set s.pool n p) k zero_proc).next ≡ before k) (sym same)
                      own
                | no other ↦ written-IsLinked s p b.linked j (omega arith)
              ];
              current_in = λ c cur. let low = b.linked.current_in c cur in omega arith;
            };
            whole = long ∙ b.whole;
            marked =
                ap (λ us. set us n true) (b.marked ∙ ap (marks n) left)
                ∙ set-marks n (max_processes - suc n);
            few = omega arith;
          },
          ap (λ (x : Proc). x.pid) self,
          ap (λ (x : Proc). x.state) self,
          ap (λ (x : Proc). x.stack_base) self
              ∙ ap (λ o. heap + o) (kmalloc-some s.shm shm offset e),
        ),
      )

  -- With the first `n` of the 256 places in use, linked in the order in which they were taken, the
  -- creation of a named process leaves every place but place `n` as it was. It either succeeds: then
  -- it gives the next pid, the first `n + 1` places are in use and so linked, and the last of them
  -- has that pid, is ready, and has its stack where the used part of the heap ended. Or it says
  -- no_memory and gives no pid, the first `n` places are still in use and so linked, and all 256 were
  -- in use or the 16 MiB of the heap had no room for the 64 KiB of the stack.
  pub create-Extended :
      {n : ℕ} (s : Sw) (name : String) (entry prio i : ℕ)
      → IsBuilt n s
      → i ≢ n
      → let (st, pid, s') = create heap clip s (some name) entry prio in
        (proc_at s' i ≡ proc_at s i)
        × (((st ≡ ok)
              × (pid ≡ some s.next_pid)
              × IsBuilt (suc n) s'
              × ((proc_at s' n).pid ≡ s.next_pid)
              × ((proc_at s' n).state ≡ ready)
              × ((proc_at s' n).stack_base ≡ heap + s.shm.heap_used))
            ⊎ ((st ≡ no_memory)
                × (pid ≡ none)
                × IsBuilt n s'
                × ((n ≡ max_processes) ⊎ (heap_size < u64 (s.shm.heap_used + 64 * 1024)))))
  unfolding create
  create-Extended {n} s name entry prio i b ne = elim (ℕ_discrete n max_processes) [
    | yes e ↦
        let none_left : max_processes - n ≡ 0 = omega arith in
        let full : find_free s.used ≡ none =
          ap find_free (b.marked ∙ ap (marks n) none_left) ∙ find_free-full n in
        subst (λ o. Extended s n i (create_at heap clip s o name entry prio)) (sym full)
          (refl, inr (refl, refl, b, inl e))
    | no open_place ↦
        let room : n < max_processes = omega (arith, b.few) in
        let left : max_processes - n ≡ suc (max_processes - suc n) = omega arith in
        let free : find_free s.used ≡ some n =
          ap find_free (b.marked ∙ ap (marks n) left) ∙ find_free-marks n (max_processes - suc n) in
        subst (λ o. Extended s n i (create_at heap clip s o name entry prio)) (sym free)
          (place-Extended s name entry prio i (Shm.kmalloc s.shm (64 * 1024)) refl b room ne)
  ]
