-- ===== src/Demo/Shm/History.antt =====
-- Histories of the calls of BIOS/ipc/shared_memory.c, from its start on.
use Prim.Native.String.{String}
use team_os_3_0_baios.Base.{
  ◌⊎◌, inl, inr, ℕ_discrete, ℕ, ◌+◌, ◌*◌, ◌≤◌, ◌<◌, ◌≡◌, List, [], ◌∷◌, Option, arith, length, u64,
}
use team_os_3_0_baios.Demo.Shm.{
  Shm, max_shm_regions, heap_size, region_at, create, attach, detach, destroy, mem_init, kmalloc,
  kcalloc, krealloc, mem_stats,
}
use team_os_3_0_baios.Demo.Shm.Layout.{add_shared-total}
use team_os_3_0_baios.Demo.Shm.Valid.{
  Fits, IsValid, create-IsValid, attach-IsValid, detach-IsValid, destroy-IsValid, mem_init-IsValid,
  kmalloc-IsValid, krealloc-IsValid,
}

-- A call that changes the state, with what it is given.
pub data Call : Type 0 where
  creates : (name : Option String) (size flags : ℕ) → Call
  attaches detaches destroys : (handle : ℕ) → Call
  kmallocs : (size : ℕ) → Call
  kcallocs : (n size : ℕ) → Call
  kreallocs : (ptr : Option ℕ) (size : ℕ) → Call
  starts : (base size : ℕ) → Call

-- Each size that a call asks for is at most 2 ^ 64 - 2 ^ 24 - 4096; `baios_kcalloc` asks for the
-- product of its arguments on u64.
abbrev pub AllFit : List Call → Type 0
AllFit [] = Unit {0}
AllFit (creates name size flags ∷ cs) = Fits size × AllFit cs
AllFit (kmallocs size ∷ cs) = Fits size × AllFit cs
AllFit (kcallocs n size ∷ cs) = Fits (u64 (n * size)) × AllFit cs
AllFit (kreallocs ptr size ∷ cs) = Fits size × AllFit cs
AllFit (attaches handle ∷ cs) = AllFit cs
AllFit (detaches handle ∷ cs) = AllFit cs
AllFit (destroys handle ∷ cs) = AllFit cs
AllFit (starts base size ∷ cs) = AllFit cs

module _ (heap : ℕ) (mark : ℕ → ℕ) (clip : String → String) where
  abbrev pub call : Shm → Call → Shm
  call s (creates name size flags) =
      let (st, out, s') = create heap mark clip s name size flags in s'
  call s (attaches handle) = let (st, out, s') = attach s handle in s'
  call s (detaches handle) = (detach s handle).1
  call s (destroys handle) = (destroy s handle).1
  call s (kmallocs size) = (kmalloc s size).1
  call s (kcallocs n size) = (kcalloc s n size).1
  call s (kreallocs ptr size) = (krealloc s ptr size).1
  call s (starts base size) = (mem_init s base size).1

  abbrev pub run : Shm → List Call → Shm
  run s [] = s
  run s (c ∷ cs) = run (call s c) cs

  pub run-IsValid :
      (cs : List Call) {s : Shm} → IsValid heap s → AllFit cs → IsValid heap (run s cs)
  unfolding kcalloc
  run-IsValid [] v fit = v
  run-IsValid (creates name size flags ∷ cs) v fit =
      run-IsValid cs (create-IsValid heap mark clip name size flags v fit.0) fit.1
  run-IsValid (attaches handle ∷ cs) v fit = run-IsValid cs (attach-IsValid handle v) fit
  run-IsValid (detaches handle ∷ cs) v fit = run-IsValid cs (detach-IsValid handle v) fit
  run-IsValid (destroys handle ∷ cs) v fit = run-IsValid cs (destroy-IsValid handle v) fit
  run-IsValid (kmallocs size ∷ cs) v fit = run-IsValid cs (kmalloc-IsValid size v fit.0) fit.1
  run-IsValid (kcallocs n size ∷ cs) v fit =
      run-IsValid cs (kmalloc-IsValid (u64 (n * size)) v fit.0) fit.1
  run-IsValid (kreallocs ptr size ∷ cs) v fit =
      run-IsValid cs (krealloc-IsValid ptr size v fit.0) fit.1
  run-IsValid (starts base size ∷ cs) {s} v fit =
      run-IsValid cs (mem_init-IsValid heap s base size v.sized) fit

  -- After `baios_mem_init`, on a table of 64 entries, and any calls that ask for at most
  -- 2^64 - 2^24 - 4096 bytes each: of two regions of the table that have memory, or of one taken
  -- twice, both lie within the 16 MiB of the heap, and the later one in the table starts where the
  -- earlier one ends or above, unless they are the same.
  pub run-apart :
      (s : Shm) (base size : ℕ) (cs : List Call) (i j : ℕ)
      → length s.table ≡ max_shm_regions
      → AllFit cs
      → let end = run (mem_init s base size).1 cs in
        i ≤ j
        → j < end.count
        → 0 < (region_at end i).size
        → 0 < (region_at end j).size
        → let a = region_at end i in
          let b = region_at end j in
          (heap ≤ a.base)
          × ((i ≡ j) ⊎ (a.base + a.size ≤ b.base))
          × (b.base + b.size ≤ heap + heap_size)
  run-apart s base size cs i j sized fit h c p q =
      let end = run (mem_init s base size).1 cs in
      let v = run-IsValid cs (mem_init-IsValid heap s base size sized) fit in
      let (low, high) = v.layout.inside i (omega arith) p in
      let (low', high') = v.layout.inside j c q in
      let apart : (i ≡ j)
          ⊎ ((region_at end i).base + (region_at end i).size ≤ (region_at end j).base) =
        elim (ℕ_discrete i j) [
          | yes same ↦ inl same
          | no ne ↦ inr (v.layout.apart i j (omega arith) c p q)
        ] in
      (low, apart, omega (arith, v.room))

  -- After `baios_mem_init`, on a table of 64 entries, and any calls that ask for at most
  -- 2^64 - 2^24 - 4096 bytes each: `baios_mem_stats` counts at most 64 regions, the used and the free
  -- bytes add up to the 16 MiB, and the shared bytes are at most the used ones.
  pub run-mem_stats :
      (s : Shm) (base size : ℕ) (cs : List Call)
      → length s.table ≡ max_shm_regions
      → AllFit cs
      → let stats = mem_stats (run (mem_init s base size).1 cs) in
        (stats.used_bytes + stats.free_bytes ≡ stats.total_bytes)
        × (stats.shared_bytes ≤ stats.used_bytes)
        × (stats.region_count ≤ max_shm_regions)
  unfolding mem_stats
  run-mem_stats s base size cs sized fit =
      let end = run (mem_init s base size).1 cs in
      let v = run-IsValid cs (mem_init-IsValid heap s base size sized) fit in
      (
        omega (arith, v.room),
        omega (arith, add_shared-total 0 end.table end.count, v.paid),
        v.counted,
      )
