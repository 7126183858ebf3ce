-- ===== src/Demo/Shm.antt =====
-- The shared regions and the simulated heap of BIOS/ipc/shared_memory.c.
-- No header declares the region type, its flags or the length of its name, so three things are
-- given: `heap`, the address of the simulated heap; `mark`, which sets the two flags of a shared
-- region; and `clip`, what a name becomes in the field it is copied to.
-- The contents of the memory are outside.
mod Tests
pub mod Layout
pub mod Valid
pub mod History
pub mod Handles
use Prim.Native.String.{String}
use team_os_3_0_baios.Base.{
  ℕ, zero, suc, ◌+◌, ◌-◌, ◌*◌, ◌%◌, ◌^◌, List, [], ◌∷◌, Option, none, some, Bool, true, false, not,
  ◌&&◌, ◌==◌, leb, ltb, if◌then◌else◌, get_or, set, u32, u64, sub64, str_eq,
}
use mathlib.Core.Option
use team_os_3_0_baios.Demo.Search.{find_index}
use team_os_3_0_baios.Demo.Error.{
  Error, ok, invalid_arg, busy, no_memory, not_found, already_exists,
}

-- `MAX_SHM_REGIONS`
abbrev pub max_shm_regions : ℕ
max_shm_regions = 64

-- `sizeof(g_sim_heap)`
abbrev pub heap_size : ℕ
heap_size = 16 * 1024 * 1024

-- `baios_shm_region_t`
pub record ShmRegion : Type 0 where
  pub handle : ℕ
  pub base : ℕ
  pub size : ℕ
  pub flags : ℕ
  pub creator : ℕ
  pub refcount : ℕ
  pub name : String

abbrev pub zero_region : ShmRegion
zero_region = record {
  handle = 0;
  base = 0;
  size = 0;
  flags = 0;
  creator = 0;
  refcount = 0;
  name = "";
}

-- The static state of the file.
pub record Shm : Type 0 where
  pub table : List ShmRegion
  pub count : ℕ
  pub next_handle : ℕ
  pub initialized : Bool
  pub heap_used : ℕ

abbrev pub region_at : Shm → ℕ → ShmRegion
region_at s i = get_or s.table i zero_region

-- `BAIOS_ALIGN_UP(size, BAIOS_PAGE_SIZE)`
abbrev pub align_up : ℕ → ℕ
align_up size = u64 (size + 4095) - u64 (size + 4095) % 4096

-- `sim_alloc`: the offset in the heap, if there is room.
unfoldable pub sim_alloc : Shm → ℕ → Option ℕ × Shm
sim_alloc s size =
    if ltb heap_size (u64 (s.heap_used + align_up size))
    then (none, s)
    else (some s.heap_used, record s { heap_used = u64 (s.heap_used + align_up size) })

-- `find_by_handle`
abbrev pub find_by_handle : Shm → ℕ → Option ℕ
find_by_handle s handle = find_index (λ r. r.handle == handle) s.table s.count

-- The search of `baios_shm_create` for the name it is given.
abbrev pub name_taken : Shm → String → Option ℕ
name_taken s name = find_index (λ r. str_eq r.name name) s.table s.count

-- The search of `baios_shm_find`.
abbrev pub find_named : Shm → String → Option ℕ
find_named s name = find_index (λ r. not (r.handle == 0) && str_eq r.name name) s.table s.count

module _ (heap : ℕ) (mark : ℕ → ℕ) (clip : String → String) where
  -- What `baios_shm_create` writes.
  abbrev pub new_region : Shm → ℕ → String → ℕ → ℕ → ShmRegion
  new_region s offset name size flags = record {
    handle = s.next_handle;
    base = heap + offset;
    size = size;
    flags = mark flags;
    creator = 0;
    refcount = 1;
    name = clip name;
  }

  -- `baios_shm_create`, once the region has its memory, if it has.
  abbrev pub add_region : Option ℕ × Shm → String → ℕ → ℕ → Error × Option ℕ × Shm
  add_region (none, s) name size flags = (no_memory, none, s)
  add_region (some offset, s) name size flags = (
    ok,
    some s.next_handle,
    record s {
      table = set s.table s.count (new_region s offset name size flags);
      count = s.count + 1;
      next_handle = u64 (s.next_handle + 1);
    },
  )

  abbrev pub create_named : Shm → Option ℕ → String → ℕ → ℕ → Error × Option ℕ × Shm
  create_named s (some i) name size flags = (already_exists, none, s)
  create_named s none name size flags = add_region (sim_alloc s size) name size flags

  -- `baios_shm_create`, with a place for the handle: the status and the handle.
  unfoldable pub create : Shm → Option String → ℕ → ℕ → Error × Option ℕ × Shm
  create s none size flags = (invalid_arg, none, s)
  create s (some name) size flags =
      if size == 0
      then (invalid_arg, none, s)
      else if leb max_shm_regions s.count
      then (no_memory, none, s)
      else create_named s (name_taken s name) name size flags

-- A write to an entry of the table.
abbrev pub put_region : Shm → ℕ → ShmRegion → Shm
put_region s i r = record s { table = set s.table i r }

-- `baios_shm_attach`, on the entry found: the status and the address.
abbrev pub attach_at : Shm → Option ℕ → Error × Option ℕ × Shm
attach_at s none = (not_found, none, s)
attach_at s (some i) =
    let r = region_at s i in
    (ok, some r.base, put_region s i (record r { refcount = u32 (r.refcount + 1) }))

-- `baios_shm_attach`, with a place for the address.
unfoldable pub attach : Shm → ℕ → Error × Option ℕ × Shm
attach s handle = attach_at s (find_by_handle s handle)

abbrev pub detach_at : Shm → Option ℕ → Error × Shm
detach_at s none = (not_found, s)
detach_at s (some i) =
    let r = region_at s i in
    if ltb 0 r.refcount
    then (ok, put_region s i (record r { refcount = r.refcount - 1 }))
    else (ok, s)

-- `baios_shm_detach`
unfoldable pub detach : Shm → ℕ → Error × Shm
detach s handle = detach_at s (find_by_handle s handle)

-- What is left of a region that is destroyed.
abbrev pub cleared : ShmRegion → ShmRegion
cleared r = record r { handle = 0; base = 0; size = 0; refcount = 0; name = "" }

abbrev pub destroy_at : Shm → Option ℕ → Error × Shm
destroy_at s none = (not_found, s)
destroy_at s (some i) =
    if ltb 1 (region_at s i).refcount
    then (busy, s)
    else (ok, put_region s i (cleared (region_at s i)))

-- `baios_shm_destroy`
unfoldable pub destroy : Shm → ℕ → Error × Shm
destroy s handle = destroy_at s (find_by_handle s handle)

abbrev pub found_at : Shm → Option ℕ → Error × Option ℕ
found_at s none = (not_found, none)
found_at s (some i) = (ok, some (region_at s i).handle)

-- `baios_shm_find`, with a place for the handle.
unfoldable pub find : Shm → Option String → Error × Option ℕ
find s none = (invalid_arg, none)
find s (some name) = found_at s (find_named s name)

-- `baios_mem_init`: neither argument is used, and the entries keep what they hold.
unfoldable pub mem_init : Shm → ℕ → ℕ → Error × Shm
mem_init s heap_base size =
    (ok, record s { heap_used = 0; count = 0; next_handle = 1; initialized = true })

-- `baios_kmalloc`: the offset in the heap, none for the null pointer.
unfoldable pub kmalloc : Shm → ℕ → Option ℕ × Shm
kmalloc s size = if size == 0 then (none, s) else sim_alloc s size

-- `baios_kcalloc`
unfoldable pub kcalloc : Shm → ℕ → ℕ → Option ℕ × Shm
kcalloc s n size = kmalloc s (u64 (n * size))

-- `baios_kfree`
abbrev pub kfree : Shm → Option ℕ → Shm
kfree s ptr = s

-- `baios_krealloc`: the copy is of contents, which are outside.
unfoldable pub krealloc : Shm → Option ℕ → ℕ → Option ℕ × Shm
krealloc s none size = kmalloc s size
krealloc s (some ptr) size = if size == 0 then (none, kfree s (some ptr)) else kmalloc s size

-- `baios_mem_stats_t`, as this file uses it.
pub record MemStats : Type 0 where
  pub total_bytes : ℕ
  pub used_bytes : ℕ
  pub free_bytes : ℕ
  pub shared_bytes : ℕ
  pub peak_used : ℕ
  pub region_count : ℕ
  pub page_faults : ℕ

-- The loop of `baios_mem_stats` over the first `n` entries.
abbrev pub add_shared : ℕ → List ShmRegion → ℕ → ℕ
add_shared acc [] n = acc
add_shared acc (r ∷ rs) zero = acc
add_shared acc (r ∷ rs) (suc n) =
    add_shared (if r.handle == 0 then acc else u64 (acc + r.size)) rs n

-- `baios_mem_stats`, with a place for the result.
unfoldable pub mem_stats : Shm → MemStats
mem_stats s = record {
  total_bytes = heap_size;
  used_bytes = s.heap_used;
  free_bytes = sub64 heap_size s.heap_used;
  shared_bytes = add_shared 0 s.table s.count;
  peak_used = s.heap_used;
  region_count = s.count;
  page_faults = 0;
}
