-- ===== src/Demo/Pages.antt =====
-- The table of mapped pages of BIOS/hw/memory.c, lines 16 to 21 and 95 to 148.
mod Tests
pub mod Laws
use team_os_3_0_baios.Base.{
  ℕ, ◌+◌, ◌-◌, ◌%◌, ◌^◌, List, Option, none, some, Bool, true, false, ◌&&◌, ◌==◌, ltb, leb,
  if◌then◌else◌, get_or, set, u32,
}
use team_os_3_0_baios.Demo.Search.{find_index}
use team_os_3_0_baios.Demo.Error.{Error, ok, invalid_arg, no_memory, not_found}
use team_os_3_0_baios.Demo.Buddy.{page_size}

-- `MAX_MAPPED_PAGES`
abbrev pub max_mapped_pages : ℕ
max_mapped_pages = 1024

-- `baios_page_t`, with the fields that this file uses.
pub record Page : Type 0 where
  pub phys : ℕ
  pub virt : ℕ
  pub flags : ℕ
  pub refcount : ℕ
  pub owner : ℕ

abbrev pub zero_page : Page
zero_page = record { phys = 0; virt = 0; flags = 0; refcount = 0; owner = 0 }

-- The table of the file's static state.
pub record Pages : Type 0 where
  pub pages : List Page
  pub count : ℕ

abbrev pub page_at : Pages → ℕ → Page
page_at s i = get_or s.pages i zero_page

-- What `hw_mem_map_physical` writes.
abbrev pub new_page : ℕ → ℕ → Page
new_page phys flags = record { phys = phys; virt = phys; flags = flags; refcount = 1; owner = 0 }

-- `hw_mem_map_physical`, with a place for the address: the status and the address.
unfoldable pub map_physical : Pages → ℕ → ℕ → ℕ → Error × ℕ × Pages
map_physical s phys size flags =
    if size == 0
    then (invalid_arg, 0, s)
    else if leb max_mapped_pages s.count
    then (no_memory, 0, s)
    else (
      ok,
      phys,
      record { pages = set s.pages s.count (new_page phys flags); count = s.count + 1 },
    )

-- `baios_map_page`: the address that comes out is the function's own copy of `virt`.
unfoldable pub map_page : Pages → ℕ → ℕ → ℕ → Error × Pages
unfolding map_physical
map_page s virt phys flags = let (st, out, s') = map_physical s phys page_size flags in (st, s')

abbrev pub put_page : Pages → ℕ → Page → Pages
put_page s i p = record s { pages = set s.pages i p }

-- The search of `baios_unmap_page`.
abbrev pub find_virt : Pages → ℕ → Option ℕ
find_virt s virt = find_index (λ p. p.virt == virt) s.pages s.count

abbrev pub unmap_at : Pages → Option ℕ → Error × Pages
unmap_at s none = (not_found, s)
unmap_at s (some i) = (ok, put_page s i (record (page_at s i) { refcount = 0; virt = 0 }))

-- `baios_unmap_page`
unfoldable pub unmap_page : Pages → ℕ → Error × Pages
unmap_page s virt = unmap_at s (find_virt s virt)

-- `baios_get_page`: the place of the page in the table, none for the null pointer.
abbrev pub get_page : Pages → ℕ → Option ℕ
get_page s virt = find_index (λ p. (p.virt == virt) && ltb 0 p.refcount) s.pages s.count

abbrev pub pin_at : Pages → Option ℕ → Error × Pages
pin_at s none = (not_found, s)
pin_at s (some i) =
    (ok, put_page s i (record (page_at s i) { refcount = u32 ((page_at s i).refcount + 1) }))

-- `baios_pin_page`
unfoldable pub pin_page : Pages → ℕ → Error × Pages
pin_page s virt = pin_at s (get_page s virt)

abbrev pub unpin_at : Pages → Option ℕ → Error × Pages
unpin_at s none = (not_found, s)
unpin_at s (some i) =
    if ltb 0 (page_at s i).refcount
    then (ok, put_page s i (record (page_at s i) { refcount = (page_at s i).refcount - 1 }))
    else (ok, s)

-- `baios_unpin_page`
unfoldable pub unpin_page : Pages → ℕ → Error × Pages
unpin_page s virt = unpin_at s (get_page s virt)
