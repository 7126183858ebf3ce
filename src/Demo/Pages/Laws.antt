-- ===== src/Demo/Pages/Laws.antt =====
-- Mapped pages: what a mapping makes findable, and pins that are undone.
use team_os_3_0_baios.Base.{
  ℕ, zero, suc, ◌+◌, ◌-◌, ◌^◌, ◌<◌, ◌≡◌, ◌≢◌, refl, ap, List, [], ◌∷◌, none, some, Bool, true,
  false, ◌&&◌, arith, ◌==◌, ltb, get_or, set, length, get_or-set_self, u32,
}
use team_os_3_0_baios.Demo.Search.{
  find_index-range, find_index-set, find_index-set-none, find_index-same,
}
use team_os_3_0_baios.Demo.Error.{ok}
use team_os_3_0_baios.Demo.Buddy.{page_size}
use team_os_3_0_baios.Demo.Pages.{
  Pages, Page, zero_page, page_at, new_page, max_mapped_pages, map_physical, map_page, get_page,
  pin_page, unpin_page,
}

-- There is room for one more page.
pub record IsOpen (s : Pages) : Type 0 where
  pub sized : length s.pages ≡ max_mapped_pages
  pub room : s.count < max_mapped_pages

abbrev pub is_live : ℕ → Page → Bool
is_live virt p = (p.virt == virt) && ltb 0 p.refcount

-- The state after a mapping.
abbrev pub mapped : Pages → ℕ → ℕ → Pages
mapped s phys flags = record {
  pages = set s.pages s.count (new_page phys flags);
  count = s.count + 1;
}

map_physical-eq :
    {s : Pages} (phys size flags : ℕ)
    → IsOpen s
    → size ≢ 0
    → map_physical s phys size flags ≡ (ok, phys, mapped s phys flags)
unfolding map_physical
map_physical-eq {s} phys size flags v some_size = ground (arith, v.room)

-- With room in the table, a mapping of at least one byte at an address that finds no page succeeds
-- and gives that address, which then finds the new page, with the flags given.
pub get_page-map_physical :
    {s : Pages} (phys size flags : ℕ)
    → IsOpen s
    → size ≢ 0
    → get_page s phys ≡ none
    → let (st, out, s') = map_physical s phys size flags in
      (st ≡ ok)
      × (out ≡ phys)
      × (get_page s' phys ≡ some s.count)
      × (page_at s' s.count ≡ new_page phys flags)
get_page-map_physical {s} phys size flags v some_size fresh =
    let p = new_page phys flags in
    let next : s.count + 1 ≡ suc s.count = omega arith in
    let range : s.count < length s.pages = omega (arith, v.sized, v.room) in
    let live : is_live phys p ≡ true = ground arith in
    rw (map_physical-eq phys size flags v some_size, next)
      (
        refl,
        refl,
        find_index-set (is_live phys) s.pages s.count p range fresh live,
        get_or-set_self s.pages s.count p zero_page range,
      )

map_page-eq :
    {s : Pages} (virt phys flags : ℕ)
    → IsOpen s
    → map_page s virt phys flags ≡ (ok, mapped s phys flags)
unfolding map_page
map_page-eq virt phys flags v =
    rw (map_physical-eq phys page_size flags v (λ e. absurd (omega arith))) refl

-- With room in the table, `baios_map_page` from an address that finds no page to a different
-- physical address succeeds, and the address still finds no page.
pub get_page-map_page :
    {s : Pages} (virt phys flags : ℕ)
    → IsOpen s
    → phys ≢ virt
    → get_page s virt ≡ none
    → let (st, s') = map_page s virt phys flags in (st ≡ ok) × (get_page s' virt ≡ none)
get_page-map_page {s} virt phys flags v differ fresh =
    let next : s.count + 1 ≡ suc s.count = omega arith in
    let dead : is_live virt (new_page phys flags) ≡ false = ground arith in
    rw (map_page-eq virt phys flags v, next)
      (refl, find_index-set-none (is_live virt) s.pages s.count (new_page phys flags) fresh dead)

set-get_or : (ps : List Page) (i : ℕ) (p : Page) → set (set ps i p) i (get_or ps i zero_page) ≡ ps
set-get_or [] i p = refl
set-get_or (x ∷ xs) zero p = refl
set-get_or (x ∷ xs) (suc i) p = ap (◌∷◌ x) (set-get_or xs i p)

-- A page that is found, with a count below the largest of a u32: pinning it succeeds, unpinning it
-- then succeeds, and the table is as it was.
pub unpin_page-pin_page :
    (s : Pages) (virt i : ℕ)
    → get_page s virt ≡ some i
    → (page_at s i).refcount + 1 < 2 ^ 32
    → let (st, s') = pin_page s virt in
      let (st', s'') = unpin_page s' virt in
      (st ≡ ok) × (get_page s' virt ≡ some i) × (st' ≡ ok) × (s'' ≡ s)
unfolding pin_page unpin_page
unpin_page-pin_page s virt i found small =
    let (low, range, live) = find_index-range (is_live virt) zero_page s.pages s.count i found in
    let p = page_at s i in
    let p' : Page = record p { refcount = u32 (p.refcount + 1) } in
    let live' : is_live virt p' ≡ true = ground arith in
    let again = find_index-same (is_live virt) s.pages s.count i p' found live' in
    let self = get_or-set_self s.pages i p' zero_page range in
    let more : ltb 0 (u32 (p.refcount + 1)) ≡ true = ground arith in
    let back : u32 (p.refcount + 1) - 1 ≡ p.refcount = omega arith in
    rw (found, again, self, more, back)
      (refl, refl, refl, ap (λ ps. record s { pages = ps }) (set-get_or s.pages i p'))
