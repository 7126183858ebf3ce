-- ===== src/Demo/Pages/Tests.antt =====
-- The theorem on mappings at a table without pages.
use team_os_3_0_baios.Base.{◌≡◌, refl, none, arith, replicate}
use team_os_3_0_baios.Demo.Error.{ok}
use team_os_3_0_baios.Demo.Pages.{Pages, zero_page, max_mapped_pages, map_page, get_page}
use team_os_3_0_baios.Demo.Pages.Laws.{IsOpen, get_page-map_page}

abbrev no_pages : Pages
no_pages = record { pages = replicate max_mapped_pages zero_page; count = 0 }

no_pages-IsOpen : IsOpen no_pages
no_pages-IsOpen = record { sized = refl; room = omega arith }

get_page-map_page_example :
    let (st, s') = map_page no_pages 8192 4096 3 in (st ≡ ok) × (get_page s' 8192 ≡ none)
get_page-map_page_example =
    get_page-map_page 8192 4096 3 no_pages-IsOpen (λ e. absurd (omega arith)) refl
