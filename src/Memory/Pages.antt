-- ===== src/Memory/Pages.antt =====
-- The page descriptors, the statistics and the free lists of BIOS/src/hw/phys_memory.c, with the
-- types of BIOS/include/memory.h: what adding to and removing from a list writes.
use team_os_3_0_baios.Base.{
  leb, if◌then◌else◌, ℕ, ◌+◌, ◌*◌, ◌/◌, ◌^◌, Option, none, some, Bool, u64, sub64, update,
}

-- `BAIOS_PAGE_SIZE`
abbrev pub page_size : ℕ
page_size = 4096

-- `BAIOS_MAX_PHYS_PAGES`
abbrev pub max_phys_pages : ℕ
max_phys_pages = 2 ^ 20

-- `BAIOS_BUDDY_MAX_ORDER`
abbrev pub max_order : ℕ
max_order = 10

-- `baios_page_t`. Of the flags, bit 0 is `FREE`, bit 2 `KERNEL` and bit 3 `USER`.
pub record Page : Type 0 where
  pub pfn : ℕ
  pub order : ℕ
  pub flags : ℕ
  pub refcount : ℕ
  pub next : Option ℕ
  pub prev : Option ℕ

-- `baios_mem_stats_t`
pub record MemStats : Type 0 where
  pub total : ℕ
  pub free_pages : ℕ
  pub reserved_pages : ℕ
  pub kernel_pages : ℕ
  pub user_pages : ℕ
  pub peak_used : ℕ

abbrev pub zero_stats : MemStats
zero_stats = record {
  total = 0;
  free_pages = 0;
  reserved_pages = 0;
  kernel_pages = 0;
  user_pages = 0;
  peak_used = 0;
}

-- The file's static state: `heads` is `g_free_lists`, and `counts` is `g_free_count`.
pub record Memory : Type 0 where
  pub pages : ℕ → Page
  pub total_pages : ℕ
  pub phys_base : ℕ
  pub heads : ℕ → Option ℕ
  pub counts : ℕ → ℕ
  pub stats : MemStats
  pub ready : Bool

-- `order_to_pages`
abbrev pub order_to_pages : ℕ → ℕ
order_to_pages order = 2 ^ order

-- `baios_pfn_to_phys` and `baios_phys_to_pfn`
abbrev pub pfn_to_phys : ℕ → ℕ
pfn_to_phys pfn = u64 (pfn * page_size)

abbrev pub phys_to_pfn : ℕ → ℕ
phys_to_pfn phys = phys / page_size

-- `pfn_to_page`
abbrev pub pfn_to_page : Memory → ℕ → Option ℕ
pfn_to_page m pfn = if leb m.total_pages pfn then none else some pfn

-- `page->next = …` and the other writes to one descriptor.
abbrev pub set_next : (ℕ → Page) → ℕ → Option ℕ → ℕ → Page
set_next pages p q = update pages p (record (pages p) { next = q })

abbrev pub set_prev : (ℕ → Page) → ℕ → Option ℕ → ℕ → Page
set_prev pages p q = update pages p (record (pages p) { prev = q })

-- `(*head)->prev = page`, unless the list is empty.
abbrev pub link_head : (ℕ → Page) → Option ℕ → ℕ → ℕ → Page
link_head pages none p = pages
link_head pages (some h) p = set_prev pages h (some p)

-- `list_add`, on the descriptors and on the head.
unfoldable pub list_add : (ℕ → Page) → Option ℕ → ℕ → (ℕ → Page) × Option ℕ
list_add pages head p =
    (link_head (update pages p (record (pages p) { next = head; prev = none })) head p, some p)

-- `page->prev->next = page->next`, or the write to the head.
abbrev pub unlink_next : (ℕ → Page) → Option ℕ → ℕ → Option ℕ → (ℕ → Page) × Option ℕ
unlink_next pages head p none = (pages, (pages p).next)
unlink_next pages head p (some a) = (set_next pages a (pages p).next, head)

-- `page->next->prev = page->prev`, if there is a next page.
abbrev pub unlink_prev : (ℕ → Page) → ℕ → Option ℕ → ℕ → Page
unlink_prev pages p none = pages
unlink_prev pages p (some b) = set_prev pages b (pages p).prev

-- `list_remove`
unfoldable pub list_remove : (ℕ → Page) → Option ℕ → ℕ → (ℕ → Page) × Option ℕ
list_remove pages head p =
    let (pages1, head1) = unlink_next pages head p (pages p).prev in
    let pages2 = unlink_prev pages1 p (pages1 p).next in
    (update pages2 p (record (pages2 p) { next = none; prev = none }), head1)

-- `list_add(&g_free_lists[order], page); g_free_count[order]++`
unfoldable pub add_free : Memory → ℕ → ℕ → Memory
unfolding list_add
add_free m order p =
    let (pages, head) = list_add m.pages (m.heads order) p in
    record m {
      pages = pages;
      heads = update m.heads order head;
      counts = update m.counts order (u64 (m.counts order + 1));
    }

-- `list_remove(&g_free_lists[order], page); g_free_count[order]--`
unfoldable pub remove_free : Memory → ℕ → ℕ → Memory
unfolding list_remove
remove_free m order p =
    let (pages, head) = list_remove m.pages (m.heads order) p in
    record m {
      pages = pages;
      heads = update m.heads order head;
      counts = update m.counts order (sub64 (m.counts order) 1);
    }
