-- ===== src/Memory/Free.antt =====
-- Giving a block back: the flags that mark its first page, and a second call for the same block.
use team_os_3_0_baios.Base.{
  ℕ, zero, suc, ◌+◌, ◌-◌, ◌≤◌, ◌<◌, ◌≡◌, refl, Option, none, some, true, false, arith, min, has_bit,
  flip_bit, update, ◌==◌, ◌∙◌, ap, Bool-cases, inl, inr,
}
use team_os_3_0_baios.Memory.{
  Memory, Page, max_order, order_to_pages, list_add, list_remove, add_free, remove_free, merges,
  merge_once, merge, count_given, free_pages, link_head, unlink_next, unlink_prev,
}

-- A write to one page that keeps its flags keeps all flags.
update-flags :
    (pages : ℕ → Page) (p x : ℕ) (v : Page)
    → v.flags ≡ (pages p).flags
    → (update pages p v x).flags ≡ (pages x).flags
update-flags pages p x v e = elim (Bool-cases (p == x)) [
  | inl h ↦ rw h (e ∙ ap (λ i. (pages i).flags) (same p x h))
  | inr h ↦ rw h refl
]
  where
    same : (a b : ℕ) → ((a == b) ≡ true) → a ≡ b
    same a b h = ground arith

link_head-flags :
    (pages : ℕ → Page) (head : Option ℕ) (p x : ℕ)
    → (link_head pages head p x).flags ≡ (pages x).flags
link_head-flags pages none p x = refl
link_head-flags pages (some h) p x =
    update-flags pages h x (record (pages h) { prev = some p }) refl

list_add-flags :
    (pages : ℕ → Page) (head : Option ℕ) (p x : ℕ)
    → ((list_add pages head p).0 x).flags ≡ (pages x).flags
unfolding list_add
list_add-flags pages head p x =
    link_head-flags (update pages p (record (pages p) { next = head; prev = none })) head p x
    ∙ update-flags pages p x (record (pages p) { next = head; prev = none }) refl

unlink_next-flags :
    (pages : ℕ → Page) (head : Option ℕ) (p : ℕ) (before : Option ℕ) (x : ℕ)
    → ((unlink_next pages head p before).0 x).flags ≡ (pages x).flags
unlink_next-flags pages head p none x = refl
unlink_next-flags pages head p (some a) x =
    update-flags pages a x (record (pages a) { next = (pages p).next }) refl

unlink_prev-flags :
    (pages : ℕ → Page) (p : ℕ) (after : Option ℕ) (x : ℕ)
    → (unlink_prev pages p after x).flags ≡ (pages x).flags
unlink_prev-flags pages p none x = refl
unlink_prev-flags pages p (some b) x =
    update-flags pages b x (record (pages b) { prev = (pages p).prev }) refl

list_remove-flags :
    (pages : ℕ → Page) (head : Option ℕ) (p x : ℕ)
    → ((list_remove pages head p).0 x).flags ≡ (pages x).flags
unfolding list_remove
list_remove-flags pages head p x =
    let pages1 = (unlink_next pages head p (pages p).prev).0 in
    let pages2 = unlink_prev pages1 p (pages1 p).next in
    update-flags pages2 p x (record (pages2 p) { next = none; prev = none }) refl
    ∙ unlink_prev-flags pages1 p (pages1 p).next x
    ∙ unlink_next-flags pages head p (pages p).prev x

add_free-flags :
    (m : Memory) (order p x : ℕ) → ((add_free m order p).pages x).flags ≡ (m.pages x).flags
unfolding add_free
add_free-flags m order p x = list_add-flags m.pages (m.heads order) p x

merge_once-flags :
    (m : Memory) (pfn order x : ℕ) → ((merge_once m pfn order).pages x).flags ≡ (m.pages x).flags
unfolding merge_once remove_free
merge_once-flags m pfn order x =
    let low = min pfn (flip_bit pfn order) in
    let pages1 = (list_remove m.pages (m.heads order) (flip_bit pfn order)).0 in
    update-flags pages1 low x (record (pages1 low) { order = order + 1 }) refl
    ∙ list_remove-flags m.pages (m.heads order) (flip_bit pfn order) x

-- Merging marks no page as taken or free.
merge-flags :
    (rounds : ℕ) (m : Memory) (pfn order x : ℕ)
    → ((merge rounds m pfn order).pages x).flags ≡ (m.pages x).flags
unfolding merge
merge-flags zero m pfn order x = add_free-flags m order pfn x
merge-flags (suc rounds) m pfn order x = elim (Bool-cases (merges m pfn order)) [
  | inl h ↦ rw h (
      merge-flags rounds (merge_once m pfn order) (min pfn (flip_bit pfn order)) (order + 1) x
      ∙ merge_once-flags m pfn order x)
  | inr h ↦ rw h (add_free-flags m order pfn x)
]

-- A page that is free already is not freed again, and nothing changes.
free_marked : (m : Memory) (p order : ℕ) → (m.pages p).flags ≡ 1 → free_pages m p order ≡ m
unfolding free_pages
free_marked m p order e = ground arith

free_pages-marks :
    (m : Memory) (p order : ℕ)
    → m.ready ≡ true
    → order ≤ max_order
    → p < m.total_pages
    → has_bit (m.pages p).flags 0 ≡ false
    → ((free_pages m p order).pages p).flags ≡ 1
unfolding free_pages
free_pages-marks m p order up fits range taken =
    let start : Memory = record m {
      pages = update m.pages p (record (m.pages p) { flags = 1; refcount = 0; order = order });
      stats = count_given m.stats (m.pages p).flags (order_to_pages order);
    } in
    ground (arith, merge-flags (max_order - order) start p order p)

-- Freeing a page that is in use a second time, with any order, changes nothing, if the allocator
-- is started and the page and the first order are in range.
pub free_pages-free_pages :
    (m : Memory) (p order again : ℕ)
    → m.ready ≡ true
    → order ≤ max_order
    → p < m.total_pages
    → has_bit (m.pages p).flags 0 ≡ false
    → free_pages (free_pages m p order) p again ≡ free_pages m p order
free_pages-free_pages m p order again up fits range taken =
    free_marked (free_pages m p order) p again (free_pages-marks m p order up fits range taken)
