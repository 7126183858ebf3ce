-- ===== src/Demo/Shm/Valid.antt =====
-- The invariant of the shared regions, through every call of the file.
use Prim.Native.String.{String}
use team_os_3_0_baios.Base.{
  ℕ, suc, ◌+◌, ◌-◌, ◌%◌, ◌^◌, ◌≤◌, ◌<◌, ◌≡◌, ◌⊎◌, ◌∙◌, inl, inr, refl, Option, none, some, arith,
  length, length-set, ◌==◌, leb, ltb, Bool-cases, u64, u32,
}
use team_os_3_0_baios.Demo.Search.{find_index-range}
use team_os_3_0_baios.Demo.Shm.{
  Shm, ShmRegion, zero_region, max_shm_regions, heap_size, region_at, align_up, sim_alloc,
  find_by_handle, name_taken, new_region, add_region, create_named, create, put_region, attach_at,
  attach, detach_at, detach, cleared, destroy_at, destroy, mem_init, kmalloc, krealloc,
}
use team_os_3_0_baios.Demo.Shm.Layout.{
  Layout, Layout-grow, Layout-set, Layout-append, Keeps, total, total-set, total-append, total_none,
}

-- Neither rounding the size up to pages nor adding it to the used part of the heap wraps: it is at
-- most 2 ^ 64 - 2 ^ 24 - 4096.
abbrev pub Fits : ℕ → Type 0
Fits size = size + 4095 + heap_size < 2 ^ 64

pub record IsValid (heap : ℕ) (s : Shm) : Type 0 where
  pub sized : length s.table ≡ max_shm_regions
  pub counted : s.count ≤ max_shm_regions
  pub room : s.heap_used ≤ heap_size
  pub layout : Layout heap s.table s.count (heap + s.heap_used)
  pub paid : total s.table s.count ≤ s.heap_used

-- What an allocation comes to: nothing, or the end of the used part, moved on by whole pages.
pub sim_alloc-cases :
    {s : Shm} (size : ℕ)
    → s.heap_used ≤ heap_size
    → Fits size
    → (sim_alloc s size ≡ (none, s))
      ⊎ ((used : ℕ) × (sim_alloc s size ≡ (some s.heap_used, record s { heap_used = used }))
          × (s.heap_used + size ≤ used)
          × (used ≤ heap_size))
unfolding sim_alloc
sim_alloc-cases {s} size room fits =
    let whole : align_up size ≡ size + 4095 - (size + 4095) % 4096 = omega arith in
    let wide : size ≤ align_up size = omega arith in
    let next = u64 (s.heap_used + align_up size) in
    let same : next ≡ s.heap_used + align_up size = omega arith in
    elim (Bool-cases (ltb heap_size next)) [
      | inl e ↦ inl (rw e refl)
      | inr e ↦ inr (next, rw e refl, omega arith, ground arith)
    ]

pub grow-IsValid :
    {heap : ℕ} {s : Shm} (used : ℕ)
    → IsValid heap s
    → s.heap_used ≤ used
    → used ≤ heap_size
    → IsValid heap (record s { heap_used = used })
grow-IsValid used v h r = record {
  sized = v.sized;
  counted = v.counted;
  room = r;
  layout = Layout-grow v.layout (omega arith);
  paid = omega (arith, v.paid);
}

-- Allocations keep the invariant.
pub sim_alloc-IsValid :
    {heap : ℕ} {s : Shm} (size : ℕ) → IsValid heap s → Fits size → IsValid heap (sim_alloc s size).1
sim_alloc-IsValid {heap} {s} size v fits = elim (sim_alloc-cases {s = s} size v.room fits) [
  | inl e ↦ rw e v
  | inr (used, e, low, high) ↦ rw e (grow-IsValid used v (omega arith) high)
]

pub kmalloc-IsValid :
    {heap : ℕ} {s : Shm} (size : ℕ) → IsValid heap s → Fits size → IsValid heap (kmalloc s size).1
unfolding kmalloc
kmalloc-IsValid size v fits = elim (Bool-cases (size == 0)) [
  | inl e ↦ rw e v
  | inr e ↦ rw e (sim_alloc-IsValid size v fits)
]

pub krealloc-IsValid :
    {heap : ℕ} {s : Shm} (ptr : Option ℕ) (size : ℕ)
    → IsValid heap s
    → Fits size
    → IsValid heap (krealloc s ptr size).1
unfolding krealloc
krealloc-IsValid none size v fits = kmalloc-IsValid size v fits
krealloc-IsValid (some ptr) size v fits = elim (Bool-cases (size == 0)) [
  | inl e ↦ rw e v
  | inr e ↦ rw e (kmalloc-IsValid size v fits)
]

-- A write to an entry that takes its memory away or leaves it.
put_region-IsValid :
    {heap : ℕ} {s : Shm} (i : ℕ) (r : ShmRegion)
    → IsValid heap s
    → i < s.count
    → i < length s.table
    → Keeps (region_at s i) r
    → IsValid heap (put_region s i r)
put_region-IsValid {heap} {s} i r v low range k =
    let less : r.size ≤ (region_at s i).size = elim k [
      | inl e ↦ omega arith
      | inr (b, e) ↦ omega arith
    ] in
    record {
      sized = length-set s.table i r ∙ v.sized;
      counted = v.counted;
      room = v.room;
      layout = Layout-set i r v.layout k;
      paid = omega (arith, v.paid, total-set s.table i s.count r low range);
    }

attach_at-IsValid :
    {heap : ℕ} {s : Shm} (handle : ℕ) (found : Option ℕ)
    → find_by_handle s handle ≡ found
    → IsValid heap s
    → let (st, out, s') = attach_at s found in IsValid heap s'
attach_at-IsValid handle none e v = v
attach_at-IsValid {s = s} handle (some i) e v =
    let (low, range, same) =
      find_index-range (λ r. r.handle == handle) zero_region s.table s.count i e in
    put_region-IsValid i (record (region_at s i) { refcount = u32 ((region_at s i).refcount + 1) })
      v low range (inr (refl, refl))

pub attach-IsValid :
    {heap : ℕ} {s : Shm} (handle : ℕ)
    → IsValid heap s
    → let (st, out, s') = attach s handle in IsValid heap s'
unfolding attach
attach-IsValid {s = s} handle v = attach_at-IsValid handle (find_by_handle s handle) refl v

detach_at-IsValid :
    {heap : ℕ} {s : Shm} (handle : ℕ) (found : Option ℕ)
    → find_by_handle s handle ≡ found
    → IsValid heap s
    → IsValid heap (detach_at s found).1
detach_at-IsValid handle none e v = v
detach_at-IsValid {s = s} handle (some i) e v =
    let (low, range, same) =
      find_index-range (λ r. r.handle == handle) zero_region s.table s.count i e in
    let r = region_at s i in
    elim (Bool-cases (ltb 0 r.refcount)) [
      | inl y ↦ rw y (
          put_region-IsValid i (record r { refcount = r.refcount - 1 }) v low range
            (inr (refl, refl)))
      | inr n ↦ rw n v
    ]

pub detach-IsValid :
    {heap : ℕ} {s : Shm} (handle : ℕ) → IsValid heap s → IsValid heap (detach s handle).1
unfolding detach
detach-IsValid {s = s} handle v = detach_at-IsValid handle (find_by_handle s handle) refl v

destroy_at-IsValid :
    {heap : ℕ} {s : Shm} (handle : ℕ) (found : Option ℕ)
    → find_by_handle s handle ≡ found
    → IsValid heap s
    → IsValid heap (destroy_at s found).1
destroy_at-IsValid handle none e v = v
destroy_at-IsValid {s = s} handle (some i) e v =
    let (low, range, same) =
      find_index-range (λ r. r.handle == handle) zero_region s.table s.count i e in
    let r = region_at s i in
    elim (Bool-cases (ltb 1 r.refcount)) [
      | inl y ↦ rw y v
      | inr n ↦ rw n (put_region-IsValid i (cleared r) v low range (inl refl))
    ]

pub destroy-IsValid :
    {heap : ℕ} {s : Shm} (handle : ℕ) → IsValid heap s → IsValid heap (destroy s handle).1
unfolding destroy
destroy-IsValid {s = s} handle v = destroy_at-IsValid handle (find_by_handle s handle) refl v

pub mem_init-IsValid :
    (heap : ℕ) (s : Shm) (base size : ℕ)
    → length s.table ≡ max_shm_regions
    → IsValid heap (mem_init s base size).1
unfolding mem_init
mem_init-IsValid heap s base size sized = record {
  sized = sized;
  counted = omega arith;
  room = omega arith;
  layout = record {
    inside = λ i c p. absurd (omega arith);
    apart = λ i j h c p q. absurd (omega arith);
  };
  paid = omega (arith, total_none s.table);
}

module _ (heap : ℕ) (mark : ℕ → ℕ) (clip : String → String) where
  -- A region added in the memory that an allocation has just given.
  added-IsValid :
      {s : Shm} (used : ℕ) (name : String) (size flags : ℕ)
      → IsValid heap s
      → s.count < max_shm_regions
      → s.heap_used + size ≤ used
      → used ≤ heap_size
      → let (st, out, s') =
          add_region heap mark clip
            (some s.heap_used, record s { heap_used = used })
            name
            size
            flags in
        IsValid heap s'
  added-IsValid {s} used name size flags v free low high =
      let r = new_region heap mark clip s s.heap_used name size flags in
      let range : s.count < length s.table = omega (arith, v.sized) in
      let next : s.count + 1 ≡ suc s.count = omega arith in
      record {
        sized = length-set s.table s.count r ∙ v.sized;
        counted = omega arith;
        room = high;
        layout = Layout-append r v.layout range (omega arith) refl (omega arith);
        paid = rw next (omega (arith, v.paid, total-append s.table s.count r range));
      }

  create_named-IsValid :
      {s : Shm} (taken : Option ℕ) (name : String) (size flags : ℕ)
      → IsValid heap s
      → s.count < max_shm_regions
      → Fits size
      → let (st, out, s') = create_named heap mark clip s taken name size flags in IsValid heap s'
  create_named-IsValid (some i) name size flags v free fits = v
  create_named-IsValid {s} none name size flags v free fits =
      elim (sim_alloc-cases {s = s} size v.room fits) [
        | inl e ↦ rw e v
        | inr (used, e, low, high) ↦ rw e (added-IsValid used name size flags v free low high)
      ]

  pub create-IsValid :
      {s : Shm} (name : Option String) (size flags : ℕ)
      → IsValid heap s
      → Fits size
      → let (st, out, s') = create heap mark clip s name size flags in IsValid heap s'
  unfolding create
  create-IsValid none size flags v fits = v
  create-IsValid {s} (some name) size flags v fits = elim (Bool-cases (size == 0)) [
    | inl e ↦ rw e v
    | inr e ↦ elim (Bool-cases (leb max_shm_regions s.count)) [
      | inl f ↦ rw (e, f) v
      | inr f ↦
          rw (e, f) (create_named-IsValid (name_taken s name) name size flags v (ground arith) fits)
    ]
  ]
