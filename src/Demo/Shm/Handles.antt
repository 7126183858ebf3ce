-- ===== src/Demo/Shm/Handles.antt =====
-- Regions by name and by handle: what a creation makes findable, and what a destruction leaves.
use Prim.Native.String.{String}
use team_os_3_0_baios.Base.{
  ℕ, suc, ◌+◌, ◌<◌, ◌≡◌, ◌≢◌, ◌⊎◌, ◌∙◌, inl, inr, refl, sym, ap, Option, none, some, Bool, true,
  false, not, ◌&&◌, arith, length, set, length-set, get_or-set_self, ◌==◌, leb, ltb, Bool-cases,
  u64, str_eq, eq_iff,
}
use team_os_3_0_baios.Demo.Error.{ok}
use team_os_3_0_baios.Demo.Shm.{
  Shm, ShmRegion, zero_region, max_shm_regions, heap_size, align_up, region_at, sim_alloc,
  find_by_handle, name_taken, new_region, add_region, create_named, create, put_region, attach,
  cleared, destroy_at, destroy, find,
}
use team_os_3_0_baios.Demo.Search.{
  find_index-range, find_index-some, find_index-set, find_index-none,
}

destroy_at-ok :
    (s s' : Shm) (found : Option ℕ)
    → destroy_at s found ≡ (ok, s')
    → (i : ℕ) × (found ≡ some i) × (s' ≡ put_region s i (cleared (region_at s i)))
destroy_at-ok s s' none e = ground arith
destroy_at-ok s s' (some i) e = elim (Bool-cases (ltb 1 (region_at s i).refcount)) [
  | inl b ↦ ground arith
  | inr b ↦ (i, refl, ground arith)
]

-- Once a destruction has succeeded, an attach to the handle 0 succeeds too.
pub attach-destroy : (s s' : Shm) (handle : ℕ) → destroy s handle ≡ (ok, s') → (attach s' 0).0 ≡ ok
unfolding destroy attach
attach-destroy s s' handle e =
    let (i, found, same) = destroy_at-ok s s' (find_by_handle s handle) e in
    let (low, range, pass) =
      find_index-range (λ r. r.handle == handle) zero_region s.table s.count i found in
    let r = cleared (region_at s i) in
    let self = get_or-set_self s.table i r zero_region range in
    let range' : i < length (set s.table i r) = omega (arith, length-set s.table i r) in
    let (j, hit) =
      find_index-some (λ (x : ShmRegion). x.handle == 0) zero_region (set s.table i r) s.count i low
        range' (rw self refl) in
    rw (same, hit) refl

sim_alloc-same :
    (s : Shm) (size : ℕ)
    → (sim_alloc s size ≡ (none, s))
      ⊎ ((used : ℕ) × (sim_alloc s size ≡ (some s.heap_used, record s { heap_used = used })))
unfolding sim_alloc
sim_alloc-same s size =
    let next = u64 (s.heap_used + align_up size) in
    elim (Bool-cases (ltb heap_size next)) [
      | inl e ↦ inl (rw e refl)
      | inr e ↦ inr (next, rw e refl)
    ]

module _ (heap : ℕ) (mark : ℕ → ℕ) (clip : String → String) where
  -- What a creation that succeeds has done.
  record Created (s s' : Shm) (name : String) (size flags handle : ℕ) : Type 0 where
    free : name_taken s name ≡ none
    below : s.count < max_shm_regions
    given : handle ≡ s.next_handle
    counted : s'.count ≡ s.count + 1
    written :
        s'.table ≡ set s.table s.count (new_region heap mark clip s s.heap_used name size flags)

  create_named-Created :
      (s s' : Shm) (taken : Option ℕ) (name : String) (size flags handle : ℕ)
      → name_taken s name ≡ taken
      → s.count < max_shm_regions
      → create_named heap mark clip s taken name size flags ≡ (ok, some handle, s')
      → Created s s' name size flags handle
  create_named-Created s s' (some i) name size flags handle t low e = ground arith
  create_named-Created s s' none name size flags handle t low e = elim (sim_alloc-same s size) [
    | inl a ↦ ground arith
    | inr (used, a) ↦
        let out = sym (ap (λ m. add_region heap mark clip m name size flags) a) ∙ e in
        record {
          free = t;
          below = low;
          given = ground arith;
          counted = ground arith;
          written = ground arith;
        }
  ]

  create-Created :
      (s s' : Shm) (name : String) (size flags handle : ℕ)
      → create heap mark clip s (some name) size flags ≡ (ok, some handle, s')
      → Created s s' name size flags handle
  unfolding create
  create-Created s s' name size flags handle e = elim (Bool-cases (size == 0)) [
    | inl z ↦ ground arith
    | inr z ↦ elim (Bool-cases (leb max_shm_regions s.count)) [
      | inl f ↦ ground arith
      | inr f ↦
          create_named-Created s s' (name_taken s name) name size flags handle refl (ground arith)
            (ground arith)
    ]
  ]

  str_eq_refl : (name : String) → str_eq name name ≡ true
  str_eq_refl name = ground (arith, eq_iff name name)

  -- A creation that succeeds, on a table of 64 entries, with a handle that is not 0 and that no
  -- region of the table had, and with a name that fits its field: the search for the name then gives
  -- the handle, and an attach to the handle gives the start of the memory that was free before.
  pub create-find :
      (s s' : Shm) (name : String) (size flags handle : ℕ)
      → length s.table ≡ max_shm_regions
      → clip name ≡ name
      → handle ≢ 0
      → find_by_handle s handle ≡ none
      → create heap mark clip s (some name) size flags ≡ (ok, some handle, s')
      → (find s' (some name) ≡ (ok, some handle))
        × (let (st, out, s'') = attach s' handle in (st ≡ ok) × (out ≡ some (heap + s.heap_used)))
  unfolding find attach
  create-find s s' name size flags handle sized fits real fresh e =
      let c = create-Created s s' name size flags handle e in
      let r = new_region heap mark clip s s.heap_used name size flags in
      let range : s.count < length s.table = omega (arith, sized, c.below) in
      let next : s.count + 1 ≡ suc s.count = omega arith in
      let named : ShmRegion → Bool = λ x. not (x.handle == 0) && str_eq x.name name in
      let has : ShmRegion → Bool = λ x. x.handle == handle in
      let weaker : (x : ShmRegion) → str_eq x.name name ≡ false → named x ≡ false =
        λ x n. ground arith in
      let none_named =
        find_index-none (λ x. str_eq x.name name) named s.table s.count weaker c.free in
      let passes : named r ≡ true = rw fits (ground (arith, str_eq_refl name, c.given)) in
      let passes' : has r ≡ true = ground (arith, c.given) in
      let self = get_or-set_self s.table s.count r zero_region range in
      rw
        (
          c.written,
          c.counted,
          next,
          find_index-set named s.table s.count r range none_named passes,
          find_index-set has s.table s.count r range fresh passes',
          self,
        )
        (ap (λ h. (ok, some h)) (sym c.given), (refl, refl))
