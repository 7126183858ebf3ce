-- ===== src/Circular.antt =====
-- Circular buffers: the entries between two indices that go round at a capacity. The rings of
-- BIOS/src/ipc/zero_copy.c are read through these.
use team_os_3_0_baios.Base.{
  ℕ, zero, suc, ◌+◌, ◌-◌, ◌%◌, ◌≤◌, ◌<◌, ◌≡◌, refl, ap, ap₂, ◌∙◌, sym, ◌≢◌, ◌⊎◌, inl, inr, List, [],
  ◌∷◌, ◌++◌, arith, leb, ◌==◌, if◌then◌else◌, length, get_or, set, get_or-set_self, get_or-set_ne,
  dec_lt, mod-eq_of_lt, mod-eq-sub-mod, mod-add-mod,
}

-- The index after `i`.
abbrev pub next : ℕ → ℕ → ℕ
next cap i = (i + 1) % cap

-- How many entries lie from `tail` up to `head`.
abbrev pub used : ℕ → ℕ → ℕ → ℕ
used cap head tail = if leb tail head then head - tail else head + cap - tail

pub next-eq : {cap i : ℕ} → i < cap → next cap i ≡ (if i + 1 == cap then 0 else i + 1)
next-eq {cap} {i} h = grind arith

module _ {ℓ} {A : Type ℓ} (d : A) (cap : ℕ) where
  -- The `n` entries from index `i` on.
  abbrev pub window : List A → ℕ → ℕ → List A
  window buf i zero = []
  window buf i (suc n) = get_or buf i d ∷ window buf (next cap i) n

  pub length-window : (buf : List A) (i n : ℕ) → length (window buf i n) ≡ n
  length-window buf i zero = refl
  length-window buf i (suc n) = ap suc (length-window buf (next cap i) n)

  pub window_of_pos :
      (buf : List A) (i n : ℕ)
      → 0 < n
      → window buf i n ≡ get_or buf i d ∷ window buf (next cap i) (n - 1)
  window_of_pos buf i zero h = absurd (omega arith)
  window_of_pos buf i (suc n) h = ap (λ k. window buf i (suc k)) (omega arith)

  -- Going round by fewer steps than there are places never comes back to the start.
  shift-ne : (i k : ℕ) → i < cap → suc k < cap → (i + suc k) % cap ≢ i
  shift-ne i k hi hk = elim (dec_lt (i + suc k) cap) [
    | yes p ↦ omega (arith, mod-eq_of_lt p)
    | no p ↦ omega (
      arith,
      mod-eq-sub-mod {n = i + suc k} {m = cap} (omega arith),
      mod-eq_of_lt {n = i + suc k - cap} {m = cap} (omega arith),
    )
  ]

  -- A write at the place behind a window that is not full makes it one longer.
  pub window-set :
      (buf : List A) (v : A) (n i j : ℕ)
      → cap ≤ length buf
      → i < cap
      → n < cap
      → j ≡ (i + n) % cap
      → window (set buf j v) i (suc n) ≡ window buf i n ++ (v ∷ [])
  window-set buf v zero i j hb hi hn e =
      let at : j ≡ i = e ∙ ap (λ k. k % cap) (omega arith) ∙ mod-eq_of_lt hi in
      rw at (ap (λ x. x ∷ []) (get_or-set_self buf i v d (omega arith)))
  window-set buf v (suc n) i j hb hi hn e =
      ap₂ ◌∷◌ (get_or-set_ne buf j i v d (rw e (shift-ne i n hi hn)))
        (window-set buf v n (next cap i) j hb (omega arith) (omega arith) (e ∙ round))
    where
      round : (i + suc n) % cap ≡ (next cap i + n) % cap
      round = rw mod-add-mod (ap (λ k. k % cap) (omega arith))

-- The place behind the window is `head`.
pub tail-add-used :
    {cap head tail : ℕ} → head < cap → tail < cap → (tail + used cap head tail) % cap ≡ head
tail-add-used {cap} {head} {tail} h t = elim (dec_lt head tail) [
  | yes p ↦ go (tail + used cap head tail) (inr (ground arith))
  | no p ↦ go (tail + used cap head tail) (inl (ground arith))
]
  where
    cancel : head + cap - cap ≡ head
    cancel = omega arith

    go : (n : ℕ) → (n ≡ head) ⊎ (n ≡ head + cap) → n % cap ≡ head
    go n (inl e) = rw e (mod-eq_of_lt h)
    go n (inr e) = rw e (
        omega (
          arith,
          mod-eq-sub-mod {n = head + cap} {m = cap} (omega arith),
          ap (λ (k : ℕ). k % cap) (cancel),
          mod-eq_of_lt h,
        ))

pub used-lt : {cap head tail : ℕ} → head < cap → tail < cap → used cap head tail < cap
used-lt h t = ground arith

-- Full is one entry short of the capacity.
pub used_of_full :
    {cap head tail : ℕ}
    → head < cap
    → tail < cap
    → next cap head ≡ tail
    → used cap head tail + 1 ≡ cap
used_of_full {cap} {head} h t e = ground (arith, next-eq h)

pub used-next_head :
    {cap head tail : ℕ}
    → head < cap
    → tail < cap
    → next cap head ≢ tail
    → (used cap (next cap head) tail ≡ suc (used cap head tail)) × (used cap head tail + 1 < cap)
used-next_head {cap} {head} h t e = ground (arith, next-eq h)

pub used-next_tail :
    {cap head tail : ℕ}
    → head < cap
    → tail < cap
    → head ≢ tail
    → (used cap head (next cap tail) ≡ used cap head tail - 1) × (0 < used cap head tail)
used-next_tail {cap} {head} {tail} h t e = ground (arith, next-eq t)

module _ {ℓ} {A : Type ℓ} (d : A) (cap : ℕ) (buf : List A) (head tail : ℕ) where
  -- The entries from `tail` up to `head`.
  abbrev pub entries : List A
  entries = window d cap buf tail (used cap head tail)

  pub length-entries : length entries ≡ used cap head tail
  length-entries = length-window d cap buf tail (used cap head tail)

  -- Writing at `head` and moving it on appends the entry.
  pub entries-push :
      (v : A)
      → cap ≤ length buf
      → head < cap
      → tail < cap
      → next cap head ≢ tail
      → window d cap (set buf head v) tail (used cap (next cap head) tail) ≡ entries ++ (v ∷ [])
  entries-push v hb h t ne =
      let moved = used-next_head h t ne in
      ap (window d cap (set buf head v) tail) moved.0
      ∙ window-set d cap buf v (used cap head tail) tail head hb t (omega arith)
          (sym (tail-add-used h t))

  -- Moving `tail` on drops the entry at `tail`.
  pub entries-pop :
      head < cap
      → tail < cap
      → head ≢ tail
      → entries
        ≡ get_or buf tail d ∷ window d cap buf (next cap tail) (used cap head (next cap tail))
  entries-pop h t ne =
      let moved = used-next_tail h t ne in
      window_of_pos d cap buf tail (used cap head tail) moved.1
      ∙ ap (λ n. get_or buf tail d ∷ window d cap buf (next cap tail) n) (sym moved.0)

  pub entries_empty : head ≡ tail → entries ≡ []
  entries_empty e =
      let none_used : used cap head tail ≡ 0 = ground arith in ap (window d cap buf tail) none_used
