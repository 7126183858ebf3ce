-- ===== src/Driver/Valid.antt =====
-- The invariant of the registry: the count is the length of the chain, at most 128, every driver
-- has a name of its own and is marked as loaded.
use Prim.Native.String.{String}
use team_os_3_0_baios.Base.{
  ℕ, ◌+◌, ◌≤◌, ◌≡◌, List, [], ◌∷◌, Option, none, some, true, false, length, arith, has_bit,
  Option-cases, Bool-cases, ◌==◌, ◌⊎◌, inl, inr,
}
use team_os_3_0_baios.Types.{max_drivers}
use team_os_3_0_baios.Driver.{
  Driver, Drivers, init, register, register_named, unregister, unlink, find_name,
}

-- The name that the list before has not.
abbrev pub Unnamed : Option String → List Driver → Type 0
Unnamed none ds = ⊥
Unnamed (some name) ds = find_name name ds ≡ none

abbrev pub Distinct : List Driver → Type 0
Distinct [] = Unit {0}
Distinct (d ∷ ds) = Unnamed d.name ds × Distinct ds

abbrev pub AllLoaded : List Driver → Type 0
AllLoaded [] = Unit {0}
AllLoaded (d ∷ ds) = (has_bit d.flags 0 ≡ true) × AllLoaded ds

pub record IsValid (s : Drivers) : Type 0 where
  pub is_up : s.ready ≡ true
  pub counted : s.count ≡ length s.drivers
  pub bounded : length s.drivers ≤ max_drivers
  pub distinct : Distinct s.drivers
  pub all_loaded : AllLoaded s.drivers

pub init-IsValid : (s : Drivers) → s.ready ≡ false → IsValid (init s).1
unfolding init
init-IsValid s e = ground arith

register_named-IsValid :
    {s : Drivers} (d : Driver) (name : String)
    → d.name ≡ some name
    → IsValid s
    → IsValid (register_named s d name).2
unfolding register_named
register_named-IsValid {s} d name e v = ground arith

-- `baios_driver_register` keeps the registry valid, whatever it is given.
pub register-IsValid : {s : Drivers} (d : Option Driver) → IsValid s → IsValid (register s d).2
unfolding register
register-IsValid none v = v
register-IsValid {s} (some d) v = elim (Option-cases d.name) [
  | inl e ↦ ground arith
  | inr (name, e) ↦ ground (arith, register_named-IsValid d name e v)
]

-- Unlinking takes the head, or takes from the rest.
pub unlink-cases :
    (a : ℕ) (x : Driver) (ds es : List Driver) (d : Driver)
    → unlink a (x ∷ ds) ≡ some (d, es)
    → (((x.address == a) ≡ true) × (x ≡ d) × (ds ≡ es))
      ⊎ ((fs : List Driver) × ((x.address == a) ≡ false)
          × (unlink a ds ≡ some (d, fs))
          × (x ∷ fs ≡ es))
unfolding unlink
unlink-cases a x ds es d e = elim (Bool-cases (x.address == a)) [
  | inl h ↦ inl (h, ground arith, ground arith)
  | inr h ↦ elim (Option-cases (unlink a ds)) [
    | inl u ↦ absurd (ground arith)
    | inr ((f, fs), u) ↦ inr (fs, h, ground arith, ground arith)
  ]
]

-- What unlinking leaves of the chain.
find_name-unlink :
    (name : String) (a : ℕ) (ds es : List Driver) (d : Driver)
    → unlink a ds ≡ some (d, es)
    → find_name name ds ≡ none
    → find_name name es ≡ none
unfolding unlink find_name
find_name-unlink name a [] es d e f = cc
find_name-unlink name a (x ∷ ds) es d e f = elim (unlink-cases a x ds es d e) [
  | inl (_, _, same) ↦ ground arith
  | inr (fs, _, u, same) ↦ ground (arith, find_name-unlink name a ds fs d u)
]

Unnamed-unlink :
    (name : Option String) (a : ℕ) (ds es : List Driver) (d : Driver)
    → unlink a ds ≡ some (d, es)
    → Unnamed name ds
    → Unnamed name es
Unnamed-unlink none a ds es d e f = f
Unnamed-unlink (some name) a ds es d e f = find_name-unlink name a ds es d e f

record Unlinked (ds es : List Driver) : Type 0 where
  shorter : length ds ≡ length es + 1
  distinct : Distinct es
  all_loaded : AllLoaded es

unlink-Unlinked :
    (a : ℕ) (ds es : List Driver) (d : Driver)
    → unlink a ds ≡ some (d, es)
    → Distinct ds
    → AllLoaded ds
    → Unlinked ds es
unfolding unlink
unlink-Unlinked a [] es d e n l = cc
unlink-Unlinked a (x ∷ ds) es d e n l = elim (unlink-cases a x ds es d e) [
  | inl (_, _, same) ↦
      rw (← same) record { shorter = omega arith; distinct = n.1; all_loaded = l.1 }
  | inr (fs, _, u, same) ↦
      let rest = unlink-Unlinked a ds fs d u n.1 l.1 in
      rw (← same) record {
        shorter = omega (arith, rest.shorter);
        distinct = (Unnamed-unlink x.name a ds fs d u n.0, rest.distinct);
        all_loaded = (l.0, rest.all_loaded);
      }
]

-- baios_driver_unregister keeps a valid registry valid: the count right, the names distinct, every
-- driver marked as loaded.
pub unregister-IsValid : {s : Drivers} (address : ℕ) → IsValid s → IsValid (unregister s address).2
unfolding unregister
unregister-IsValid {s} address v = elim (Option-cases (unlink address s.drivers)) [
  | inl e ↦ ground arith
  | inr ((d, ds), e) ↦
      ground (arith, unlink-Unlinked address s.drivers ds d e v.distinct v.all_loaded)
]
