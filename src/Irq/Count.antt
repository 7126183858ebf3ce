-- ===== src/Irq/Count.antt =====
-- The per-interrupt counters against the total.
use team_os_3_0_baios.Base.{
  ℕ, zero, suc, ◌+◌, ◌≤◌, ◌<◌, ◌^◌, ◌≡◌, refl, List, [], ◌∷◌, Option, none, some, false, get_or,
  set, length, length-set, length-replicate, replicate, arith,
}
use Prim.Native.String.{String}
use team_os_3_0_baios.Types.{max_irq}
use team_os_3_0_baios.Irq.{
  IrqDesc, Irqs, zero_desc, desc_at, init, request, free, new_desc, counted, dispatch,
}

-- The sum of all counters.
abbrev pub sum_counts : List IrqDesc → ℕ
sum_counts [] = 0
sum_counts (d ∷ ds) = d.count + sum_counts ds

pub sum_counts-set :
    (ds : List IrqDesc) (i : ℕ) (d : IrqDesc)
    → i < length ds
    → sum_counts (set ds i d) + (get_or ds i zero_desc).count ≡ sum_counts ds + d.count
sum_counts-set [] i d h = absurd (omega arith)
sum_counts-set (x ∷ ds) zero d h = omega arith
sum_counts-set (x ∷ ds) (suc i) d h = omega (arith, sum_counts-set ds i d)

-- The table has its 256 entries, and the counters together show no more than was dispatched.
pub record IsValid (s : Irqs) : Type 0 where
  pub sized : length s.irqs ≡ max_irq
  pub summed : sum_counts s.irqs ≤ s.total

sum_counts-replicate : (n : ℕ) → sum_counts (replicate n zero_desc) ≡ 0
sum_counts-replicate zero = refl
sum_counts-replicate (suc n) = omega (arith, sum_counts-replicate n)

pub init-IsValid : (s : Irqs) → s.ready ≡ false → IsValid (init s).1
unfolding init
init-IsValid s h = ground (arith, length-replicate max_irq zero_desc, sum_counts-replicate max_irq)

pub request-IsValid :
    {s : Irqs} (irq : ℕ) (h : Option ℕ) (opaque : ℕ) (name : Option String) (flags : ℕ)
    → IsValid s
    → IsValid (request s irq h opaque name flags).1
unfolding request
request-IsValid irq none opaque name flags v = v
request-IsValid {s} irq (some h) opaque name flags v =
    let d = new_desc h opaque name flags in
    ground (arith, length-set s.irqs irq d, sum_counts-set s.irqs irq d)

pub free-IsValid : {s : Irqs} (irq opaque : ℕ) → IsValid s → IsValid (free s irq opaque).1
unfolding free
free-IsValid {s} irq opaque v =
    ground (arith, length-set s.irqs irq zero_desc, sum_counts-set s.irqs irq zero_desc)

-- While the total does not wrap, a dispatch keeps the table at 256 entries and the sum of the
-- counters at no more than the total.
pub dispatch-IsValid :
    {s : Irqs} (irq : ℕ) → s.total + 1 < 2 ^ 64 → IsValid s → IsValid (dispatch s irq).0
unfolding dispatch
dispatch-IsValid {s} irq small v =
    let d = counted (desc_at s irq) in
    ground (arith, length-set s.irqs irq d, sum_counts-set s.irqs irq d)
