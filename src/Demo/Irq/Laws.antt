-- ===== src/Demo/Irq/Laws.antt =====
-- What the calls of the interrupt table do to the next dispatch.
use team_os_3_0_baios.Base.{
  ℕ, ◌<◌, ◌≡◌, ◌∙◌, ap, refl, Option, none, some, Bool, true, false, arith, length, length-set,
  length-replicate, set, get_or-set_self, get_or-set_ne, if◌then◌else◌, ◌==◌,
}
use team_os_3_0_baios.Types.{max_irq}
use team_os_3_0_baios.Demo.Error.{ok}
use team_os_3_0_baios.Demo.Irq.{
  IrqTable, IrqDesc, Invocation, zero_desc, desc_at, init, enable, disable, dispatch, fire,
  set_enabled,
}

pub record IsValid (s : IrqTable) : Type 0 where
  pub is_up : s.ready ≡ true
  pub sized : length s.table ≡ max_irq

pub init-IsValid : (s : IrqTable) → IsValid (init s).1
unfolding init
init-IsValid s = record { is_up = refl; sized = length-replicate max_irq zero_desc }

-- What a dispatch calls: the handler of that interrupt, if one is registered and enabled.
abbrev called_by : ℕ → ℕ → Bool → Option ℕ → Option Invocation
called_by irq context on none = none
called_by irq context on (some h) =
    if on then some (record { handler = h; irq = irq; context = context }) else none

abbrev pub called : ℕ → IrqDesc → Option Invocation
called irq d = called_by irq d.context d.enabled d.handler

fire-called :
    (s : IrqTable) (irq : ℕ) (h : Option ℕ)
    → (fire s irq h).1 ≡ called_by irq (desc_at s irq).context true h
fire-called s irq none = refl
fire-called s irq (some h) = refl

called_by-off : (irq context : ℕ) (h : Option ℕ) → called_by irq context false h ≡ none
called_by-off irq context none = refl
called_by-off irq context (some h) = refl

pub dispatch-called :
    (s : IrqTable) (irq : ℕ) → irq < max_irq → (dispatch s irq).1 ≡ called irq (desc_at s irq)
unfolding dispatch
dispatch-called s irq range =
    let d = desc_at s irq in
    ground (arith, fire-called s irq d.handler, called_by-off irq d.context d.handler)

-- The descriptors after a write to one of them.
pub desc_at-set :
    {s : IrqTable} (irq other : ℕ) (d : IrqDesc)
    → IsValid s
    → irq < max_irq
    → desc_at (record s { table = set s.table irq d }) other
      ≡ (if irq == other then d else desc_at s other)
desc_at-set {s} irq other d v range = ground (
  arith,
  get_or-set_self s.table irq d zero_desc,
  get_or-set_ne s.table irq other d zero_desc,
  v.sized,
)

set_enabled-IsValid :
    {s : IrqTable} (irq : ℕ) (b : Bool) → IsValid s → IsValid (set_enabled s irq b)
set_enabled-IsValid {s} irq b v = record {
  is_up = v.is_up;
  sized = length-set s.table irq (record (desc_at s irq) { enabled = b }) ∙ v.sized;
}

disable-eq :
    (s : IrqTable) (irq : ℕ) → irq < max_irq → disable s irq ≡ (ok, set_enabled s irq false)
unfolding disable
disable-eq s irq range = ground arith

enable-eq :
    (s : IrqTable) (irq handler : ℕ)
    → irq < max_irq
    → (desc_at s irq).handler ≡ some handler
    → enable s irq ≡ (ok, set_enabled s irq true)
unfolding enable
enable-eq s irq handler range reg = ground arith

dispatch_off :
    (s : IrqTable) (irq : ℕ) → (desc_at s irq).enabled ≡ false → dispatch s irq ≡ (s, none)
unfolding dispatch
dispatch_off s irq e = ground arith

-- The descriptor after a write to its `enabled`.
desc_at-set_enabled :
    {s : IrqTable} (irq : ℕ) (b : Bool)
    → IsValid s
    → irq < max_irq
    → desc_at (set_enabled s irq b) irq ≡ record (desc_at s irq) { enabled = b }
desc_at-set_enabled {s} irq b v range =
    get_or-set_self s.table irq (record (desc_at s irq) { enabled = b }) zero_desc
      (omega (arith, v.sized))

dispatch-set_enabled :
    {s : IrqTable} (irq other : ℕ)
    → IsValid s
    → irq < max_irq
    → other < max_irq
    → (dispatch (set_enabled s irq false) other).1
      ≡ (if irq == other then none else (dispatch s other).1)
dispatch-set_enabled {s} irq other v range range' =
    let d : IrqDesc = record (desc_at s irq) { enabled = false } in
    ground (
      arith,
      dispatch-called (set_enabled s irq false) other range',
      dispatch-called s other range',
      desc_at-set irq other d v range,
      called_by-off other (desc_at s irq).context (desc_at s irq).handler,
    )

-- A registered interrupt, in a valid table: while it is disabled its dispatch calls nothing and
-- changes nothing, every other dispatch calls what it called before, and once it is enabled again
-- its dispatch calls its handler with its context.
pub dispatch-disable :
    {s : IrqTable} (irq other handler : ℕ)
    → IsValid s
    → irq < max_irq
    → other < max_irq
    → (desc_at s irq).handler ≡ some handler
    → let (st, off) = disable s irq in
      let (st', on) = enable off irq in
      (st ≡ ok)
      × (dispatch off irq ≡ (off, none))
      × ((dispatch off other).1 ≡ (if irq == other then none else (dispatch s other).1))
      × (st' ≡ ok)
      × ((dispatch on irq).1
          ≡ some (record { handler = handler; irq = irq; context = (desc_at s irq).context }))
dispatch-disable {s} irq other handler v range range' reg =
    let off = set_enabled s irq false in
    let on = set_enabled off irq true in
    let v' = set_enabled-IsValid irq false v in
    let at = desc_at-set_enabled irq false v range in
    let at' = desc_at-set_enabled irq true v' range in
    let reg' : (desc_at off irq).handler ≡ some handler =
      ap (λ (d : IrqDesc). d.handler) at ∙ reg in
    rw (disable-eq s irq range, enable-eq off irq handler range reg')
      (
        refl,
        dispatch_off off irq (ap (λ (d : IrqDesc). d.enabled) at),
        dispatch-set_enabled irq other v range range',
        refl,
        dispatch-called on irq range
            ∙ ap (called irq) at'
            ∙ ap (λ (d : IrqDesc). called_by irq d.context true d.handler) at
            ∙ ap (called_by irq (desc_at s irq).context true) reg,
      )
