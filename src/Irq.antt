-- ===== src/Irq.antt =====
-- The interrupt framework of BIOS/src/hw/interrupt.c, with the types of BIOS/include/interrupt.h.
-- A handler is known by the number of its code, and running it is outside: a dispatch gives the
-- call that it makes, which is the last thing that it does.
pub mod Count
pub mod Laws
pub mod History
mod Tests
use Prim.Native.String.{String}
use team_os_3_0_baios.Base.{
  ℕ, ◌+◌, ◌%◌, ◌^◌, List, Option, none, some, Bool, true, false, not, ◌||◌, ◌&&◌, ◌==◌, leb,
  if◌then◌else◌, get_or, set, replicate, u64, has_bit, is_some,
}
use team_os_3_0_baios.Types.{Status, ok, inval, busy, perm, state_error, max_irq}

-- `baios_irq_desc_t`; 0 is the null pointer of `opaque`.
pub record IrqDesc : Type 0 where
  pub handler : Option ℕ
  pub opaque : ℕ
  pub name : Option String
  pub flags : ℕ
  pub count : ℕ

-- A descriptor after `memset` to 0.
abbrev pub zero_desc : IrqDesc
zero_desc = record { handler = none; opaque = 0; name = none; flags = 0; count = 0 }

-- The file's static state.
pub record Irqs : Type 0 where
  pub irqs : List IrqDesc
  pub ready : Bool
  pub total : ℕ

-- A call `handler(irq, opaque)`.
pub record Invocation : Type 0 where
  pub handler : ℕ
  pub irq : ℕ
  pub opaque : ℕ

abbrev pub desc_at : Irqs → ℕ → IrqDesc
desc_at s irq = get_or s.irqs irq zero_desc

-- `baios_irq_init`
unfoldable pub init : Irqs → Status × Irqs
init s =
    if s.ready
    then (state_error, s)
    else (ok, record { irqs = replicate max_irq zero_desc; ready = true; total = 0 })

-- `baios_irq_shutdown`
unfoldable pub shutdown : Irqs → Irqs
shutdown s = if s.ready then record s { irqs = replicate max_irq zero_desc; ready = false } else s

abbrev pub or_unnamed : Option String → Option String
or_unnamed none = some "unnamed"
or_unnamed (some name) = some name

-- What `baios_irq_request` writes.
abbrev pub new_desc : ℕ → ℕ → Option String → ℕ → IrqDesc
new_desc h opaque name flags = record {
  handler = some h;
  opaque = opaque;
  name = or_unnamed name;
  flags = flags;
  count = 0;
}

-- `baios_irq_request`; bit 0 of the flags is `BAIOS_IRQ_FLAG_SHARED`.
unfoldable pub request : Irqs → ℕ → Option ℕ → ℕ → Option String → ℕ → Status × Irqs
request s irq none opaque name flags = (inval, s)
request s irq (some h) opaque name flags =
    if not s.ready || leb max_irq irq
    then (inval, s)
    else if is_some (desc_at s irq).handler && not (has_bit flags 0)
    then (busy, s)
    else (ok, record s { irqs = set s.irqs irq (new_desc h opaque name flags) })

-- `baios_irq_free`
unfoldable pub free : Irqs → ℕ → ℕ → Status × Irqs
free s irq opaque =
    if not s.ready || leb max_irq irq
    then (inval, s)
    else if not ((desc_at s irq).opaque == opaque) && not (opaque == 0)
    then (perm, s)
    else (ok, record s { irqs = set s.irqs irq zero_desc })

-- `baios_irq_enable` and `baios_irq_disable`, which do nothing.
abbrev pub enable : Irqs → ℕ → Irqs
enable s irq = s

abbrev pub disable : Irqs → ℕ → Irqs
disable s irq = s

-- `desc->count++`
abbrev pub counted : IrqDesc → IrqDesc
counted d = record d { count = u64 (d.count + 1) }

-- The body of the dispatch once a handler is found.
abbrev pub fire : Irqs → ℕ → Option ℕ → Irqs × Option Invocation
fire s irq none = (s, none)
fire s irq (some h) = (
  record s { irqs = set s.irqs irq (counted (desc_at s irq)); total = u64 (s.total + 1) },
  some (record { handler = h; irq = irq; opaque = (desc_at s irq).opaque }),
)

-- `baios_irq_dispatch`
unfoldable pub dispatch : Irqs → ℕ → Irqs × Option Invocation
dispatch s irq =
    if not s.ready || leb max_irq irq then (s, none) else fire s irq (desc_at s irq).handler

-- `baios_irq_get_count`
unfoldable pub get_count : Irqs → ℕ → ℕ
get_count s irq = if leb max_irq irq then 0 else (desc_at s irq).count
