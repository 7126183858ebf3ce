-- ===== src/Demo/Irq.antt =====
-- The interrupt table of BIOS/hw/interrupts.c, with the types of BIOS/include/interrupts.h.
-- Running a handler is outside: a dispatch gives the call that it makes, which is the last thing
-- that it does but for `irq_ack`, which does nothing.
pub mod Laws
use Prim.Native.String.{String}
use team_os_3_0_baios.Base.{
  ℕ, ◌+◌, ◌%◌, ◌^◌, List, Option, none, some, Bool, true, false, not, ◌||◌, ◌==◌, leb,
  if◌then◌else◌, get_or, set, replicate, u64, is_some,
}
use team_os_3_0_baios.Types.{max_irq}
use team_os_3_0_baios.Demo.Error.{Error, ok, invalid_arg, busy}

-- `BAIOS_IRQ_TIMER`
abbrev pub irq_timer : ℕ
irq_timer = 0

-- A name in a descriptor: none after `memset`, the caller's text, or "irq" with the number.
pub data IrqName : Type 0 where
  empty : IrqName
  given : String → IrqName
  numbered : ℕ → IrqName

-- `baios_irq_desc_t`
pub record IrqDesc : Type 0 where
  pub irq : ℕ
  pub handler : Option ℕ
  pub context : ℕ
  pub flags : ℕ
  pub count : ℕ
  pub enabled : Bool
  pub name : IrqName

abbrev pub zero_desc : IrqDesc
zero_desc = record {
  irq = 0;
  handler = none;
  context = 0;
  flags = 0;
  count = 0;
  enabled = false;
  name = empty;
}

-- The table of the file's static state, and whether it is ready.
pub record IrqTable : Type 0 where
  pub table : List IrqDesc
  pub ready : Bool

-- A call `handler(irq, context)`.
pub record Invocation : Type 0 where
  pub handler : ℕ
  pub irq : ℕ
  pub context : ℕ

abbrev pub desc_at : IrqTable → ℕ → IrqDesc
desc_at s irq = get_or s.table irq zero_desc

-- `irq_init`, on the table
unfoldable pub init : IrqTable → Error × IrqTable
init s = (ok, record { table = replicate max_irq zero_desc; ready = true })

abbrev pub name_of : ℕ → Option String → IrqName
name_of irq none = numbered irq
name_of irq (some name) = given name

-- What `irq_register` writes.
abbrev pub new_desc : ℕ → ℕ → ℕ → Option String → IrqDesc
new_desc irq handler context name = record {
  irq = irq;
  handler = some handler;
  context = context;
  flags = 0;
  count = 0;
  enabled = true;
  name = name_of irq name;
}

-- `irq_register`
unfoldable pub register : IrqTable → ℕ → Option ℕ → ℕ → Option String → Error × IrqTable
register s irq none context name = (invalid_arg, s)
register s irq (some handler) context name =
    if not s.ready || leb max_irq irq
    then (invalid_arg, s)
    else if is_some (desc_at s irq).handler
    then (busy, s)
    else (ok, record s { table = set s.table irq (new_desc irq handler context name) })

-- `irq_unregister`
unfoldable pub unregister : IrqTable → ℕ → Error × IrqTable
unregister s irq =
    if leb max_irq irq
    then (invalid_arg, s)
    else (ok, record s { table = set s.table irq zero_desc })

abbrev pub set_enabled : IrqTable → ℕ → Bool → IrqTable
set_enabled s irq b = record s { table = set s.table irq (record (desc_at s irq) { enabled = b }) }

-- `irq_enable`
unfoldable pub enable : IrqTable → ℕ → Error × IrqTable
enable s irq =
    if leb max_irq irq || not (is_some (desc_at s irq).handler)
    then (invalid_arg, s)
    else (ok, set_enabled s irq true)

-- `irq_disable`
unfoldable pub disable : IrqTable → ℕ → Error × IrqTable
disable s irq = if leb max_irq irq then (invalid_arg, s) else (ok, set_enabled s irq false)

-- `desc->count++` and the call.
abbrev pub fire : IrqTable → ℕ → Option ℕ → IrqTable × Option Invocation
fire s irq none = (s, none)
fire s irq (some handler) = (
  record s {
    table = set s.table irq (record (desc_at s irq) { count = u64 ((desc_at s irq).count + 1) });
  },
  some (record { handler = handler; irq = irq; context = (desc_at s irq).context }),
)

-- `irq_dispatch`
unfoldable pub dispatch : IrqTable → ℕ → IrqTable × Option Invocation
dispatch s irq =
    if leb max_irq irq || not (desc_at s irq).enabled
    then (s, none)
    else fire s irq (desc_at s irq).handler
