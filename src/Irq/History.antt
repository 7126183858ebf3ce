-- ===== src/Irq/History.antt =====
-- Histories of the interrupt framework: any sequence of requests, releases and dispatches.
use Prim.Native.String.{String}
use team_os_3_0_baios.Base.{
  ℕ, ◌+◌, ◌≤◌, ◌<◌, ◌^◌, ◌≡◌, refl, List, [], ◌∷◌, Option, none, some, arith, length,
}
use team_os_3_0_baios.Irq.{Irqs, Invocation, request, free, dispatch, fire, desc_at}
use team_os_3_0_baios.Irq.Count.{IsValid, request-IsValid, free-IsValid, dispatch-IsValid}

-- A call of the framework, with what it is given.
pub data Call : Type 0 where
  requests : (irq : ℕ) (handler : Option ℕ) (opaque : ℕ) (name : Option String) (flags : ℕ) → Call
  frees : (irq opaque : ℕ) → Call
  dispatches : (irq : ℕ) → Call

-- The handler that is called, if one is, and the state after.
pub call : Irqs → Call → Option Invocation × Irqs
call s (requests irq handler opaque name flags) =
    (none, (request s irq handler opaque name flags).1)
call s (frees irq opaque) = (none, (free s irq opaque).1)
call s (dispatches irq) = let (s', out) = dispatch s irq in (out, s')

abbrev with_invocation : Option Invocation → List Invocation → List Invocation
with_invocation none made = made
with_invocation (some i) made = i ∷ made

-- All handlers that are called, in order, and the state at the end.
pub run : Irqs → List Call → List Invocation × Irqs
unfolding call
run s [] = ([], s)
run s (c ∷ cs) =
    let (out, s') = call s c in let (made, s'') = run s' cs in (with_invocation out made, s'')

-- A call counts what it makes.
abbrev Counts : Irqs → Option Invocation → Irqs → Type 0
Counts s none s' = s'.total ≡ s.total
Counts s (some i) s' = s'.total ≡ s.total + 1

fire-Counts :
    (s : Irqs) (irq : ℕ) (handler : Option ℕ)
    → s.total + 1 < 2 ^ 64
    → Counts s (fire s irq handler).1 (fire s irq handler).0
fire-Counts s irq none small = refl
fire-Counts s irq (some h) small = omega arith

dispatch-Counts :
    (s : Irqs) (irq : ℕ) → s.total + 1 < 2 ^ 64 → Counts s (dispatch s irq).1 (dispatch s irq).0
unfolding dispatch
dispatch-Counts s irq small = ground (arith, fire-Counts s irq (desc_at s irq).handler small)

request-total :
    (s : Irqs) (irq : ℕ) (handler : Option ℕ) (opaque : ℕ) (name : Option String) (flags : ℕ)
    → (request s irq handler opaque name flags).1.total ≡ s.total
unfolding request
request-total s irq none opaque name flags = refl
request-total s irq (some h) opaque name flags = ground arith

free-total : (s : Irqs) (irq opaque : ℕ) → (free s irq opaque).1.total ≡ s.total
unfolding free
free-total s irq opaque = ground arith

call-Counts : (s : Irqs) (c : Call) → s.total + 1 < 2 ^ 64 → Counts s (call s c).0 (call s c).1
unfolding call
call-Counts s (requests irq handler opaque name flags) small =
    request-total s irq handler opaque name flags
call-Counts s (frees irq opaque) small = free-total s irq opaque
call-Counts s (dispatches irq) small = dispatch-Counts s irq small

call-IsValid : (s : Irqs) (c : Call) → s.total + 1 < 2 ^ 64 → IsValid s → IsValid (call s c).1
unfolding call
call-IsValid s (requests irq handler opaque name flags) small v =
    request-IsValid irq handler opaque name flags v
call-IsValid s (frees irq opaque) small v = free-IsValid irq opaque v
call-IsValid s (dispatches irq) small v = dispatch-IsValid irq small v

with_invocation-total :
    (s s' : Irqs) (out : Option Invocation) (made : List Invocation) (n : ℕ)
    → Counts s out s'
    → n ≡ s'.total + length made
    → n ≡ s.total + length (with_invocation out made)
with_invocation-total s s' none made n c e = omega (arith, c, e)
with_invocation-total s s' (some i) made n c e = omega (arith, c, e)

Counts-le : (s s' : Irqs) (out : Option Invocation) → Counts s out s' → s'.total ≤ s.total + 1
Counts-le s s' none c = omega (arith, c)
Counts-le s s' (some i) c = omega (arith, c)

-- As long as the total cannot wrap, after every sequence of requests, releases and dispatches the
-- total has grown by exactly the number of handlers that were called, and the counters of the
-- interrupts together show no more than the total.
pub run-total :
    (cs : List Call) {s : Irqs}
    → IsValid s
    → s.total + length cs < 2 ^ 64
    → let (made, s') = run s cs in (s'.total ≡ s.total + length made) × IsValid s'
unfolding run
run-total [] {s} v small = (omega arith, v)
run-total (c ∷ cs) {s} v small =
    let counts = call-Counts s c (omega arith) in
    let s' = (call s c).1 in
    let rest =
      run-total cs (call-IsValid s c (omega arith) v)
        (omega (arith, Counts-le s s' (call s c).0 counts, small)) in
    (
      with_invocation-total s s' (call s c).0 (run s' cs).0 (run s' cs).1.total counts rest.0,
      rest.1,
    )
