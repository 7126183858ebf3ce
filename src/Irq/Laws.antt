-- ===== src/Irq/Laws.antt =====
-- What registering, releasing and dispatching an interrupt do.
use team_os_3_0_baios.Base.{
  ℕ, ◌+◌, ◌<◌, ◌≡◌, ◌≢◌, refl, Option, none, some, true, false, set, length, length-set,
  get_or-set_self, get_or-set_ne, arith, u64, has_bit, is_some,
}
use Prim.Native.String.{String}
use team_os_3_0_baios.Types.{ok, busy, max_irq}
use team_os_3_0_baios.Irq.{
  Irqs, zero_desc, desc_at, request, new_desc, counted, dispatch, get_count,
}
use team_os_3_0_baios.Irq.Count.{IsValid}

-- What a granted request has checked and written.
request-ok :
    (s : Irqs) (irq h opaque flags : ℕ) (name : Option String)
    → (request s irq (some h) opaque name flags).0 ≡ ok
    → (s.ready ≡ true)
      × (irq < max_irq)
      × ((request s irq (some h) opaque name flags).1
          ≡ record s { irqs = set s.irqs irq (new_desc h opaque name flags) })
unfolding request
request-ok s irq h opaque flags name e = ground arith

-- The first dispatch after that write.
dispatch-new :
    (s : Irqs) (irq h opaque flags : ℕ) (name : Option String)
    → s.ready ≡ true
    → irq < max_irq
    → irq < length s.irqs
    → dispatch (record s { irqs = set s.irqs irq (new_desc h opaque name flags) }) irq ≡ (
      record s {
        irqs =
            set
              (set s.irqs irq (new_desc h opaque name flags))
              irq
              (counted (new_desc h opaque name flags));
        total = u64 (s.total + 1);
      },
      some (record { handler = h; irq = irq; opaque = opaque }),
    )
unfolding dispatch
dispatch-new s irq h opaque flags name up range size =
    ground (arith, get_or-set_self s.irqs irq (new_desc h opaque name flags) zero_desc)

-- A registered handler is the one that the next dispatch of its interrupt calls, with the context
-- that was registered, and the count then stands at 1.
pub dispatch-request :
    {s : Irqs} (irq h opaque flags : ℕ) (name : Option String)
    → IsValid s
    → (request s irq (some h) opaque name flags).0 ≡ ok
    → let s' = (request s irq (some h) opaque name flags).1 in
      ((dispatch s' irq).1 ≡ some (record { handler = h; irq = irq; opaque = opaque }))
      × (get_count (dispatch s' irq).0 irq ≡ 1)
unfolding get_count
dispatch-request {s} irq h opaque flags name v e =
    let d = new_desc h opaque name flags in
    let (up, range, written) = request-ok s irq h opaque flags name e in
    rw (written, dispatch-new s irq h opaque flags name up range (omega (arith, v.sized)))
      (
        refl,
        ground (
          arith,
          get_or-set_self (set s.irqs irq d) irq (counted d) zero_desc,
          length-set s.irqs irq d,
          v.sized,
        ),
      )

-- An interrupt with no handler, or out of range, changes nothing and calls nothing.
pub dispatch_unhandled :
    (s : Irqs) (irq : ℕ) → (desc_at s irq).handler ≡ none → dispatch s irq ≡ (s, none)
unfolding dispatch
dispatch_unhandled s irq e = ground arith

-- A dispatch of one interrupt leaves the descriptor of every other as it was.
pub dispatch_other :
    (s : Irqs) (irq other : ℕ) → irq ≢ other → desc_at (dispatch s irq).0 other ≡ desc_at s other
unfolding dispatch
dispatch_other s irq other ne =
    ground (arith, get_or-set_ne s.irqs irq other (counted (desc_at s irq)) zero_desc)

-- An exclusive request of an interrupt that has a handler is refused.
pub request_busy :
    (s : Irqs) (irq h opaque flags : ℕ) (name : Option String)
    → s.ready ≡ true
    → irq < max_irq
    → is_some (desc_at s irq).handler ≡ true
    → has_bit flags 0 ≡ false
    → request s irq (some h) opaque name flags ≡ (busy, s)
unfolding request
request_busy s irq h opaque flags name up range taken e = ground arith

request_granted :
    (s : Irqs) (irq h opaque flags : ℕ) (name : Option String)
    → s.ready ≡ true
    → irq < max_irq
    → has_bit flags 0 ≡ true
    → (request s irq (some h) opaque name flags).0 ≡ ok
unfolding request
request_granted s irq h opaque flags name up range e = ground arith

before :
    (s : Irqs) (irq old : ℕ)
    → s.ready ≡ true
    → irq < max_irq
    → (desc_at s irq).handler ≡ some old
    → (dispatch s irq).1
      ≡ some (record { handler = old; irq = irq; opaque = (desc_at s irq).opaque })
unfolding dispatch
before s irq old up range taken = ground arith

-- In a valid, started state, a request with the shared flag, of an interrupt in range that has a
-- handler, is granted and replaces that handler: the dispatch before calls the old handler, and
-- the one after only the new one.
pub request_shared_replaces :
    {s : Irqs} (irq h opaque flags : ℕ) (name : Option String) (old : ℕ)
    → IsValid s
    → s.ready ≡ true
    → irq < max_irq
    → (desc_at s irq).handler ≡ some old
    → has_bit flags 0 ≡ true
    → let (st, s') = request s irq (some h) opaque name flags in
      ((dispatch s irq).1
        ≡ some (record { handler = old; irq = irq; opaque = (desc_at s irq).opaque }))
      × (st ≡ ok)
      × ((dispatch s' irq).1 ≡ some (record { handler = h; irq = irq; opaque = opaque }))
request_shared_replaces {s} irq h opaque flags name old v up range taken e =
    let granted = request_granted s irq h opaque flags name up range e in
    (
      before s irq old up range taken,
      granted,
      (dispatch-request irq h opaque flags name v granted).0,
    )
