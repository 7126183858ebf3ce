-- ===== src/Irq/Tests.antt =====
-- The theorems on interrupts at a framework that has just been started.
use team_os_3_0_baios.Base.{List, ◌∷◌, none, length, ◌+◌, ◌≡◌, refl, [], some, true, false, arith}
use team_os_3_0_baios.Types.{ok}
use team_os_3_0_baios.Irq.{Irqs, init, request, dispatch, desc_at}
use team_os_3_0_baios.Irq.Count.{IsValid, init-IsValid, request-IsValid}
use team_os_3_0_baios.Irq.History.{Call, requests, frees, dispatches, run, run-total}
use team_os_3_0_baios.Irq.Laws.{request_shared_replaces}

abbrev off : Irqs
off = record { irqs = []; ready = false; total = 0 }

abbrev started : Irqs
started = (init off).1

started-IsValid : IsValid started
started-IsValid = init-IsValid off refl

granted : (request started 14 (some 100) 7 (some "disk") 0).0 ≡ ok
unfolding request init
granted = refl

-- One handler, that did not ask to share.
abbrev one : Irqs
one = (request started 14 (some 100) 7 (some "disk") 0).1

one-IsValid : IsValid one
one-IsValid = request-IsValid 14 (some 100) 7 (some "disk") 0 started-IsValid

one_facts : (one.ready ≡ true) × ((desc_at one 14).handler ≡ some 100) × (one.total ≡ 0)
unfolding request init
one_facts = (refl, refl, refl)

request_shared_replaces_example :
    let (st, s') = request one 14 (some 200) 8 (some "net") 1 in
    ((dispatch one 14).1
      ≡ some (record { handler = 100; irq = 14; opaque = (desc_at one 14).opaque }))
    × (st ≡ ok)
    × ((dispatch s' 14).1 ≡ some (record { handler = 200; irq = 14; opaque = 8 }))
request_shared_replaces_example =
    request_shared_replaces 14 200 8 1 (some "net") 100 one-IsValid one_facts.0 (omega arith)
      one_facts.1 refl

-- A dispatch with no handler, a request, two dispatches, and one after the release.
abbrev calls : List Call
calls =
    dispatches 3
    ∷ requests 3 (some 100) 7 none 0
    ∷ dispatches 3
    ∷ dispatches 3
    ∷ frees 3 7
    ∷ dispatches 3
    ∷ []

started-total : started.total ≡ 0
unfolding init
started-total = refl

run-total_example :
    let (made, s') = run started calls in (s'.total ≡ started.total + length made) × IsValid s'
run-total_example = run-total calls started-IsValid (omega (arith, started-total))
