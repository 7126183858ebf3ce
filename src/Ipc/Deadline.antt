-- ===== src/Ipc/Deadline.antt =====
-- When the loop of a receive ends.
use team_os_3_0_baios.Base.{
  ℕ, ◌≤◌, true, List, [], ◌∷◌, Option, some, arith, leb, sym, subst, ◌==◌, ◌⊎◌, inl, inr,
  Bool-cases,
}
use team_os_3_0_baios.Types.{Status, ok}
use team_os_3_0_baios.Ring.{Msg, Ring, ring_pop}
use team_os_3_0_baios.Ipc.{
  Ipc, RingId, to_hw, Poll, Received, returned, waiting, fault, after_pop, recv_round, recv_loop,
  recv_from_sw, deadline_of, get_ring,
}
use team_os_3_0_baios.Ipc.Recv.{recv_from_sw-loop, recv_from_sw-not_ready}

-- Some reading of the clock shows the deadline.
abbrev pub Passes : ℕ → List Poll → Type 0
Passes deadline [] = ⊥
Passes deadline (p ∷ polls) = (deadline ≤ p.now) ⊎ Passes deadline polls

abbrev pub HasReturned : Received → Type 0
HasReturned (returned st out s) = Unit {0}
HasReturned (waiting s) = ⊥
HasReturned fault = ⊥

after_pop-HasReturned :
    (ch timeout_ms : ℕ) (ring : RingId) (s : Ipc) (by_clock : Received)
    (popped : Status × Option Msg × Ring)
    → HasReturned by_clock
    → HasReturned (after_pop ch timeout_ms ring s by_clock popped)
unfolding after_pop
after_pop-HasReturned ch timeout_ms ring s by_clock (ok, out, r) h = tt
after_pop-HasReturned ch timeout_ms ring s by_clock (_, out, r) h =
    elim (Bool-cases (timeout_ms == 0)) [ inl e ↦ rw e tt | inr e ↦ rw e h ]

loop-HasReturned :
    (ring : RingId) (ch timeout_ms deadline : ℕ) (s : Ipc) (polls : List Poll)
    → Passes deadline polls
    → HasReturned (recv_loop (λ _. some ring) ch timeout_ms deadline s polls)
unfolding recv_loop recv_round
loop-HasReturned ring ch timeout_ms deadline s [] h = absurd h
loop-HasReturned ring ch timeout_ms deadline s (p ∷ polls) h =
    after_pop-HasReturned ch timeout_ms ring s _ (ring_pop (get_ring s ring))
      (elim (Bool-cases (leb deadline p.now)) [
        | inl e ↦ rw e tt
        | inr e ↦ rw e (
            loop-HasReturned ring ch timeout_ms deadline (p.others s) polls
              (later h (ground arith)))
      ])
  where
    later :
        (deadline ≤ p.now) ⊎ Passes deadline polls → ¬ (deadline ≤ p.now) → Passes deadline polls
    later (inl now) n = absurd (n now)
    later (inr rest) n = rest

-- Once a reading of the clock shows the deadline, `baios_ipc_recv_from_sw` has returned, whatever
-- the other kernel does in between.
pub recv_from_sw-HasReturned :
    (s : Ipc) (timeout_ms start : ℕ) (polls : List Poll)
    → Passes (deadline_of start timeout_ms) polls
    → HasReturned (recv_from_sw s true timeout_ms start polls)
recv_from_sw-HasReturned s timeout_ms start polls h = elim (Bool-cases s.ready) [
  | inl e ↦
      subst HasReturned (sym (recv_from_sw-loop s timeout_ms start polls e))
        (loop-HasReturned to_hw 0 timeout_ms (deadline_of start timeout_ms) s polls h)
  | inr e ↦ subst HasReturned (sym (recv_from_sw-not_ready s timeout_ms start polls e)) tt
]
