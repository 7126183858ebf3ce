-- ===== src/Ipc/Recv.antt =====
-- Receiving: what one round of the loop takes from the queue.
use team_os_3_0_baios.Base.{
  ℕ, ◌≡◌, refl, true, false, List, [], ◌∷◌, Option, none, some, arith, modify, leb, ◌∙◌, subst,
  ◌==◌, if◌then◌else◌, length-modify,
}
use team_os_3_0_baios.Types.{Status, ok, inval, again, timeout}
use team_os_3_0_baios.Queue.{dequeue}
use team_os_3_0_baios.Ring.{Msg, Ring}
use team_os_3_0_baios.Ring.Valid.{IsValid, ring_pop-IsValid}
use team_os_3_0_baios.Ring.Refine.{contents, pop_status, ring_pop_refines}
use team_os_3_0_baios.Ipc.{
  Ipc, RingId, to_hw, to_sw, Poll, Received, returned, waiting, after_pop, recv_round, recv_loop,
  recv_from_sw, recv_from_hw, deadline_of, count_rx, get_ring, set_ring, rx_ring,
}
use team_os_3_0_baios.Ipc.Valid.{IsReady, rx_of-modify}
use team_os_3_0_baios.Ipc.Send.{queue, opposite}

-- The state after the oldest message, which leaves `r`, has been taken on channel `ch`.
abbrev pub taken : Ipc → RingId → ℕ → Ring → Ipc
taken s ring ch r = set_ring (record s { channels = modify s.channels ch count_rx }) ring r

-- A ring of the state, its validity and its queue.
get_ring-IsValid : {s : Ipc} (ring : RingId) → IsReady s → IsValid (get_ring s ring)
get_ring-IsValid to_hw v = v.to_hw_valid
get_ring-IsValid to_sw v = v.to_sw_valid

-- What an attempt came to, as `dequeue` on the queue says.
abbrev pub Attempt : Ipc → RingId → ℕ → ℕ → Received → Option Msg × List Msg → Received → Type 0
Attempt s ring ch timeout_ms by_clock (none, q) out =
    out ≡ (if timeout_ms == 0 then returned again none s else by_clock)
Attempt s ring ch timeout_ms by_clock (some m, q) out =
    (s' : Ipc) × (out ≡ returned ok (some m) s')
    × IsReady s'
    × (queue s' ring ≡ q)
    × (queue s' (opposite ring) ≡ queue s (opposite ring))
    × (s'.channels ≡ modify s.channels ch count_rx)
    × (s'.seq_counter ≡ s.seq_counter)

taken-IsReady :
    {s : Ipc} (ring : RingId) (ch : ℕ) (r : Ring)
    → IsReady s
    → IsValid r
    → IsReady (taken s ring ch r)
taken-IsReady {s} to_hw ch r v w = ground (
  arith,
  length-modify s.channels ch count_rx,
  rx_of-modify s.channels ch 0 count_rx (λ c. (refl, refl)),
)
taken-IsReady {s} to_sw ch r v w = ground (
  arith,
  length-modify s.channels ch count_rx,
  rx_of-modify s.channels ch 0 count_rx (λ c. (refl, refl)),
)

queue-taken :
    (s : Ipc) (ring : RingId) (ch : ℕ) (r : Ring)
    → (queue (taken s ring ch r) ring ≡ contents r)
      × (queue (taken s ring ch r) (opposite ring) ≡ queue s (opposite ring))
      × ((taken s ring ch r).channels ≡ modify s.channels ch count_rx)
      × ((taken s ring ch r).seq_counter ≡ s.seq_counter)
queue-taken s to_hw ch r = (refl, refl, refl, refl)
queue-taken s to_sw ch r = (refl, refl, refl, refl)

after_pop-Attempt :
    {s : Ipc} (ring : RingId) (ch timeout_ms : ℕ) (by_clock : Received) (st : Status)
    (out : Option Msg) (r : Ring) (x : Option Msg × List Msg)
    → IsReady s
    → IsValid r
    → st ≡ pop_status x.0
    → out ≡ x.0
    → contents r ≡ x.1
    → Attempt s ring ch timeout_ms by_clock x (after_pop ch timeout_ms ring s by_clock (st, out, r))
unfolding after_pop
after_pop-Attempt ring ch timeout_ms by_clock st out r (none, q) v w e f g = rw e refl
after_pop-Attempt {s} ring ch timeout_ms by_clock st out r (some m, q) v w e f g =
    let parts = queue-taken s ring ch r in
    (
      taken s ring ch r,
      rw (e, f) refl,
      taken-IsReady ring ch r v w,
      parts.0 ∙ g,
      parts.1,
      parts.2,
      parts.3,
    )

-- One round of a receive, with its ring pointer not null, is `dequeue` on that ring's queue: the
-- oldest message is returned, the other queue stays and channel `ch` counts one received; and on
-- an empty queue nothing changes, and the round gives `again` with no timeout and else waits.
pub recv_round_lem :
    {s : Ipc} (source : Ipc → Option RingId) (ring : RingId) (ch timeout_ms : ℕ)
    (by_clock : Received)
    → IsReady s
    → source s ≡ some ring
    → Attempt s ring ch timeout_ms by_clock
        (dequeue (queue s ring))
        (recv_round source ch timeout_ms s by_clock)
unfolding recv_round
recv_round_lem {s} source ring ch timeout_ms by_clock v e =
    let valid = get_ring-IsValid ring v in
    let popped = ring_pop_refines valid in
    rw (e, recv_round)
      (after_pop-Attempt ring ch timeout_ms by_clock _ _ _ (dequeue (queue s ring)) v
        (ring_pop-IsValid valid) popped.0 popped.1 popped.2)

pub recv_from_sw-loop :
    (s : Ipc) (timeout_ms start : ℕ) (polls : List Poll)
    → s.ready ≡ true
    → recv_from_sw s true timeout_ms start polls
      ≡ recv_loop (λ _. some to_hw) 0 timeout_ms (deadline_of start timeout_ms) s polls
unfolding recv_from_sw
recv_from_sw-loop s timeout_ms start polls e = ground arith

pub recv_from_sw-not_ready :
    (s : Ipc) (timeout_ms start : ℕ) (polls : List Poll)
    → s.ready ≡ false
    → recv_from_sw s true timeout_ms start polls ≡ returned inval none s
unfolding recv_from_sw
recv_from_sw-not_ready s timeout_ms start polls e = ground arith

Attempt-zero :
    (s : Ipc) (ring : RingId) (ch : ℕ) (b b' : Received) (x : Option Msg × List Msg)
    (out : Received)
    → Attempt s ring ch 0 b x out
    → Attempt s ring ch 0 b' x out
Attempt-zero s ring ch b b' (none, q) out h = h
Attempt-zero s ring ch b b' (some m, q) out h = h

loop_first :
    {s : Ipc} (source : Ipc → Option RingId) (ring : RingId) (ch deadline : ℕ) (polls : List Poll)
    → IsReady s
    → source s ≡ some ring
    → Attempt s ring ch 0
        (waiting s)
        (dequeue (queue s ring))
        (recv_loop source ch 0 deadline s polls)
unfolding recv_loop
loop_first {s} source ring ch deadline [] v e = recv_round_lem source ring ch 0 (waiting s) v e
loop_first {s} source ring ch deadline (p ∷ polls) v e =
    let by_clock : Received =
      if leb deadline p.now
      then returned timeout none s
      else recv_loop source ch 0 deadline (p.others s) polls in
    Attempt-zero s ring ch by_clock (waiting s) (dequeue (queue s ring))
      (recv_round source ch 0 s by_clock) (recv_round_lem source ring ch 0 by_clock v e)

-- With timeout 0 it returns in its first round, whatever the clock shows: the oldest message
-- with `ok`, or `again` and no change when the queue is empty.
pub recv_from_sw-nonblocking :
    {s : Ipc} (start : ℕ) (polls : List Poll)
    → IsReady s
    → Attempt s to_hw 0 0 (waiting s) (dequeue (queue s to_hw)) (recv_from_sw s true 0 start polls)
recv_from_sw-nonblocking {s} start polls v =
    rw (recv_from_sw-loop s 0 start polls v.is_ready)
      (loop_first (λ _. some to_hw) to_hw 0 (deadline_of start 0) polls v refl)

recv_from_hw-loop :
    {s : Ipc} (timeout_ms start : ℕ) (polls : List Poll)
    → IsReady s
    → recv_from_hw s true timeout_ms start polls
      ≡ recv_loop (λ t. rx_ring t 0) 0 timeout_ms (deadline_of start timeout_ms) s polls
unfolding recv_from_hw
recv_from_hw-loop timeout_ms start polls v = ground arith

-- The same of `baios_ipc_recv_from_hw` and the queue towards the software kernel.
pub recv_from_hw-nonblocking :
    {s : Ipc} (start : ℕ) (polls : List Poll)
    → IsReady s
    → Attempt s to_sw 0 0 (waiting s) (dequeue (queue s to_sw)) (recv_from_hw s true 0 start polls)
recv_from_hw-nonblocking {s} start polls v =
    rw (recv_from_hw-loop 0 start polls v)
      (loop_first (λ t. rx_ring t 0) to_sw 0 (deadline_of start 0) polls v v.rx_default)

loop_some :
    {s : Ipc} (source : Ipc → Option RingId) (ring : RingId) (ch timeout_ms deadline : ℕ)
    (polls : List Poll) {m : Msg} {q : List Msg}
    → IsReady s
    → source s ≡ some ring
    → dequeue (queue s ring) ≡ (some m, q)
    → Attempt s ring ch timeout_ms
        (waiting s)
        (some m, q)
        (recv_loop source ch timeout_ms deadline s polls)
unfolding recv_loop
loop_some {s} source ring ch timeout_ms deadline [] v e first =
    subst
      (λ x.
        Attempt s ring ch timeout_ms (waiting s) x (recv_round source ch timeout_ms s (waiting s)))
      first (recv_round_lem source ring ch timeout_ms (waiting s) v e)
loop_some {s} source ring ch timeout_ms deadline (p ∷ polls) v e first =
    let by_clock : Received =
      if leb deadline p.now
      then returned timeout none s
      else recv_loop source ch timeout_ms deadline (p.others s) polls in
    subst
      (λ x. Attempt s ring ch timeout_ms by_clock x (recv_round source ch timeout_ms s by_clock))
      first (recv_round_lem source ring ch timeout_ms by_clock v e)

-- With a message waiting, `baios_ipc_recv_from_sw` returns the oldest in its first round, whatever
-- its timeout and the clock.
pub recv_from_sw-some :
    {s : Ipc} (timeout_ms start : ℕ) (polls : List Poll) {m : Msg} {q : List Msg}
    → IsReady s
    → dequeue (queue s to_hw) ≡ (some m, q)
    → Attempt s to_hw 0 timeout_ms
        (waiting s)
        (some m, q)
        (recv_from_sw s true timeout_ms start polls)
recv_from_sw-some {s} timeout_ms start polls v first =
    rw (recv_from_sw-loop s timeout_ms start polls v.is_ready) (
      loop_some (λ _. some to_hw) to_hw 0 timeout_ms (deadline_of start timeout_ms) polls v refl
        first)
