-- ===== src/Ipc/Run.antt =====
-- Histories: any sequence of calls of the two kernels, one at a time.
use team_os_3_0_baios.Base.{
  ℕ, ◌+◌, ◌≡◌, refl, true, List, [], ◌∷◌, Option, none, some, arith, ap, ap₂, sym, ◌∙◌, subst, u64,
  fun_ext,
}
use team_os_3_0_baios.Types.{Status, ok, again}
use team_os_3_0_baios.Queue.{enqueue, dequeue}
use team_os_3_0_baios.Ring.{Msg}
use team_os_3_0_baios.Ring.Refine.{limit, push_status}
use team_os_3_0_baios.Ipc.{
  Ipc, RingId, to_hw, to_sw, ipc_send_on, send_to_hw, send_to_sw, recv_from_sw, recv_from_hw,
  Received, returned, waiting,
}
use team_os_3_0_baios.Ipc.Valid.{IsReady, ipc_send_on-IsReady}
use team_os_3_0_baios.Ipc.Send.{queue, opposite, ipc_send_on_lem}
use team_os_3_0_baios.Ipc.Recv.{recv_from_sw-nonblocking, recv_from_hw-nonblocking, Attempt}

-- A message and the time at which it is sent, or a poll with timeout 0, in either direction.
pub data Call : Type 0 where
  sends : RingId → Msg → ℕ → Call
  polls : RingId → ℕ → Call

-- What a call gives to its caller.
pub data Reply : Type 0 where
  sent : Status → Reply
  got : Status → Option Msg → Reply
  stuck : Reply

-- The state after a receive.
abbrev after_recv : Ipc → Received → Reply × Ipc
after_recv s (returned st out s') = (got st out, s')
after_recv s _ = (stuck, s)

abbrev after_send : Status × Ipc → Reply × Ipc
after_send (st, s') = (sent st, s')

call : Ipc → Call → Reply × Ipc
call s (sends to_hw m now) = after_send (send_to_hw s (some m) now)
call s (sends to_sw m now) = after_send (send_to_sw s (some m) now)
call s (polls to_hw start) = after_recv s (recv_from_sw s true 0 start [])
call s (polls to_sw start) = after_recv s (recv_from_hw s true 0 start [])

pub run : Ipc → List Call → List Reply
unfolding call
run s [] = []
run s (c ∷ cs) = let (r, s') = call s c in r ∷ run s' cs

-- The promise: two queues of at most 31 messages and a counter that numbers what is sent.
pub record Spec : Type 0 where
  pub queues : RingId → List Msg
  pub counter : ℕ

abbrev pub view : Ipc → Spec
view s = record { queues = queue s; counter = s.seq_counter }

abbrev put_queue : (RingId → List Msg) → RingId → List Msg → RingId → List Msg
put_queue f to_hw q to_hw = q
put_queue f to_hw q to_sw = f to_sw
put_queue f to_sw q to_hw = f to_hw
put_queue f to_sw q to_sw = q

abbrev poll_reply : Option Msg → Reply
poll_reply none = got again none
poll_reply (some m) = got ok (some m)

abbrev spec_call : Spec → Call → Reply × Spec
spec_call a (sends ring m now) =
    let (b, q) = enqueue limit (a.queues ring) (record m { seq = a.counter; timestamp_ns = now }) in
    (
      sent (push_status b),
      record { queues = put_queue a.queues ring q; counter = u64 (a.counter + 1) },
    )
spec_call a (polls ring start) =
    let (x, q) = dequeue (a.queues ring) in
    (poll_reply x, record a { queues = put_queue a.queues ring q })

pub spec_run : Spec → List Call → List Reply
spec_run a [] = []
spec_run a (c ∷ cs) = let (r, a') = spec_call a c in r ∷ spec_run a' cs

-- One call does what the specification does, and keeps the state ready.
record Refines (s : Ipc) (c : Call) : Type 0 where
  reply : (call s c).0 ≡ (spec_call (view s) c).0
  state : view (call s c).1 ≡ (spec_call (view s) c).1
  valid : IsReady (call s c).1

view-eq :
    (s s' : Ipc) (ring : RingId) (q : List Msg) (n : ℕ)
    → queue s' ring ≡ q
    → queue s' (opposite ring) ≡ queue s (opposite ring)
    → s'.seq_counter ≡ n
    → view s' ≡ record { queues = put_queue (queue s) ring q; counter = n }
view-eq s s' to_hw q n a b e = λ i. record { queues = pointwise i; counter = e i }
  where
    pointwise : queue s' ≡ put_queue (queue s) to_hw q
    pointwise = fun_ext (elim [ to_hw ↦ a | to_sw ↦ b ])
view-eq s s' to_sw q n a b e = λ i. record { queues = pointwise i; counter = e i }
  where
    pointwise : queue s' ≡ put_queue (queue s) to_sw q
    pointwise = fun_ext (elim [ to_hw ↦ b | to_sw ↦ a ])

send_to_hw-eq :
    (s : Ipc) (m : Msg) (now : ℕ)
    → s.ready ≡ true
    → send_to_hw s (some m) now ≡ ipc_send_on s to_hw 0 m now
unfolding send_to_hw
send_to_hw-eq s m now e = ground arith

send_to_sw-eq :
    (s : Ipc) (m : Msg) (now : ℕ)
    → s.ready ≡ true
    → send_to_sw s (some m) now ≡ ipc_send_on s to_sw 0 m now
unfolding send_to_sw
send_to_sw-eq s m now e = ground arith

record Sends (s : Ipc) (ring : RingId) (m : Msg) (now : ℕ) (out : Status × Ipc) : Type 0 where
  reply : (after_send out).0 ≡ (spec_call (view s) (sends ring m now)).0
  state : view out.1 ≡ (spec_call (view s) (sends ring m now)).1
  valid : IsReady out.1

ipc_send_on-Sends :
    {s : Ipc} (ring : RingId) (m : Msg) (now : ℕ)
    → IsReady s
    → Sends s ring m now (ipc_send_on s ring 0 m now)
ipc_send_on-Sends {s} ring m now v =
    let sent_on = ipc_send_on_lem ring 0 m now v in
    record {
      reply = ap sent sent_on.0;
      state = view-eq s (ipc_send_on s ring 0 m now).1 ring _ _ sent_on.1 sent_on.2 sent_on.3;
      valid = ipc_send_on-IsReady ring 0 m now v;
    }

record Polls (s : Ipc) (ring : RingId) (start : ℕ) (out : Received) : Type 0 where
  reply : (after_recv s out).0 ≡ (spec_call (view s) (polls ring start)).0
  state : view (after_recv s out).1 ≡ (spec_call (view s) (polls ring start)).1
  valid : IsReady (after_recv s out).1

-- An attempt on an empty queue leaves the queue as it was.
dequeue-none : (q : List Msg) {q' : List Msg} → dequeue q ≡ (none, q') → q' ≡ q
unfolding dequeue
dequeue-none [] e = ground arith
dequeue-none (m ∷ q) e = ground arith

Attempt-Polls :
    {s : Ipc} (ring : RingId) (start ch : ℕ) (by_clock : Received) (out : Received)
    (x : Option Msg × List Msg)
    → IsReady s
    → dequeue (queue s ring) ≡ x
    → Attempt s ring ch 0 by_clock x out
    → Polls s ring start out
Attempt-Polls {s} ring start ch by_clock out (none, q) v e a = rw a record {
  reply = rw e refl;
  state = rw e (view-eq s s ring q s.seq_counter (sym (dequeue-none (queue s ring) e)) refl refl);
  valid = v;
}
Attempt-Polls {s} ring start ch by_clock out (some m, q) v e (s', a, valid, same, other, _, seq) =
    rw a record {
      reply = rw e refl;
      state = rw e (view-eq s s' ring q s.seq_counter same other seq);
      valid = valid;
    }

call-Refines : {s : Ipc} (c : Call) → IsReady s → Refines s c
unfolding call
call-Refines {s} (sends to_hw m now) v =
    let done =
      subst (Sends s to_hw m now) (sym (send_to_hw-eq s m now v.is_ready))
        (ipc_send_on-Sends to_hw m now v) in
    record { reply = done.reply; state = done.state; valid = done.valid }
call-Refines {s} (sends to_sw m now) v =
    let done =
      subst (Sends s to_sw m now) (sym (send_to_sw-eq s m now v.is_ready))
        (ipc_send_on-Sends to_sw m now v) in
    record { reply = done.reply; state = done.state; valid = done.valid }
call-Refines {s} (polls to_hw start) v =
    let done =
      Attempt-Polls to_hw start 0 (waiting s) (recv_from_sw s true 0 start [])
        (dequeue (queue s to_hw)) v refl (recv_from_sw-nonblocking start [] v) in
    record { reply = done.reply; state = done.state; valid = done.valid }
call-Refines {s} (polls to_sw start) v =
    let done =
      Attempt-Polls to_sw start 0 (waiting s) (recv_from_hw s true 0 start [])
        (dequeue (queue s to_sw)) v refl (recv_from_hw-nonblocking start [] v) in
    record { reply = done.reply; state = done.state; valid = done.valid }

-- From any ready state, every sequence of sends and polls of both kernels gets the replies that
-- two bounded queues and one counter give: messages come out once each, in order, stamped in the
-- order of sending, and `overflow` and `again` exactly when the queue is full or empty.
pub run_refines : (cs : List Call) {s : Ipc} → IsReady s → run s cs ≡ spec_run (view s) cs
unfolding run spec_run
run_refines [] v = refl
run_refines (c ∷ cs) {s} v =
    let one = call-Refines c v in
    ap₂ ◌∷◌ one.reply (run_refines cs one.valid ∙ ap (λ a. spec_run a cs) one.state)
