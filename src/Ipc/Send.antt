-- ===== src/Ipc/Send.antt =====
-- Sending: what `ipc_send_on` and its callers do to the two queues and to the counters.
use team_os_3_0_baios.Base.{
  ℕ, ◌+◌, ◌≤◌, ◌<◌, ◌≡◌, refl, List, [], ◌∷◌, ◌++◌, some, arith, length, modify, u64,
}
use team_os_3_0_baios.Types.{ok, overflow}
use team_os_3_0_baios.Queue.{enqueue}
use team_os_3_0_baios.Ring.{Msg}
use team_os_3_0_baios.Ring.Refine.{contents, limit, push_status, ring_push_refines}
use team_os_3_0_baios.Ipc.{
  Ipc, RingId, to_hw, to_sw, ipc_send_on, send_to_hw, send_to_sw, stamp, count_sent, count_tx,
  count_drop, get_ring,
}
use team_os_3_0_baios.Ipc.Valid.{IsReady}

-- The messages on their way in one direction, oldest first.
abbrev pub queue : Ipc → RingId → List Msg
queue s ring = contents (get_ring s ring)

abbrev pub opposite : RingId → RingId
opposite to_hw = to_sw
opposite to_sw = to_hw

-- `ipc_send_on` is `enqueue` of the stamped message on one queue. It leaves the other queue alone,
-- uses up a sequence number whether or not there was room, and counts on the channel.
pub ipc_send_on_lem :
    {s : Ipc} (ring : RingId) (ch : ℕ) (m : Msg) (now : ℕ)
    → IsReady s
    → let (st, s') = ipc_send_on s ring ch m now in
      let (b, q) = enqueue limit (queue s ring) (stamp s m now) in
      (st ≡ push_status b)
      × (queue s' ring ≡ q)
      × (queue s' (opposite ring) ≡ queue s (opposite ring))
      × (s'.seq_counter ≡ u64 (s.seq_counter + 1))
      × (s'.channels ≡ modify s.channels ch (count_sent (push_status b)))
unfolding ipc_send_on
ipc_send_on_lem {s} to_hw ch m now v =
    let pushed = ring_push_refines (stamp s m now) v.to_hw_valid in
    (pushed.0, pushed.1, refl, refl, rw pushed.0)
ipc_send_on_lem {s} to_sw ch m now v =
    let pushed = ring_push_refines (stamp s m now) v.to_sw_valid in
    (pushed.0, pushed.1, refl, refl, rw pushed.0)

-- With room in the ring towards the hardware kernel, `baios_ipc_send_to_hw` succeeds: the message
-- goes to the end of that queue with the next sequence number and the time, the other queue stays
-- as it was, and channel 0 counts one more message sent.
pub send_to_hw-ok :
    {s : Ipc} (m : Msg) (now : ℕ)
    → IsReady s
    → length (queue s to_hw) < limit
    → let (st, s') = send_to_hw s (some m) now in
      (st ≡ ok)
      × (queue s' to_hw ≡ queue s to_hw ++ (stamp s m now ∷ []))
      × (queue s' to_sw ≡ queue s to_sw)
      × (s'.channels ≡ modify s.channels 0 count_tx)
unfolding send_to_hw enqueue
send_to_hw-ok {s} m now v room = ground (arith, ipc_send_on_lem to_hw 0 m now v)

-- With the ring full the call returns `overflow`: no queue changes, the message is lost, and
-- channel 0 counts one more message dropped.
pub send_to_hw-overflow :
    {s : Ipc} (m : Msg) (now : ℕ)
    → IsReady s
    → limit ≤ length (queue s to_hw)
    → let (st, s') = send_to_hw s (some m) now in
      (st ≡ overflow)
      × (queue s' to_hw ≡ queue s to_hw)
      × (queue s' to_sw ≡ queue s to_sw)
      × (s'.channels ≡ modify s.channels 0 count_drop)
unfolding send_to_hw enqueue
send_to_hw-overflow {s} m now v full = ground (arith, ipc_send_on_lem to_hw 0 m now v)

-- The same of `baios_ipc_send_to_sw` and the ring towards the software kernel, with room in it.
pub send_to_sw-ok :
    {s : Ipc} (m : Msg) (now : ℕ)
    → IsReady s
    → length (queue s to_sw) < limit
    → let (st, s') = send_to_sw s (some m) now in
      (st ≡ ok)
      × (queue s' to_sw ≡ queue s to_sw ++ (stamp s m now ∷ []))
      × (queue s' to_hw ≡ queue s to_hw)
      × (s'.channels ≡ modify s.channels 0 count_tx)
unfolding send_to_sw enqueue
send_to_sw-ok {s} m now v room = ground (arith, ipc_send_on_lem to_sw 0 m now v)
