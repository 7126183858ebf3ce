-- ===== src/Ipc/Seq.antt =====
-- Sequence numbers: those of the messages in each queue, against the counter.
use team_os_3_0_baios.Base.{
  ℕ, ◌+◌, ◌≤◌, ◌<◌, ◌^◌, ◌≡◌, refl, false, List, [], ◌∷◌, ◌++◌, arith, length, ltb, Bool-cases, inl,
  inr,
}
use team_os_3_0_baios.Queue.{enqueue}
use team_os_3_0_baios.Ring.{Msg}
use team_os_3_0_baios.Ring.Refine.{limit, contents-ring_init}
use team_os_3_0_baios.Ipc.{Ipc, RingId, to_hw, to_sw, ipc_send_on, stamp, init}
use team_os_3_0_baios.Ipc.Valid.{IsReady}
use team_os_3_0_baios.Ipc.Send.{queue, opposite, ipc_send_on_lem}

-- The numbers rise strictly, from `lo` on and below `hi`.
abbrev pub Rising : ℕ → ℕ → List Msg → Type 0
Rising lo hi [] = lo ≤ hi
Rising lo hi (m ∷ ms) = (lo ≤ m.seq) × Rising (m.seq + 1) hi ms

pub Rising-weaken :
    (ms : List Msg) {lo lo' hi hi' : ℕ} → lo' ≤ lo → hi ≤ hi' → Rising lo hi ms → Rising lo' hi' ms
Rising-weaken [] p q h = omega arith
Rising-weaken (m ∷ ms) p q h = (omega arith, Rising-weaken ms (omega arith) q h.1)

pub Rising-append :
    (ms : List Msg) (lo hi : ℕ) (m : Msg)
    → m.seq ≡ hi
    → Rising lo hi ms
    → Rising lo (hi + 1) (ms ++ (m ∷ []))
Rising-append [] lo hi m e h = (omega arith, omega arith)
Rising-append (x ∷ ms) lo hi m e h = (h.0, Rising-append ms (x.seq + 1) hi m e h.1)

-- Both queues.
pub record IsOrdered (s : Ipc) : Type 0 where
  pub to_hw_rising : Rising 1 s.seq_counter (queue s to_hw)
  pub to_sw_rising : Rising 1 s.seq_counter (queue s to_sw)

queue-Rising : {s : Ipc} (ring : RingId) → IsOrdered s → Rising 1 s.seq_counter (queue s ring)
queue-Rising to_hw o = o.to_hw_rising
queue-Rising to_sw o = o.to_sw_rising

of_queues :
    (s : Ipc) (ring : RingId)
    → Rising 1 s.seq_counter (queue s ring)
    → Rising 1 s.seq_counter (queue s (opposite ring))
    → IsOrdered s
of_queues s to_hw a b = record { to_hw_rising = a; to_sw_rising = b }
of_queues s to_sw a b = record { to_hw_rising = b; to_sw_rising = a }

enqueue-Rising :
    (lo hi n : ℕ) (q : List Msg) (m : Msg)
    → m.seq ≡ hi
    → Rising lo hi q
    → Rising lo (hi + 1) (enqueue n q m).1
unfolding enqueue
enqueue-Rising lo hi n q m e h = elim (Bool-cases (ltb (length q) n)) [
  | inl t ↦ rw t (Rising-append q lo hi m e h)
  | inr f ↦ rw f (Rising-weaken q (omega arith) (omega arith) h)
]

-- In a ready state, and while the counter does not wrap, a send keeps the sequence numbers of both
-- queues rising strictly.
pub ipc_send_on-IsOrdered :
    {s : Ipc} (ring : RingId) (ch : ℕ) (m : Msg) (now : ℕ)
    → IsReady s
    → s.seq_counter + 1 < 2 ^ 64
    → IsOrdered s
    → IsOrdered (ipc_send_on s ring ch m now).1
ipc_send_on-IsOrdered {s} ring ch m now v small o =
    let sent = ipc_send_on_lem ring ch m now v in
    let counted : (ipc_send_on s ring ch m now).1.seq_counter ≡ s.seq_counter + 1 =
      omega (arith, sent.3) in
    of_queues _ ring
      (rw (sent.1, counted)
        (enqueue-Rising 1 s.seq_counter limit (queue s ring) (stamp s m now) refl
          (queue-Rising ring o)))
      (rw (sent.2, counted)
        (Rising-weaken (queue s (opposite ring)) (omega arith) (omega arith)
          (queue-Rising (opposite ring) o)))

-- After `baios_ipc_init` both queues are empty.
pub init-IsOrdered : (s : Ipc) → s.ready ≡ false → IsOrdered (init s).1
unfolding init
init-IsOrdered s h =
    rw (h, init)
      (of_queues _ to_hw (rw contents-ring_init (omega arith))
        (rw contents-ring_init (omega arith)))
