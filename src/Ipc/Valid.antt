-- ===== src/Ipc/Valid.antt =====
-- The invariant of the IPC state of BIOS/src/ipc/zero_copy.c, and the operations on it.
use team_os_3_0_baios.Base.{
  ℕ, zero, suc, ◌≤◌, ◌<◌, ◌≡◌, refl, Bool, true, false, List, [], ◌∷◌, some, arith, length,
  get_elem?, modify, length-modify, length-set, length-replicate, get_elem?-modify_ne,
  get_elem?-set_ne, replicate,
}
use team_os_3_0_baios.Types.{Status, ok, max_ipc_channels}
use team_os_3_0_baios.Ring.{Msg, ring_push}
use team_os_3_0_baios.Ring.Valid.{IsValid, ring_init-IsValid, ring_push-IsValid}
use team_os_3_0_baios.Ipc.{
  Ipc, RingId, to_hw, to_sw, Channel, zero_channel, open_channel, init, create_channel,
  destroy_channel, ipc_send_on, stamp, count_sent, tx_ring, rx_ring, tx_of, rx_of,
}

pub record IsReady (s : Ipc) : Type 0 where
  pub is_ready : s.ready ≡ true
  pub to_hw_valid : IsValid s.sw_to_hw_ring
  pub to_sw_valid : IsValid s.hw_to_sw_ring
  pub channels_sized : length s.channels ≡ max_ipc_channels
  pub count_in : s.channel_count ≤ max_ipc_channels
  pub has_default : 0 < s.channel_count
  -- channel 0 points to both rings
  pub tx_default : tx_ring s 0 ≡ some to_hw
  pub rx_default : rx_ring s 0 ≡ some to_sw

-- Counting on a channel leaves every channel's ring pointers.
pub rx_of-modify :
    (cs : List Channel) (ch i : ℕ) (f : Channel → Channel)
    → ((c : Channel) → ((f c).hw_to_sw ≡ c.hw_to_sw) × ((f c).sw_to_hw ≡ c.sw_to_hw))
    → (rx_of (get_elem? (modify cs ch f) i) ≡ rx_of (get_elem? cs i))
      × (tx_of (get_elem? (modify cs ch f) i) ≡ tx_of (get_elem? cs i))
rx_of-modify [] ch i f h = (refl, refl)
rx_of-modify (c ∷ cs) zero zero f h = h c
rx_of-modify (c ∷ cs) zero (suc i) f h = (refl, refl)
rx_of-modify (c ∷ cs) (suc ch) zero f h = (refl, refl)
rx_of-modify (c ∷ cs) (suc ch) (suc i) f h = rx_of-modify cs ch i f h

pub count_sent-rings :
    (st : Status) (c : Channel)
    → ((count_sent st c).hw_to_sw ≡ c.hw_to_sw) × ((count_sent st c).sw_to_hw ≡ c.sw_to_hw)
count_sent-rings ok c = (refl, refl)
count_sent-rings _ c = (refl, refl)

pub init-IsReady : (s : Ipc) → s.ready ≡ false → IsReady (init s).1
unfolding init
init-IsReady s h = ground (
  arith,
  ring_init-IsValid,
  length-modify (replicate max_ipc_channels zero_channel) 0 (open_channel 0),
  length-replicate max_ipc_channels zero_channel,
)

pub create_channel-IsReady :
    {s : Ipc} (given : Bool) → IsReady s → IsReady (create_channel s given).2
unfolding create_channel
create_channel-IsReady {s} given v = ground (
  arith,
  length-modify s.channels s.channel_count (open_channel s.channel_count),
  get_elem?-modify_ne s.channels s.channel_count 0 (open_channel s.channel_count),
)

pub destroy_channel-IsReady : {s : Ipc} (id : ℕ) → IsReady s → IsReady (destroy_channel s id).1
unfolding destroy_channel
destroy_channel-IsReady {s} id v =
    ground
      (arith, length-set s.channels id zero_channel, get_elem?-set_ne s.channels id 0 zero_channel)

pub ipc_send_on-IsReady :
    {s : Ipc} (ring : RingId) (ch : ℕ) (m : Msg) (now : ℕ)
    → IsReady s
    → IsReady (ipc_send_on s ring ch m now).1
unfolding ipc_send_on
ipc_send_on-IsReady {s} to_hw ch m now v = ground (
  arith,
  ring_push-IsValid (stamp s m now) v.to_hw_valid,
  length-modify s.channels ch (count_sent (ring_push s.sw_to_hw_ring (stamp s m now)).0),
  rx_of-modify s.channels ch 0 (count_sent (ring_push s.sw_to_hw_ring (stamp s m now)).0)
      (count_sent-rings (ring_push s.sw_to_hw_ring (stamp s m now)).0),
)
ipc_send_on-IsReady {s} to_sw ch m now v = ground (
  arith,
  ring_push-IsValid (stamp s m now) v.to_sw_valid,
  length-modify s.channels ch (count_sent (ring_push s.hw_to_sw_ring (stamp s m now)).0),
  rx_of-modify s.channels ch 0 (count_sent (ring_push s.hw_to_sw_ring (stamp s m now)).0)
      (count_sent-rings (ring_push s.hw_to_sw_ring (stamp s m now)).0),
)
