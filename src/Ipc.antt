-- ===== src/Ipc.antt =====
-- The zero-copy IPC of BIOS/src/ipc/zero_copy.c: two rings between the software and the hardware
-- microkernel, and the channels that point to them.
-- The clock is outside: each operation that reads it takes what `now_ns` returns. A null pointer
-- that is dereferenced is a fault, the `none` of `send` and the `fault` of a receive. Each ring
-- operation is taken as atomic, as the source's comments say a real kernel would make it.
pub mod Valid
pub mod Send
pub mod Recv
pub mod Deadline
pub mod Seq
pub mod Run
pub mod Channels
mod Tests
use team_os_3_0_baios.Base.{
  ℕ, ◌+◌, ◌*◌, ◌%◌, ◌^◌, List, [], ◌∷◌, Option, none, some, Bool, true, false, not, ◌&&◌, ◌||◌, leb,
  ◌==◌, if◌then◌else◌, get_elem?, set, modify, replicate, u32, u64,
}
use team_os_3_0_baios.Types.{
  Status, ok, inval, overflow, again, timeout, state_error, max_ipc_channels,
}
use team_os_3_0_baios.Ring.{Msg, Ring, ring_init, ring_push, ring_pop}

-- What a channel's ring pointers point to: `g_sw_to_hw_ring` or `g_hw_to_sw_ring`.
pub data RingId : Type 0 where
  to_hw to_sw : RingId

-- `baios_ipc_channel_t`
pub record Channel : Type 0 where
  pub id : ℕ
  pub sw_to_hw : Option RingId
  pub hw_to_sw : Option RingId
  pub tx_count : ℕ
  pub rx_count : ℕ
  pub drop_count : ℕ

-- A channel after `memset` to 0.
abbrev pub zero_channel : Channel
zero_channel = record {
  id = 0;
  sw_to_hw = none;
  hw_to_sw = none;
  tx_count = 0;
  rx_count = 0;
  drop_count = 0;
}

-- The file's static state.
pub record Ipc : Type 0 where
  pub sw_to_hw_ring : Ring
  pub hw_to_sw_ring : Ring
  pub channels : List Channel
  pub channel_count : ℕ
  pub ready : Bool
  pub seq_counter : ℕ

abbrev pub get_ring : Ipc → RingId → Ring
get_ring s to_hw = s.sw_to_hw_ring
get_ring s to_sw = s.hw_to_sw_ring

abbrev pub set_ring : Ipc → RingId → Ring → Ipc
set_ring s to_hw r = record s { sw_to_hw_ring = r }
set_ring s to_sw r = record s { hw_to_sw_ring = r }

-- A channel that points to both rings.
abbrev pub open_channel : ℕ → Channel → Channel
open_channel id c = record c { id = id; sw_to_hw = some to_hw; hw_to_sw = some to_sw }

-- `baios_ipc_init`
unfoldable pub init : Ipc → Status × Ipc
init s = if s.ready then (state_error, s) else (
  ok,
  record {
    sw_to_hw_ring = ring_init;
    hw_to_sw_ring = ring_init;
    channels = modify (replicate max_ipc_channels zero_channel) 0 (open_channel 0);
    channel_count = 1;
    ready = true;
    seq_counter = 1;
  },
)

-- `baios_ipc_shutdown`: the rings keep what they hold.
unfoldable pub shutdown : Ipc → Ipc
shutdown s =
    if s.ready
    then record s {
      ready = false;
      channels = replicate max_ipc_channels zero_channel;
      channel_count = 0;
    }
    else s

-- `baios_ipc_create_channel`. `given` says that `out_id` is not null; the option is what goes
-- through it.
unfoldable pub create_channel : Ipc → Bool → Status × Option ℕ × Ipc
create_channel s given =
    if not s.ready || not given
    then (inval, none, s)
    else if leb max_ipc_channels s.channel_count
    then (overflow, none, s)
    else (
      ok,
      some s.channel_count,
      record s {
        channels = modify s.channels s.channel_count (open_channel s.channel_count);
        channel_count = u32 (s.channel_count + 1);
      },
    )

-- `baios_ipc_destroy_channel`
unfoldable pub destroy_channel : Ipc → ℕ → Status × Ipc
destroy_channel s id =
    if not s.ready || id == 0 || leb s.channel_count id
    then (inval, s)
    else (ok, record s { channels = set s.channels id zero_channel })

abbrev pub count_tx : Channel → Channel
count_tx c = record c { tx_count = u64 (c.tx_count + 1) }

abbrev pub count_drop : Channel → Channel
count_drop c = record c { drop_count = u64 (c.drop_count + 1) }

abbrev pub count_rx : Channel → Channel
count_rx c = record c { rx_count = u64 (c.rx_count + 1) }

-- The copy that goes into the ring.
abbrev pub stamp : Ipc → Msg → ℕ → Msg
stamp s m now = record m { seq = s.seq_counter; timestamp_ns = now }

-- The counter that `ipc_send_on` moves, by the status of the push.
abbrev pub count_sent : Status → Channel → Channel
count_sent ok = count_tx
count_sent _ = count_drop

-- `ipc_send_on`, on channel number `ch`
unfoldable pub ipc_send_on : Ipc → RingId → ℕ → Msg → ℕ → Status × Ipc
ipc_send_on s ring ch m now =
    let (st, r) = ring_push (get_ring s ring) (stamp s m now) in
    (
      st,
      set_ring
          (record s {
            seq_counter = u64 (s.seq_counter + 1);
            channels = modify s.channels ch (count_sent st);
          })
          ring r,
    )

-- `ch->sw_to_hw` and `ch->hw_to_sw`
abbrev pub tx_of : Option Channel → Option RingId
tx_of none = none
tx_of (some c) = c.sw_to_hw

abbrev pub rx_of : Option Channel → Option RingId
rx_of none = none
rx_of (some c) = c.hw_to_sw

abbrev pub tx_ring : Ipc → ℕ → Option RingId
tx_ring s id = tx_of (get_elem? s.channels id)

abbrev pub rx_ring : Ipc → ℕ → Option RingId
rx_ring s id = rx_of (get_elem? s.channels id)

-- `baios_ipc_send`; `none` for the message is a null pointer.
unfoldable pub send : Ipc → ℕ → Option Msg → ℕ → Option (Status × Ipc)
send s id none now = some (inval, s)
send s id (some m) now =
    if not s.ready || leb s.channel_count id
    then some (inval, s)
    else elim (tx_ring s id) [ none ↦ none | some ring ↦ some (ipc_send_on s ring id m now) ]

-- `baios_ipc_send_to_hw`
unfoldable pub send_to_hw : Ipc → Option Msg → ℕ → Status × Ipc
send_to_hw s none now = (inval, s)
send_to_hw s (some m) now = if not s.ready then (inval, s) else ipc_send_on s to_hw 0 m now

-- `baios_ipc_send_to_sw`
unfoldable pub send_to_sw : Ipc → Option Msg → ℕ → Status × Ipc
send_to_sw s none now = (inval, s)
send_to_sw s (some m) now = if not s.ready then (inval, s) else ipc_send_on s to_sw 0 m now

-- What happens between two rounds of a receive's loop: what `now_ns` returns at the end of the
-- round, and what the other kernel does to the shared state before the next.
pub record Poll : Type 0 where
  pub now : ℕ
  pub others : Ipc → Ipc

pub data Received : Type 0 where
  returned : Status → Option Msg → Ipc → Received
  -- the list of polls is at its end, and the loop goes on
  waiting : Ipc → Received
  fault : Received

-- One round after `ring_pop`: a message is returned, an empty ring with no timeout is `again`,
-- and otherwise the round ends by the clock.
unfoldable pub after_pop : ℕ → ℕ → RingId → Ipc → Received → Status × Option Msg × Ring → Received
after_pop ch timeout_ms ring s by_clock (ok, out, r) =
    returned ok out (set_ring (record s { channels = modify s.channels ch count_rx }) ring r)
after_pop ch timeout_ms ring s by_clock (_, out, r) =
    if timeout_ms == 0 then returned again none s else by_clock

-- The body of the `for (;;)` of both receives, on channel number `ch`; `source` reads the ring's
-- pointer, as each round does.
unfoldable pub recv_round : (Ipc → Option RingId) → ℕ → ℕ → Ipc → Received → Received
unfolding after_pop
recv_round source ch timeout_ms s by_clock = elim (source s) [
  | none ↦ fault
  | some ring ↦ after_pop ch timeout_ms ring s by_clock (ring_pop (get_ring s ring))
]

-- The loop recurs on the polls.
unfoldable pub recv_loop : (Ipc → Option RingId) → ℕ → ℕ → ℕ → Ipc → List Poll → Received
unfolding recv_round
recv_loop source ch timeout_ms deadline s [] = recv_round source ch timeout_ms s (waiting s)
recv_loop source ch timeout_ms deadline s (p ∷ polls) =
    let rest = recv_loop source ch timeout_ms deadline (p.others s) polls in
    recv_round source ch timeout_ms s (if leb deadline p.now then returned timeout none s else rest)

-- `now_ns() + (u64)timeout_ms * 1000000`
abbrev pub deadline_of : ℕ → ℕ → ℕ
deadline_of start timeout_ms = u64 (start + timeout_ms * 1000000)

-- `baios_ipc_recv`, started when the clock shows `start`; `given` says that `out` is not null.
unfoldable pub recv : Ipc → ℕ → Bool → ℕ → ℕ → List Poll → Received
recv s id given timeout_ms start polls =
    if not s.ready || not given || leb s.channel_count id
    then returned inval none s
    else recv_loop (λ t. rx_ring t id) id timeout_ms (deadline_of start timeout_ms) s polls

-- `baios_ipc_recv_from_hw`
unfoldable pub recv_from_hw : Ipc → Bool → ℕ → ℕ → List Poll → Received
unfolding recv
recv_from_hw s given timeout_ms start polls = recv s 0 given timeout_ms start polls

-- `baios_ipc_recv_from_sw`
unfoldable pub recv_from_sw : Ipc → Bool → ℕ → ℕ → List Poll → Received
recv_from_sw s given timeout_ms start polls =
    if not s.ready || not given
    then returned inval none s
    else recv_loop (λ _. some to_hw) 0 timeout_ms (deadline_of start timeout_ms) s polls
