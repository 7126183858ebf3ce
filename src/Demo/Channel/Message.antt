-- ===== src/Demo/Channel/Message.antt =====
-- Sending and receiving in BIOS/ipc/zero_copy.c, lines 120 to 252.
use team_os_3_0_baios.Base.{
  ℕ, zero, suc, ◌+◌, ◌*◌, ◌/◌, ◌%◌, List, [], ◌++◌, Option, none, some, Bool, ◌&&◌, ◌==◌, ltb,
  if◌then◌else◌, get_or, set, take, drop, u32, sub64, min,
}
use team_os_3_0_baios.Demo.Error.{
  Error, ok, invalid_arg, busy, not_found, overflow, corrupt, timeout,
}
use team_os_3_0_baios.Demo.Channel.{
  Env, Ipc, Channel, Header, zero_header, checksum, find_channel, channel_at, put_channel,
  ring_full, ring_empty,
}

-- What a receive gives: the header, the bytes copied out, the length, if it is written.
pub record Received : Type 0 where
  pub status : Error
  pub header : Option Header
  pub bytes : List ℕ
  pub len : Option ℕ
  pub state : Ipc

abbrev pub failed : Ipc → Error → Received
failed s st = record { status = st; header = none; bytes = []; len = none; state = s }

module _ (env : Env) where
  -- The header in the slot, before the payload is looked at.
  abbrev pub stamp : Header → ℕ → ℕ → Header
  stamp hdr now len = record hdr { magic = env.magic; timestamp_ns = now; payload_size = len }

  -- The slot at the head of the outgoing ring written, and the ring's head as it was.
  abbrev pub write_slot : Channel → Header → Channel
  write_slot c h = record c { tx = record c.tx { slots = set c.tx.slots c.tx.head h } }

  -- The slot written and the head moved on.
  abbrev pub publish : Channel → Header → Channel
  publish c h = record c {
    tx = record c.tx { head = (c.tx.head + 1) % c.tx.capacity; slots = set c.tx.slots c.tx.head h };
  }

  abbrev pub send_empty : Channel → Header → Error × Channel
  send_empty c h = (ok, publish c (record h { payload_offset = 0; checksum = 0 }))

  -- A payload of `len` bytes into the payload area. When it is too long the slot has been written.
  abbrev pub send_bytes : Channel → Header → List ℕ → ℕ → Error × Channel
  send_bytes c h bytes len =
      if ltb (sub64 c.shm_size (2 * env.ring_size)) len then (overflow, write_slot c h) else (
        ok,
        publish (record c { area = take len bytes ++ drop len c.area })
            (record h { payload_offset = 2 * env.ring_size; checksum = checksum (take len bytes) }),
      )

  abbrev pub send_payload : Channel → Header → Option (List ℕ) → ℕ → Error × Channel
  send_payload c h none len = send_empty c h
  send_payload c h (some bytes) len = if len == 0 then send_empty c h else send_bytes c h bytes len

  abbrev pub send_at : Ipc → Option ℕ → Option Header → Option (List ℕ) → ℕ → ℕ → Error × Ipc
  send_at s none hdr payload len now = (invalid_arg, s)
  send_at s (some i) none payload len now = (invalid_arg, s)
  send_at s (some i) (some hdr) payload len now =
      let c = channel_at s i in
      let (st, c') = send_payload c (stamp hdr now len) payload len in
      if ring_full c.tx then (busy, s) else (st, put_channel s i c')

  -- `baios_ipc_send`
  unfoldable pub send : Ipc → ℕ → Option Header → Option (List ℕ) → ℕ → ℕ → Error × Ipc
  send s handle hdr payload len now = send_at s (find_channel s handle) hdr payload len now

  -- The bytes of the region from an offset on.
  abbrev pub read : Channel → ℕ → ℕ → List ℕ
  read c offset n = if offset == 2 * env.ring_size then take n c.area else env.raw c offset n

  -- The incoming ring with its tail moved on.
  abbrev pub consume : Ipc → ℕ → Ipc
  consume s i =
      let c = channel_at s i in
      put_channel s i (record c { rx = record c.rx { tail = (c.rx.tail + 1) % c.rx.capacity } })

  -- A message without payload, or for which no place was given.
  abbrev pub recv_header : Ipc → ℕ → Header → Option ℕ → Received
  recv_header s i h none = record {
    status = ok;
    header = some h;
    bytes = [];
    len = none;
    state = consume s i;
  }
  recv_header s i h (some n) = record {
    status = ok;
    header = some h;
    bytes = [];
    len = some 0;
    state = consume s i;
  }

  -- A message with a payload, and the places for it and for its length.
  abbrev pub recv_bytes : Ipc → ℕ → Header → ℕ → Received
  recv_bytes s i h room =
      let n = min h.payload_size room in
      let bytes = read (channel_at s i) h.payload_offset n in
      if checksum bytes == h.checksum
      then record { status = ok; header = some h; bytes = bytes; len = some n; state = consume s i }
      else record { status = corrupt; header = some h; bytes = bytes; len = some n; state = s }

  abbrev pub recv_slot : Ipc → ℕ → Header → Bool → Option ℕ → Received
  recv_slot s i h place none = recv_header s i h none
  recv_slot s i h place (some room) =
      if place && ltb 0 h.payload_size then recv_bytes s i h room else recv_header s i h (some room)

  abbrev pub try_recv_at : Ipc → Option ℕ → Bool → Option ℕ → Received
  try_recv_at s none place room = failed s invalid_arg
  try_recv_at s (some i) place room =
      let c = channel_at s i in
      let h = get_or c.rx.slots c.rx.tail zero_header in
      if ring_empty c.rx
      then failed s not_found
      else if h.magic == env.magic
      then recv_slot s i h place room
      else failed s corrupt

  -- `baios_ipc_try_recv`, with a place for the header: `place` says whether there is one for the
  -- payload, `room` the length that stands in the place for it, if there is one.
  unfoldable pub try_recv : Ipc → ℕ → Bool → Option ℕ → Received
  try_recv s handle place room = try_recv_at s (find_channel s handle) place room

  abbrev pub again : Received → Received → Received
  again r rest = elim r.status [ not_found ↦ rest | _ ↦ r ]

  -- The loop of `baios_ipc_recv`: nothing happens between two attempts.
  abbrev pub attempts : ℕ → Ipc → ℕ → Bool → Option ℕ → Received
  attempts zero s handle place room = failed s timeout
  attempts (suc n) s handle place room =
      again (try_recv s handle place room) (attempts n s handle place room)

  -- `baios_ipc_recv`
  unfoldable pub recv : Ipc → ℕ → Bool → Option ℕ → ℕ → Received
  recv s handle place room timeout_ms = attempts (u32 (timeout_ms / 5 + 1)) s handle place room

  -- `baios_ipc_hw_to_sw`
  unfoldable pub hw_to_sw : Ipc → ℕ → Option (List ℕ) → ℕ → ℕ → Error × Ipc
  unfolding send
  hw_to_sw s opcode payload len now =
      send s s.main
        (some (record zero_header {
          kind = env.notify;
          src_id = env.hw_id;
          dst_id = env.sw_id;
          opcode = opcode;
          flags = env.no_reply;
        }))
        payload len now

  abbrev pub replied : Error × Ipc → Option ℕ → Error × Option ℕ × Ipc
  replied (ok, s) none = (ok, none, s)
  replied (ok, s) (some n) = (ok, some 0, s)
  replied (st, s) reply_len = (st, reply_len, s)

  -- `baios_ipc_sw_to_hw`: the status and the length of the reply, if it has a place.
  unfoldable pub sw_to_hw : Ipc → ℕ → Option (List ℕ) → ℕ → Option ℕ → ℕ → Error × Option ℕ × Ipc
  unfolding send
  sw_to_hw s opcode payload len reply_len now =
      replied
        (send s s.main
          (some (record zero_header {
            kind = env.request;
            src_id = env.sw_id;
            dst_id = env.hw_id;
            opcode = opcode;
          }))
          payload len now)
        reply_len
