-- ===== src/Demo/Channel.antt =====
-- The channels of BIOS/ipc/zero_copy.c, over the shared regions of Demo/Shm.
-- No header declares its constants and the sizes of its types, which the record `Env` gives. The
-- two rings and the payload area of a channel, which lie in its shared region, are fields of the
-- channel; the bytes that a ring is made of are not shown, and `raw` gives them. The clock is an
-- input.
mod Tests
pub mod Message
pub mod Silence
pub mod Sends
use Prim.Native.String.{String}
use team_os_3_0_baios.Base.{
  ℕ, zero, suc, ◌+◌, ◌*◌, ◌/◌, ◌%◌, ◌^◌, List, [], ◌∷◌, ◌++◌, Option, none, some, Bool, true, false,
  not, ◌&&◌, ◌==◌, ltb, leb, if◌then◌else◌, get_or, set, replicate, length, take, drop, u32, u64,
  sub64, min,
}
use team_os_3_0_baios.Demo.Error.{
  Error, ok, invalid_arg, busy, no_memory, not_found, overflow, corrupt, timeout,
}
use team_os_3_0_baios.Demo.Search.{find_index}
use team_os_3_0_baios.Demo.Shm.{Shm}
use team_os_3_0_baios.Demo.Shm

-- `MAX_CHANNELS`
abbrev pub max_channels : ℕ
max_channels = 16

-- `baios_ipc_header_t`, with the fields that this file uses.
pub record Header : Type 0 where
  pub magic : ℕ
  pub kind : ℕ
  pub src_id : ℕ
  pub dst_id : ℕ
  pub opcode : ℕ
  pub flags : ℕ
  pub timestamp_ns : ℕ
  pub payload_size : ℕ
  pub payload_offset : ℕ
  pub checksum : ℕ

abbrev pub zero_header : Header
zero_header = record {
  magic = 0;
  kind = 0;
  src_id = 0;
  dst_id = 0;
  opcode = 0;
  flags = 0;
  timestamp_ns = 0;
  payload_size = 0;
  payload_offset = 0;
  checksum = 0;
}

-- `baios_ipc_ring_t`
pub record Ring : Type 0 where
  pub head : ℕ
  pub tail : ℕ
  pub capacity : ℕ
  pub slots : List Header

-- `baios_ipc_channel_t`, with what its region holds.
pub record Channel : Type 0 where
  pub handle : ℕ
  pub name : String
  pub shm_base : ℕ
  pub shm_size : ℕ
  pub tx : Ring
  pub rx : Ring
  pub area : List ℕ
  pub local_id : ℕ
  pub remote_id : ℕ
  pub active : Bool

abbrev pub zero_ring : Ring
zero_ring = record { head = 0; tail = 0; capacity = 0; slots = [] }

abbrev pub zero_channel : Channel
zero_channel = record {
  handle = 0;
  name = "";
  shm_base = 0;
  shm_size = 0;
  tx = zero_ring;
  rx = zero_ring;
  area = [];
  local_id = 0;
  remote_id = 0;
  active = false;
}

-- The static state of the file, and that of the shared regions below it.
pub record Ipc : Type 0 where
  pub shm : Shm
  pub channels : List Channel
  pub count : ℕ
  pub ready : Bool
  pub main : ℕ

-- What the code takes from names that no header declares.
pub record Env : Type 0 where
  pub slots : ℕ
  pub ring_size : ℕ
  pub magic : ℕ
  pub access : ℕ
  pub notify : ℕ
  pub request : ℕ
  pub hw_id : ℕ
  pub sw_id : ℕ
  pub no_reply : ℕ
  pub heap : ℕ
  pub mark : ℕ → ℕ
  pub clip : String → String
  pub clip_channel : String → String
  pub raw : Channel → ℕ → ℕ → List ℕ

-- The loop of `baios_ipc_checksum`.
abbrev pub add_bytes : ℕ → List ℕ → ℕ
add_bytes sum [] = sum
add_bytes sum (b ∷ bs) = add_bytes (u32 (u32 (sum * 2 ^ 5) + sum + b)) bs

-- `baios_ipc_checksum`
abbrev pub checksum : List ℕ → ℕ
checksum bytes = add_bytes 762117 bytes

-- `find_channel`: the place in the table, none for the null pointer.
abbrev pub find_channel : Ipc → ℕ → Option ℕ
find_channel s handle = find_index (λ c. (c.handle == handle) && c.active) s.channels s.count

abbrev pub channel_at : Ipc → ℕ → Channel
channel_at s i = get_or s.channels i zero_channel

abbrev pub put_channel : Ipc → ℕ → Channel → Ipc
put_channel s i c = record s { channels = set s.channels i c }

-- `ring_full`
abbrev pub ring_full : Ring → Bool
ring_full r = (r.head + 1) % r.capacity == r.tail

-- `ring_empty`
abbrev pub ring_empty : Ring → Bool
ring_empty r = r.head == r.tail

-- A ring after `memset` and its capacity.
abbrev pub new_ring : ℕ → Ring
new_ring n = record { head = 0; tail = 0; capacity = n; slots = replicate n zero_header }

module _ (env : Env) where
  -- What `baios_ipc_create_channel` writes.
  abbrev pub new_channel : ℕ → String → ℕ → ℕ → Channel
  new_channel handle name base size = record {
    handle = handle;
    name = env.clip_channel name;
    shm_base = base;
    shm_size = size;
    tx = new_ring env.slots;
    rx = new_ring env.slots;
    area = [];
    local_id = 0;
    remote_id = 1;
    active = true;
  }

  abbrev pub add_channel : Ipc → ℕ → String → ℕ → Error × Option ℕ × Shm → Error × Option ℕ × Ipc
  add_channel s handle name size (st, none, shm) = (st, none, record s { shm = shm })
  add_channel s handle name size (st, some base, shm) = (
    ok,
    some handle,
    record s {
      shm = shm;
      channels = set s.channels s.count (new_channel handle name base size);
      count = s.count + 1;
    },
  )

  abbrev pub attach_new : Ipc → String → ℕ → Error × Option ℕ × Shm → Error × Option ℕ × Ipc
  attach_new s name size (st, none, shm) = (st, none, record s { shm = shm })
  attach_new s name size (st, some handle, shm) =
      add_channel s handle name size (Shm.attach shm handle)

  -- `baios_ipc_create_channel`, with a place for the handle: the status and the handle.
  unfoldable pub create_channel : Ipc → Option String → ℕ → Error × Option ℕ × Ipc
  create_channel s none size = (invalid_arg, none, s)
  create_channel s (some name) size =
      if ltb size (env.ring_size * 2)
      then (invalid_arg, none, s)
      else if leb max_channels s.count
      then (no_memory, none, s)
      else attach_new s name size
          (Shm.create env.heap env.mark env.clip s.shm (some name) size env.access)

  abbrev pub started : Error × Option ℕ × Ipc → Error × Ipc
  started (st, none, s) = (st, s)
  started (st, some handle, s) = (ok, record s { main = handle; ready = true })

  -- `baios_ipc_init`
  unfoldable pub init : Ipc → Error × Ipc
  unfolding create_channel
  init s =
      if s.ready
      then (ok, s)
      else started (
          create_channel (record s { channels = replicate max_channels zero_channel; count = 0 })
            (some "hw-sw-main") (256 * 1024))

  abbrev pub destroy_at : Ipc → ℕ → Option ℕ → Error × Ipc
  destroy_at s handle none = (not_found, s)
  destroy_at s handle (some i) =
      let (st, shm) = Shm.destroy s.shm handle in
      (st, record (put_channel s i (record (channel_at s i) { active = false })) { shm = shm })

  -- `baios_ipc_destroy_channel`
  unfoldable pub destroy_channel : Ipc → ℕ → Error × Ipc
  destroy_channel s handle = destroy_at s handle (find_channel s handle)
