-- ===== src/Ring.antt =====
-- The shared ring buffers of BIOS/src/ipc/zero_copy.c (`ring_*`) and their types in
-- BIOS/include/ipc.h. A function that updates `*r` returns the new ring beside its status.
pub mod Valid
pub mod Refine
mod Tests
use team_os_3_0_baios.Base.{
  ℕ, ◌+◌, ◌%◌, List, Option, none, some, Bool, ◌==◌, if◌then◌else◌, get_elem?, set, replicate, u32,
}
use team_os_3_0_baios.Types.{Status, ok, overflow, underflow, ipc_slot_count, ipc_max_msg_size}

-- `baios_ipc_msg_type_t`, as the numbers that `type` holds.
abbrev pub msg_syscall : ℕ
msg_syscall = 1

abbrev pub msg_irq : ℕ
msg_irq = 2

abbrev pub msg_dma_done : ℕ
msg_dma_done = 3

abbrev pub msg_driver : ℕ
msg_driver = 4

abbrev pub msg_power : ℕ
msg_power = 5

abbrev pub msg_reply : ℕ
msg_reply = 6

-- `BAIOS_IPC_FLAG_REPLY`
abbrev pub flag_reply : ℕ
flag_reply = 4

-- `baios_ipc_msg_t`; `payload` is the array `data`, as bytes.
pub record Msg : Type 0 where
  pub type : ℕ
  pub flags : ℕ
  pub src_id : ℕ
  pub dst_id : ℕ
  pub seq : ℕ
  pub timestamp_ns : ℕ
  pub data_len : ℕ
  pub reserved : ℕ
  pub payload : List ℕ

-- A message after `memset` to 0.
abbrev pub zero_msg : Msg
zero_msg = record {
  type = 0;
  flags = 0;
  src_id = 0;
  dst_id = 0;
  seq = 0;
  timestamp_ns = 0;
  data_len = 0;
  reserved = 0;
  payload = replicate ipc_max_msg_size 0;
}

-- `sizeof(baios_ipc_msg_t)`: eight words of 4 or 8 bytes, then the data.
abbrev pub msg_size : ℕ
msg_size = 40 + ipc_max_msg_size

-- `baios_ipc_ring_t`. Each slot holds the bytes of one message, and is read as that message.
pub record Ring : Type 0 where
  pub head : ℕ
  pub tail : ℕ
  pub capacity : ℕ
  pub slot_size : ℕ
  pub slots : List Msg

unfoldable pub ring_init : Ring
ring_init = record {
  head = 0;
  tail = 0;
  capacity = ipc_slot_count;
  slot_size = msg_size;
  slots = replicate ipc_slot_count zero_msg;
}

unfoldable pub ring_full : Ring → Bool
ring_full r = u32 (r.head + 1) % r.capacity == r.tail

unfoldable pub ring_empty : Ring → Bool
ring_empty r = r.head == r.tail

-- `head` is an index of `slots`; at any other a write would change nothing here.
unfoldable pub ring_push : Ring → Msg → Status × Ring
unfolding ring_full
ring_push r msg =
    if ring_full r
    then (overflow, r)
    else (ok, record r { head = u32 (r.head + 1) % r.capacity; slots = set r.slots r.head msg })

-- The option is what goes through `out`: nothing is written when the ring is empty.
unfoldable pub ring_pop : Ring → Status × Option Msg × Ring
unfolding ring_empty
ring_pop r =
    if ring_empty r
    then (underflow, none, r)
    else (ok, get_elem? r.slots r.tail, record r { tail = u32 (r.tail + 1) % r.capacity })
