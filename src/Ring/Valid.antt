-- ===== src/Ring/Valid.antt =====
-- The representation invariant of a ring: indices in range, no wrap, the capacity of the source.
use team_os_3_0_baios.Base.{◌+◌, ◌<◌, ◌≡◌, refl, arith, length, length-set, length-replicate, u32}
use team_os_3_0_baios.Types.{ipc_slot_count}
use team_os_3_0_baios.Ring.{Msg, zero_msg, Ring, ring_init, ring_push, ring_pop}

pub record IsValid (r : Ring) : Type 0 where
  pub sized : length r.slots ≡ r.capacity
  pub capacity_eq : r.capacity ≡ ipc_slot_count
  pub head_in : r.head < r.capacity
  pub tail_in : r.tail < r.capacity

pub ring_init-IsValid : IsValid ring_init
unfolding ring_init
ring_init-IsValid = record {
  sized = length-replicate ipc_slot_count zero_msg;
  capacity_eq = refl;
  head_in = omega arith;
  tail_in = omega arith;
}

-- Both indices stay inside the slots, so no access is out of range, and no increment wraps.
pub in_bounds :
    {r : Ring}
    → IsValid r
    → (r.head < length r.slots)
      × (r.tail < length r.slots)
      × (u32 (r.head + 1) ≡ r.head + 1)
      × (u32 (r.tail + 1) ≡ r.tail + 1)
in_bounds v = omega arith

pub ring_push-IsValid : {r : Ring} (m : Msg) → IsValid r → IsValid (ring_push r m).1
unfolding ring_push
ring_push-IsValid {r} m v = ground (arith, length-set r.slots r.head m)

pub ring_pop-IsValid : {r : Ring} → IsValid r → IsValid (ring_pop r).2
unfolding ring_pop
ring_pop-IsValid v = ground arith
