-- ===== src/Ring/Refine.antt =====
-- A ring of BIOS/src/ipc/zero_copy.c as the queue of the messages between `tail` and `head`, of at most 31 entries.
use team_os_3_0_baios.Base.{
  ℕ, ◌-◌, ◌≡◌, refl, Bool, List, [], Option, none, some, arith, length, if◌then◌else◌, ℕ_discrete,
  get_elem?-get_or,
}
use team_os_3_0_baios.Types.{Status, ok, overflow, underflow, ipc_slot_count}
use team_os_3_0_baios.Circular.{
  entries-push, entries-pop, entries_empty, used, window, length-window, used_of_full,
  used-next_head,
}
use team_os_3_0_baios.Queue.{enqueue, dequeue}
use team_os_3_0_baios.Ring.{Msg, zero_msg, Ring, ring_init, ring_push, ring_pop}
use team_os_3_0_baios.Ring.Valid.{IsValid, in_bounds}

-- The messages in the ring, oldest first.
abbrev pub contents : Ring → List Msg
contents r = window zero_msg r.capacity r.slots r.tail (used r.capacity r.head r.tail)

-- One slot always stays free.
abbrev pub limit : ℕ
limit = ipc_slot_count - 1

pub length-contents : (r : Ring) → length (contents r) ≡ used r.capacity r.head r.tail
length-contents r = length-window zero_msg r.capacity r.slots r.tail (used r.capacity r.head r.tail)

pub contents-ring_init : contents ring_init ≡ []
unfolding ring_init
contents-ring_init = refl

-- The status that tells whether there was room.
abbrev pub push_status : Bool → Status
push_status b = if b then ok else overflow

abbrev pub pop_status : Option Msg → Status
pop_status none = underflow
pop_status (some m) = ok

-- On a valid ring, ring_push is enqueue on a queue of at most 31 messages, and its status says
-- whether there was room.
pub ring_push_refines :
    {r : Ring} (m : Msg)
    → IsValid r
    → let (s, r') = ring_push r m in
      let (b, q) = enqueue limit (contents r) m in (s ≡ push_status b) × (contents r' ≡ q)
unfolding ring_push enqueue
ring_push_refines {r} m v = ground (
  arith,
  in_bounds v,
  length-contents r,
  used_of_full {cap = r.capacity} {head = r.head} {tail = r.tail} v.head_in v.tail_in,
  used-next_head {cap = r.capacity} {head = r.head} {tail = r.tail} v.head_in v.tail_in,
  entries-push zero_msg r.capacity r.slots r.head r.tail m (omega (arith, v.sized)) v.head_in
      v.tail_in,
)

-- On a valid ring, ring_pop is dequeue: it gives the oldest message, or underflow when there is
-- none.
pub ring_pop_refines :
    {r : Ring}
    → IsValid r
    → let (s, out, r') = ring_pop r in
      let (x, q) = dequeue (contents r) in (s ≡ pop_status x) × (out ≡ x) × (contents r' ≡ q)
unfolding ring_pop dequeue
ring_pop_refines {r} v = elim (ℕ_discrete r.head r.tail) [
  | yes e ↦ ground (arith, entries_empty zero_msg r.capacity r.slots r.head r.tail e)
  | no e ↦ ground (
    arith,
    in_bounds v,
    entries-pop zero_msg r.capacity r.slots r.head r.tail v.head_in v.tail_in e,
    get_elem?-get_or r.slots r.tail zero_msg,
  )
]
