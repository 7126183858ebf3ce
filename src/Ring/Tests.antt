-- ===== src/Ring/Tests.antt =====
-- The ring's theorems at concrete rings.
use team_os_3_0_baios.Base.{◌≡◌}
use team_os_3_0_baios.Queue.{enqueue, dequeue}
use team_os_3_0_baios.Ring.{Msg, zero_msg, Ring, ring_init, ring_push, ring_pop}
use team_os_3_0_baios.Ring.Valid.{IsValid, ring_init-IsValid, ring_push-IsValid}
use team_os_3_0_baios.Ring.Refine.{
  contents, limit, push_status, pop_status, ring_push_refines, ring_pop_refines,
}

abbrev message : Msg
message = record zero_msg { type = 1; src_id = 7; data_len = 4 }

-- A ring with one message.
abbrev one : Ring
one = (ring_push ring_init message).1

one-IsValid : IsValid one
one-IsValid = ring_push-IsValid message ring_init-IsValid

ring_push_refines_example :
    let (s, r') = ring_push one message in
    let (b, q) = enqueue limit (contents one) message in (s ≡ push_status b) × (contents r' ≡ q)
ring_push_refines_example = ring_push_refines message one-IsValid

ring_pop_refines_example :
    let (s, out, r') = ring_pop one in
    let (x, q) = dequeue (contents one) in (s ≡ pop_status x) × (out ≡ x) × (contents r' ≡ q)
ring_pop_refines_example = ring_pop_refines one-IsValid
