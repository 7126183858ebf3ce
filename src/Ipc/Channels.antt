-- ===== src/Ipc/Channels.antt =====
-- Channels: what creating and destroying them leaves for a sender.
use team_os_3_0_baios.Base.{ℕ, ◌≡◌, true, List, [], ◌∷◌, none, some, arith, get_elem?-set_self}
use team_os_3_0_baios.Types.{ok}
use team_os_3_0_baios.Ring.{Msg}
use team_os_3_0_baios.Ipc.{Ipc, zero_channel, send, destroy_channel, recv, Poll, fault, recv_loop}
use team_os_3_0_baios.Ipc.Valid.{IsReady}

-- In a ready state, a send on a channel that has just been destroyed dereferences a null ring
-- pointer, whatever the message.
pub send-destroy_fault :
    {s : Ipc} (id now : ℕ) (m : Msg)
    → IsReady s
    → (destroy_channel s id).0 ≡ ok
    → send (destroy_channel s id).1 id (some m) now ≡ none
unfolding send destroy_channel
send-destroy_fault {s} id now m v e = ground (arith, get_elem?-set_self s.channels id zero_channel)

-- In a ready state, a receive on a channel that has just been destroyed dereferences a null ring
-- pointer, whatever its timeout and the clock.
pub recv-destroy_fault :
    {s : Ipc} (id timeout_ms start : ℕ) (polls : List Poll)
    → IsReady s
    → (destroy_channel s id).0 ≡ ok
    → recv (destroy_channel s id).1 id true timeout_ms start polls ≡ fault
unfolding recv recv_loop destroy_channel
recv-destroy_fault {s} id timeout_ms start [] v e =
    ground (arith, get_elem?-set_self s.channels id zero_channel)
recv-destroy_fault {s} id timeout_ms start (p ∷ ps) v e =
    ground (arith, get_elem?-set_self s.channels id zero_channel)
