-- ===== src/Ipc/Tests.antt =====
-- The theorems on the IPC at a state that has just been started.
use team_os_3_0_baios.Base.{◌≡◌, refl, List, [], ◌∷◌, none, some, true, false, arith, inl, inr}
use team_os_3_0_baios.Types.{ok}
use team_os_3_0_baios.Ring.{Msg, zero_msg, ring_init}
use team_os_3_0_baios.Ipc.{
  Ipc, to_hw, to_sw, init, create_channel, destroy_channel, ipc_send_on, send, recv_from_sw, Poll,
}
use team_os_3_0_baios.Ipc.Valid.{IsReady, init-IsReady, create_channel-IsReady}
use team_os_3_0_baios.Ipc.Deadline.{HasReturned, recv_from_sw-HasReturned}
use team_os_3_0_baios.Ipc.Seq.{IsOrdered, init-IsOrdered, ipc_send_on-IsOrdered}
use team_os_3_0_baios.Ipc.Run.{Call, sends, polls, run, spec_run, view, run_refines}
use team_os_3_0_baios.Ipc.Channels.{send-destroy_fault}

abbrev off : Ipc
off = record {
  sw_to_hw_ring = ring_init;
  hw_to_sw_ring = ring_init;
  channels = [];
  channel_count = 0;
  ready = false;
  seq_counter = 1;
}

abbrev started : Ipc
started = (init off).1

started-IsReady : IsReady started
started-IsReady = init-IsReady off refl

abbrev message : Msg
message = record zero_msg { type = 1; src_id = 7 }

-- A call, its reply, and a poll of each side, one of them on an empty queue.
abbrev calls : List Call
calls =
    sends to_hw message 5
    ∷ polls to_hw 6
    ∷ sends to_sw message 7
    ∷ polls to_sw 8
    ∷ polls to_hw 9
    ∷ []

run_refines_example : run started calls ≡ spec_run (view started) calls
run_refines_example = run_refines calls started-IsReady

-- A clock that shows the deadline in its second reading.
abbrev clock : List Poll
clock = record { now = 10; others = λ s. s } ∷ record { now = 60000000; others = λ s. s } ∷ []

recv_from_sw-HasReturned_example : HasReturned (recv_from_sw started true 50 0 clock)
recv_from_sw-HasReturned_example =
    recv_from_sw-HasReturned started 50 0 clock (inr (inl (omega arith)))

started-seq : started.seq_counter ≡ 1
unfolding init
started-seq = refl

ipc_send_on-IsOrdered_example : IsOrdered (ipc_send_on started to_hw 0 message 5).1
ipc_send_on-IsOrdered_example =
    ipc_send_on-IsOrdered to_hw 0 message 5 started-IsReady (omega (arith, started-seq))
      (init-IsOrdered off refl)

-- Channel 1, beside the default one.
abbrev with_channel : Ipc
with_channel = (create_channel started true).2

with_channel-IsReady : IsReady with_channel
with_channel-IsReady = create_channel-IsReady true started-IsReady

destroyed : (destroy_channel with_channel 1).0 ≡ ok
unfolding destroy_channel create_channel init
destroyed = refl

send-destroy_fault_example : send (destroy_channel with_channel 1).1 1 (some message) 5 ≡ none
send-destroy_fault_example = send-destroy_fault 1 5 message with_channel-IsReady destroyed
