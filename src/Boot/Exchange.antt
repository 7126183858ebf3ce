-- ===== src/Boot/Exchange.antt =====
-- A system call across the whole kernel: the software microkernel sends, the hardware microkernel
-- takes the message in a round of its main loop and replies.
use team_os_3_0_baios.Base.{
  ℕ, ◌+◌, ◌<◌, ◌≡◌, refl, Bool, true, List, [], ◌∷◌, ◌++◌, some, arith, length, u64, subst, sym,
  ◌∙◌, ap, ap₂,
}
use team_os_3_0_baios.Types.{ok}
use team_os_3_0_baios.Queue.{dequeue}
use team_os_3_0_baios.Ring.{Msg, zero_msg, msg_syscall, msg_reply, flag_reply}
use team_os_3_0_baios.Ring.Refine.{limit}
use team_os_3_0_baios.Ipc
use team_os_3_0_baios.Ipc.{Ipc, Poll, Received, returned, waiting, to_hw, to_sw, stamp, ipc_send_on}
use team_os_3_0_baios.Ipc.Valid.{IsReady, ipc_send_on-IsReady}
use team_os_3_0_baios.Ipc.Send.{queue, send_to_hw-ok, send_to_sw-ok, ipc_send_on_lem}
use team_os_3_0_baios.Ipc.Recv.{recv_from_sw-some}
use team_os_3_0_baios.Process.{current_pid}
use team_os_3_0_baios.HwKernel.{Hardware, handle_ipc, main_round, reply_to}
use team_os_3_0_baios.SwKernel.{
  Software, Request, forward, syscall, syscall_msg, count_syscall, is_forwarded,
}
use team_os_3_0_baios.SwKernel.Syscalls.{syscall-forward}

-- The reply to a system call of process `pid`: no error, in four bytes.
abbrev pub reply_for : (pid number now : ℕ) → Msg
reply_for pid number now = record zero_msg {
  type = msg_reply;
  flags = flag_reply;
  dst_id = pid;
  seq = number;
  timestamp_ns = now;
  data_len = 4;
}

-- A round of `baios_hw_main_loop` with a system call at the front of its queue takes that message,
-- answers its sender at the end of the other queue, which has room, and counts the call.
pub main_round-reply :
    {ipc : Ipc} (h : Hardware) (start now : ℕ) (polls : List Poll) {m : Msg} {q : List Msg}
    → h.stats.initialized ≡ true
    → IsReady ipc
    → queue ipc to_hw ≡ m ∷ q
    → m.type ≡ msg_syscall
    → length (queue ipc to_sw) < limit
    → let (h', ipc') = main_round h ipc start polls now in
      (queue ipc' to_hw ≡ q)
      × (queue ipc' to_sw ≡ queue ipc to_sw ++ (reply_for m.src_id ipc.seq_counter now ∷ []))
      × (h'.stats.syscall_fwd ≡ u64 (h.stats.syscall_fwd + 1))
unfolding main_round handle_ipc dequeue
main_round-reply {ipc} h start now polls {m} {q} up v front type room =
    let (ipc', out, v', to_hw', to_sw', _, seq') =
      recv_from_sw-some 50 start polls v (ap dequeue front) in
    rw out ground (
      arith,
      send_to_sw-ok (reply_to m) now v' (subst (λ x. length x < limit) (sym to_sw') room),
      to_hw',
      to_sw',
      seq',
    )

send_to_hw-IsReady :
    {ipc : Ipc} (m : Msg) (now : ℕ)
    → IsReady ipc
    → IsReady (Ipc.send_to_hw ipc (some m) now).1
      × ((Ipc.send_to_hw ipc (some m) now).1.seq_counter ≡ u64 (ipc.seq_counter + 1))
unfolding Ipc.send_to_hw
send_to_hw-IsReady m now v =
    ground (arith, ipc_send_on-IsReady to_hw 0 m now v, ipc_send_on_lem to_hw 0 m now v)

-- With both kernels up and the IPC ready: a forwarded system call made while nothing waits for the
-- hardware kernel, and then one round of its loop, leave its queue empty and the reply to the
-- calling process at the end of the other queue, which had room, with the next sequence number,
-- and count the call.
pub syscall-reply :
    (name_at : ℕ → List ℕ) (s : Software) (h : Hardware) {ipc : Ipc} (r : Request)
    (given allocated : Bool) (now start later : ℕ) (polls : List Poll)
    → s.stats.initialized ≡ true
    → h.stats.initialized ≡ true
    → IsReady ipc
    → is_forwarded r.nr ≡ true
    → queue ipc to_hw ≡ []
    → length (queue ipc to_sw) < limit
    → let o = syscall name_at s ipc r given allocated now in
      let (h', ipc') = main_round h o.ipc start polls later in
      (o.status ≡ ok)
      × (queue ipc' to_hw ≡ [])
      × (queue ipc' to_sw
          ≡ queue ipc to_sw
            ++ (reply_for (current_pid s.procs) (u64 (ipc.seq_counter + 1)) later ∷ []))
      × (h'.stats.syscall_fwd ≡ u64 (h.stats.syscall_fwd + 1))
unfolding forward
syscall-reply name_at s h {ipc} r given allocated now start later polls up hw_up v fwd empty room =
    let m = syscall_msg (count_syscall s) r in
    let (ready, seq) = send_to_hw-IsReady m now v in
    let (st, to_hw', to_sw', _) =
      send_to_hw-ok m now v (subst (λ x. length x < limit) (sym empty) (omega arith)) in
    let front : queue (Ipc.send_to_hw ipc (some m) now).1 to_hw ≡ stamp ipc m now ∷ [] =
      to_hw' ∙ ap (λ x. x ++ (stamp ipc m now ∷ [])) empty in
    let (a, b, c) =
      main_round-reply h start later polls hw_up ready front refl
        (subst (λ x. length x < limit) (sym to_sw') room) in
    rw (syscall-forward name_at s ipc given allocated now r up fwd)
      (st, a, b ∙ ap₂ answered to_sw' seq, c)
  where
    answered : List Msg → ℕ → List Msg
    answered q n = q ++ (reply_for (current_pid s.procs) n later ∷ [])
