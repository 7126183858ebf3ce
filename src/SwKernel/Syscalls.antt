-- ===== src/SwKernel/Syscalls.antt =====
-- What each group of system calls of BIOS/src/sw/sw_kernel.cpp does.
use team_os_3_0_baios.Base.{
  ◌⊎◌, get_elem?, ℕ, ◌+◌, ◌<◌, ◌≤◌, ◌≡◌, List, [], ◌∷◌, ◌++◌, none, some, Bool, true, false, arith,
  length, u64, if◌then◌else◌, ◌==◌,
}
use team_os_3_0_baios.Types.{ok, nosys, state_error, overflow, normal, max_processes}
use team_os_3_0_baios.Ring.{Msg, zero_msg, msg_syscall}
use team_os_3_0_baios.Ring.Refine.{limit}
use team_os_3_0_baios.Ipc.{Ipc, to_hw}
use team_os_3_0_baios.Ipc.Valid.{IsReady}
use team_os_3_0_baios.Ipc.Send.{queue, send_to_hw-ok, send_to_hw-overflow}
use team_os_3_0_baios.Process.{current_pid, Process, zombie, new_process}
use team_os_3_0_baios.Process.Table.{lookup, occupied}
use team_os_3_0_baios.Process.Valid.{IsValid}
use team_os_3_0_baios.Process.Laws.{create-lookup, exit-current}
use team_os_3_0_baios.SwKernel.{
  pack, Software, Request, outcome, out, syscall, forward, is_forwarded, count_syscall, syscall_msg,
  sys_spawn, sys_exit,
}

-- The message by which process `pid` passes a request on, with its number and time.
abbrev pub request_for : (pid number now : ℕ) → Request → Msg
request_for pid number now r = record zero_msg {
  type = msg_syscall;
  src_id = pid;
  seq = number;
  timestamp_ns = now;
  data_len = 40;
  payload = pack r;
}

module _ (name_at : ℕ → List ℕ) (s : Software) (ipc : Ipc) (given allocated : Bool) (now : ℕ) where
  -- Until `baios_sw_init` has run every call is refused, and nothing changes, not even `*ret`.
  pub syscall_down :
      (r : Request)
      → s.stats.initialized ≡ false
      → syscall name_at s ipc r given allocated now ≡ outcome state_error none s ipc
  unfolding syscall
  syscall_down r e = ground arith

  -- With the kernel up, the number 9 (SYS_IPC_RECV) and every number from 11 on are counted and
  -- refused with nosys, *ret is 0, and nothing else changes.
  pub syscall_unknown :
      (r : Request)
      → s.stats.initialized ≡ true
      → (r.nr ≡ 9) ⊎ (11 ≤ r.nr)
      → syscall name_at s ipc r given allocated now
        ≡ outcome nosys (out given 0) (count_syscall s) ipc
  unfolding syscall
  syscall_unknown r e h = ground arith

  pub syscall-forward :
      (r : Request)
      → s.stats.initialized ≡ true
      → is_forwarded r.nr ≡ true
      → syscall name_at s ipc r given allocated now ≡ forward (count_syscall s) ipc r given now
  unfolding syscall
  syscall-forward r up fwd = ground arith

  -- With the kernel up, the IPC ready and room in the ring, each of the six forwarded calls
  -- succeeds, leaves 0 in *ret, puts the packed request of the current process at the end of the
  -- hardware kernel's queue, counts one message sent, and leaves the processes as they were.
  pub syscall_forward :
      (r : Request)
      → s.stats.initialized ≡ true
      → IsReady ipc
      → length (queue ipc to_hw) < limit
      → is_forwarded r.nr ≡ true
      → let o = syscall name_at s ipc r given allocated now in
        (o.status ≡ ok)
        × (o.ret ≡ out given 0)
        × (queue o.ipc to_hw
            ≡ queue ipc to_hw ++ (request_for (current_pid s.procs) ipc.seq_counter now r ∷ []))
        × (o.software.stats.ipc_tx ≡ u64 (s.stats.ipc_tx + 1))
        × (o.software.procs ≡ s.procs)
  unfolding forward
  syscall_forward r up v room fwd =
      rw (syscall-forward r up fwd) ground
        (arith, send_to_hw-ok (syscall_msg (count_syscall s) r) now v room)

  -- With the kernel up, the IPC ready and the ring towards the hardware kernel full, each of the
  -- six forwarded calls gives overflow, and no message is queued or counted.
  pub syscall_forward_full :
      (r : Request)
      → s.stats.initialized ≡ true
      → IsReady ipc
      → limit ≤ length (queue ipc to_hw)
      → is_forwarded r.nr ≡ true
      → let o = syscall name_at s ipc r given allocated now in
        (o.status ≡ overflow)
        × (queue o.ipc to_hw ≡ queue ipc to_hw)
        × (o.software.stats.ipc_tx ≡ s.stats.ipc_tx)
  unfolding forward
  syscall_forward_full r up v full fwd =
      rw (syscall-forward r up fwd) ground
        (arith, send_to_hw-overflow (syscall_msg (count_syscall s) r) now v full)

  -- With the kernel up and its process table valid, SYS_SPAWN with a name that is not null, a free
  -- slot and memory succeeds, returns the next pid, by which the new process is found, and counts
  -- it; every other pid finds what it found before, and the IPC stays as it was.
  pub syscall_spawn :
      (r : Request) (q : ℕ)
      → s.stats.initialized ≡ true
      → IsValid s.procs
      → occupied s.procs.procs < max_processes
      → allocated ≡ true
      → r.nr ≡ sys_spawn
      → 0 < r.arg0
      → let o = syscall name_at s ipc r given allocated now in
        (o.status ≡ ok)
        × (o.ret ≡ out given s.procs.next_pid)
        × (lookup q o.software.procs.procs ≡ (
            if s.procs.next_pid == q
            then some (new_process s.procs (name_at r.arg0) normal)
            else lookup q s.procs.procs))
        × (o.software.stats.process_count ≡ s.procs.count + 1)
        × (o.ipc ≡ ipc)
  unfolding syscall
  syscall_spawn r q up v room mem nr arg =
      ground (arith, create-lookup (name_at r.arg0) normal q v room)

  -- With the kernel up and its process table valid, SYS_EXIT of a current process with a pid that
  -- is not 0 succeeds and makes it a zombie; every other pid finds what it found before, and no
  -- process is current any more.
  pub syscall_exit :
      (r : Request) (q i : ℕ) {p : Process}
      → s.stats.initialized ≡ true
      → IsValid s.procs
      → s.procs.current ≡ some i
      → get_elem? s.procs.procs i ≡ some (some p)
      → 0 < p.pid
      → r.nr ≡ sys_exit
      → let o = syscall name_at s ipc r given allocated now in
        (o.status ≡ ok)
        × (o.ret ≡ out given 0)
        × (lookup q o.software.procs.procs
            ≡ (if p.pid == q then some (record p { state = zombie }) else lookup q s.procs.procs))
        × (o.software.procs.current ≡ none)
  unfolding syscall
  syscall_exit r q i {p} up v cur held pos nr =
      rw (cur, held) ground (arith, exit-current q i v cur held pos)
