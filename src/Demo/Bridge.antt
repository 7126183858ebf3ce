-- ===== src/Demo/Bridge.antt =====
-- The bridge of BIOS/sw/ipc_bridge.cpp, over the channels. The clock is an input.
use team_os_3_0_baios.Base.{ℕ, zero, suc, List, [], ◌∷◌, Option, none, some, true}
use mathlib.Core.Option
use team_os_3_0_baios.Demo.Error.{Error, ok, ipc}
use team_os_3_0_baios.Demo.Shm
use team_os_3_0_baios.Demo.Channel.{Env, Ipc, Header, zero_header}
use team_os_3_0_baios.Demo.Channel.Message.{Received, send, sw_to_hw, try_recv}

-- The handle that `baios_shm_find` gives for the main channel, if it succeeds.
abbrev pub handle_of : Error × Option ℕ → Option ℕ
handle_of (ok, handle) = handle
handle_of (st, handle) = none

abbrev pub main_channel : Ipc → Option ℕ
main_channel s = handle_of (Shm.find s.shm (some "hw-sw-main"))

module _ (env : Env) where
  -- `sw_ipc_send_to_hw`
  unfoldable pub send_to_hw : Ipc → ℕ → Option (List ℕ) → ℕ → (now : ℕ) → Error × Ipc
  send_to_hw s opcode payload len now =
      let (st, reply_len, s') = sw_to_hw env s opcode payload len none now in (st, s')

  -- The header of an event.
  abbrev pub event_header : ℕ → Header
  event_header event_code = record zero_header {
    kind = env.notify;
    src_id = env.sw_id;
    dst_id = env.hw_id;
    opcode = event_code;
    flags = env.no_reply;
  }

  abbrev pub notify_on : Ipc → Option ℕ → ℕ → Option (List ℕ) → ℕ → (now : ℕ) → Error × Ipc
  notify_on s none event_code payload len now = (ipc, s)
  notify_on s (some handle) event_code payload len now =
      send env s handle (some (event_header event_code)) payload len now

  -- `sw_ipc_notify_event`
  unfoldable pub notify_event : Ipc → ℕ → Option (List ℕ) → ℕ → (now : ℕ) → Error × Ipc
  notify_event s event_code payload len now =
      notify_on s (main_channel s) event_code payload len now

  abbrev pub and_then : Received → Option (List Header × Ipc) → Option (List Header × Ipc)
  and_then r rest = elim r.status [
    | ok ↦ elim r.header [
      | none ↦ rest
      | some h ↦ Option.map (λ (x : List Header × Ipc). (h ∷ x.0, x.1)) rest
    ]
    | _ ↦ some ([], r.state)
  ]

  -- The loop of `sw_ipc_poll` on fuel: the headers that it prints, and the state after.
  abbrev pub poll_on : ℕ → Ipc → ℕ → Option (List Header × Ipc)
  poll_on zero s handle = none
  poll_on (suc fuel) s handle =
      let r = try_recv env s handle true (some 512) in and_then r (poll_on fuel r.state handle)

  abbrev pub poll_main : ℕ → Ipc → Option ℕ → Option (List Header × Ipc)
  poll_main fuel s none = some ([], s)
  poll_main fuel s (some handle) = poll_on fuel s handle

  -- `sw_ipc_poll` on fuel.
  unfoldable pub poll : ℕ → Ipc → Option (List Header × Ipc)
  poll fuel s = poll_main fuel s (main_channel s)
