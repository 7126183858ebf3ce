-- ===== src/Demo/Channel/Silence.antt =====
-- What reaches a receiver of BIOS/ipc/zero_copy.c: the incoming rings, over histories of calls.
use Prim.Native.String.{String}
use team_os_3_0_baios.Base.{ℕ, ◌≡◌, List, [], ◌∷◌, Option, Bool, true, get_or}
use team_os_3_0_baios.Demo.Error.{Error}
use team_os_3_0_baios.Demo.Shm.{Shm}
use team_os_3_0_baios.Demo.Shm
use team_os_3_0_baios.Demo.Channel.{
  Env, Ipc, Channel, Header, zero_channel, create_channel, destroy_channel, ring_empty,
}
use team_os_3_0_baios.Demo.Channel.Message.{send, recv}

-- Nothing waits in the incoming ring of the channel.
abbrev pub IsQuiet : Channel → Type 0
IsQuiet c = ring_empty c.rx ≡ true

abbrev pub AllQuiet : List Channel → Type 0
AllQuiet cs = (i : ℕ) → IsQuiet (get_or cs i zero_channel)

-- A call of the file that may change its state.
pub data Call : Type 0 where
  creates : (name : Option String) (size : ℕ) → Call
  destroys : (handle : ℕ) → Call
  sends : (handle : ℕ) (hdr : Option Header) (payload : Option (List ℕ)) (len now : ℕ) → Call
  receives : (handle : ℕ) (place : Bool) (room : Option ℕ) (timeout_ms : ℕ) → Call

module _ (env : Env) where
  unfoldable pub call : Ipc → Call → Ipc
  call s (creates name size) = let (st, out, s') = create_channel env s name size in s'
  call s (destroys handle) = (destroy_channel env s handle).1
  call s (sends handle hdr payload len now) = (send env s handle hdr payload len now).1
  call s (receives handle place room timeout_ms) = (recv env s handle place room timeout_ms).state

  abbrev pub run : Ipc → List Call → Ipc
  run s [] = s
  run s (c ∷ cs) = run (call s c) cs
