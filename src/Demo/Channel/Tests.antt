-- ===== src/Demo/Channel/Tests.antt =====
-- The theorems on the channels at rings of four slots.
use team_os_3_0_baios.Base.{◌-◌, ◌≡◌, refl, [], ◌∷◌, some, true, false, arith, replicate}
use team_os_3_0_baios.Demo.Shm.{Shm, zero_region, max_shm_regions}
use team_os_3_0_baios.Demo.Channel.{
  Env, Ipc, zero_channel, zero_header, max_channels, new_channel, channel_at, init,
}
use team_os_3_0_baios.Demo.Channel.Message.{stamp, send}
use team_os_3_0_baios.Demo.Channel.Silence.{sends, run}
use team_os_3_0_baios.Demo.Channel.Sends.{IsValid, waiting, offer, too_long, message, send-waiting}

abbrev env : Env
env = record {
  slots = 4;
  ring_size = 512;
  magic = 77;
  access = 3;
  notify = 1;
  request = 2;
  hw_id = 1;
  sw_id = 2;
  no_reply = 4;
  heap = 65536;
  mark = λ f. f;
  clip = λ n. n;
  clip_channel = λ n. n;
  raw = λ c offset n. [];
}

abbrev no_regions : Shm
no_regions = record {
  table = replicate max_shm_regions zero_region;
  count = 0;
  next_handle = 1;
  initialized = true;
  heap_used = 0;
}

abbrev down : Ipc
down = record {
  shm = no_regions;
  channels = replicate max_channels zero_channel;
  count = 0;
  ready = false;
  main = 0;
}

-- A message sent on the channel 1, which the start has created.
abbrev one_sent : Ipc
one_sent = run env (init env down).1 (sends 1 (some zero_header) (some (8 ∷ 9 ∷ [])) 2 5 ∷ [])

-- One channel, with the handle 1.
abbrev one_channel : Ipc
one_channel = record {
  shm = no_regions;
  channels = new_channel env 1 "main" 65536 4096 ∷ [];
  count = 1;
  ready = true;
  main = 1;
}

ring-IsValid : IsValid (channel_at one_channel 0).tx
ring-IsValid = record { sized = refl; head_in = omega arith; tail_in = omega arith }

send-waiting_example :
    let c = channel_at one_channel 0 in
    let (st, s') = send env one_channel 1 (some zero_header) (some (8 ∷ 9 ∷ [])) 2 5 in
    let (st', q) =
      offer
        (c.tx.capacity - 1)
        (too_long env c (some (8 ∷ 9 ∷ [])) 2)
        (waiting c.tx)
        (message env (stamp env zero_header 5 2) (some (8 ∷ 9 ∷ [])) 2) in
    (st ≡ st') × (waiting (channel_at s' 0).tx ≡ q) × IsValid (channel_at s' 0).tx
send-waiting_example =
    send-waiting env one_channel 1 0 zero_header (some (8 ∷ 9 ∷ [])) 2 5 refl ring-IsValid
