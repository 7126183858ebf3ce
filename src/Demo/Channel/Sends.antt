-- ===== src/Demo/Channel/Sends.antt =====
-- The outgoing ring of a channel as a bounded queue, and what a destruction leaves.
use team_os_3_0_baios.Base.{
  ℕ, zero, suc, ◌+◌, ◌*◌, ◌%◌, ◌<◌, ◌≡◌, ◌≢◌, ◌⊎◌, ◌∙◌, inl, inr, refl, sym, ap, List, [], ◌∷◌,
  ◌++◌, Option, none, some, Bool, true, false, ◌&&◌, ◌==◌, ltb, if◌then◌else◌, arith, get_or, set,
  length, length-set, get_or-set_self, take, sub64, ◌-◌, Bool-cases, ℕ_discrete,
}
use team_os_3_0_baios.Circular.{
  entries, entries-push, length-entries, used, used_of_full, used-next_head, used-lt, window,
  window-set, tail-add-used, length-window, next, next-eq,
}
use team_os_3_0_baios.Demo.Error.{Error, ok, busy, overflow}
use team_os_3_0_baios.Demo.Search.{find_index-range}
use team_os_3_0_baios.Demo.Channel.{
  Env, Ipc, Channel, Ring, Header, zero_header, zero_channel, checksum, find_channel, channel_at,
  ring_full,
}
use team_os_3_0_baios.Demo.Channel.Message.{stamp, write_slot, publish, send_payload, send}

-- The headers that wait, oldest first.
abbrev pub waiting : Ring → List Header
waiting r = entries zero_header r.capacity r.slots r.head r.tail

pub record IsValid (r : Ring) : Type 0 where
  pub sized : length r.slots ≡ r.capacity
  pub head_in : r.head < r.capacity
  pub tail_in : r.tail < r.capacity

take-window :
    (cap : ℕ) (buf : List Header) (i n : ℕ)
    → take n (window zero_header cap buf i (suc n)) ≡ window zero_header cap buf i n
take-window cap buf i zero = refl
take-window cap buf i (suc n) =
    ap (◌∷◌ (get_or buf i zero_header)) (take-window cap buf (next cap i) n)

take-append : (xs ys : List Header) → take (length xs) (xs ++ ys) ≡ xs
take-append [] ys = refl
take-append (x ∷ xs) ys = ap (◌∷◌ x) (take-append xs ys)

next-lt : {cap : ℕ} (h : ℕ) → h < cap → (h + 1) % cap < cap
next-lt h low = ground (arith, next-eq low)

-- Writing at the head, without moving it on, changes nothing that waits.
waiting-set :
    {r : Ring} (h : Header)
    → IsValid r
    → waiting (record r { slots = set r.slots r.head h }) ≡ waiting r
waiting-set {r} h v =
    let n = used r.capacity r.head r.tail in
    let old = waiting r in
    let long : length old ≡ n = length-window zero_header r.capacity r.slots r.tail n in
    let both =
      window-set zero_header r.capacity r.slots h n r.tail r.head (omega (arith, v.sized)) v.tail_in
        (used-lt v.head_in v.tail_in) (sym (tail-add-used v.head_in v.tail_in)) in
    sym (take-window r.capacity (set r.slots r.head h) r.tail n)
    ∙ ap (take n) both
    ∙ sym (ap (λ k. take k (old ++ (h ∷ []))) long)
    ∙ take-append old (h ∷ [])

-- A send on a queue with room for `limit` messages.
unfoldable pub offer : (limit : ℕ) → (long : Bool) → List Header → Header → Error × List Header
offer limit long q h =
    if length q == limit then (busy, q) else if long then (overflow, q) else (ok, q ++ (h ∷ []))

offer_full :
    (limit : ℕ) (long : Bool) (q : List Header) (h : Header)
    → length q ≡ limit
    → offer limit long q h ≡ (busy, q)
unfolding offer
offer_full limit long q h full = ground arith

offer_long :
    (limit : ℕ) (q : List Header) (h : Header)
    → length q ≢ limit
    → offer limit true q h ≡ (overflow, q)
unfolding offer
offer_long limit q h room = ground arith

offer_room :
    (limit : ℕ) (q : List Header) (h : Header)
    → length q ≢ limit
    → offer limit false q h ≡ (ok, q ++ (h ∷ []))
unfolding offer
offer_room limit q h room = ground arith

-- The ring with the slot at its head written and the head moved on.
waiting-push :
    {r : Ring} (h : Header)
    → IsValid r
    → (r.head + 1) % r.capacity ≢ r.tail
    → let r' : Ring = record r { head = (r.head + 1) % r.capacity; slots = set r.slots r.head h } in
      (waiting r' ≡ waiting r ++ (h ∷ [])) × IsValid r'
waiting-push {r} h v room = (
  entries-push zero_header r.capacity r.slots r.head r.tail h (omega (arith, v.sized)) v.head_in
      v.tail_in room,
  record {
    sized = length-set r.slots r.head h ∙ v.sized;
    head_in = next-lt r.head v.head_in;
    tail_in = v.tail_in;
  },
)

module _ (env : Env) where
  -- The payload is longer than the payload area.
  abbrev pub too_long : Channel → Option (List ℕ) → ℕ → Bool
  too_long c none len = false
  too_long c (some bytes) len =
      if len == 0 then false else ltb (sub64 c.shm_size (2 * env.ring_size)) len

  -- The header that is sent: stamped, with the place and the checksum of the payload.
  abbrev pub message : Header → Option (List ℕ) → ℕ → Header
  message h none len = record h { payload_offset = 0; checksum = 0 }
  message h (some bytes) len =
      if len == 0
      then record h { payload_offset = 0; checksum = 0 }
      else record h { payload_offset = 2 * env.ring_size; checksum = checksum (take len bytes) }

  -- What a payload does to the channel.
  send_payload-cases :
      (c : Channel) (h : Header) (payload : Option (List ℕ)) (len : ℕ)
      → ((too_long c payload len ≡ true)
          × ((send_payload env c h payload len).0 ≡ overflow)
          × ((send_payload env c h payload len).1.tx ≡ (write_slot env c h).tx))
        ⊎ ((too_long c payload len ≡ false)
            × ((send_payload env c h payload len).0 ≡ ok)
            × ((send_payload env c h payload len).1.tx
                ≡ (publish env c (message h payload len)).tx))
  send_payload-cases c h none len = inr (refl, refl, refl)
  send_payload-cases c h (some bytes) len = elim (Bool-cases (len == 0)) [
    | inl e ↦ inr (rw e (refl, refl, refl))
    | inr e ↦ elim (Bool-cases (ltb (sub64 c.shm_size (2 * env.ring_size)) len)) [
      | inl f ↦ inl (rw (e, f) (refl, refl, refl))
      | inr f ↦ inr (rw (e, f) (refl, refl, refl))
    ]
  ]

  -- The outgoing ring of the channel that a send finds, in a valid state, is a queue of one message
  -- less than its capacity: the send says busy and leaves it if it is full, says overflow and leaves
  -- it if the payload is longer than the payload area, and else says ok and appends the header, with
  -- the magic number, the time, the size, and the place and the checksum of the payload.
  pub send-waiting :
      (s : Ipc) (handle i : ℕ) (hdr : Header) (payload : Option (List ℕ)) (len now : ℕ)
      → find_channel s handle ≡ some i
      → IsValid (channel_at s i).tx
      → let c = channel_at s i in
        let (st, s') = send env s handle (some hdr) payload len now in
        let (st', q) =
          offer
            (c.tx.capacity - 1)
            (too_long c payload len)
            (waiting c.tx)
            (message (stamp env hdr now len) payload len) in
        (st ≡ st') × (waiting (channel_at s' i).tx ≡ q) × IsValid (channel_at s' i).tx
  unfolding send
  send-waiting s handle i hdr payload len now found v =
      let c = channel_at s i in
      let (low, range, hit) =
        find_index-range (λ c. (c.handle == handle) && c.active) zero_channel s.channels s.count i
          found in
      let h = stamp env hdr now len in
      let limit = c.tx.capacity - 1 in
      let long = length-entries zero_header c.tx.capacity c.tx.slots c.tx.head c.tx.tail in
      let c' = (send_payload env c h payload len).1 in
      let self = get_or-set_self s.channels i c' zero_channel range in
      elim (ℕ_discrete ((c.tx.head + 1) % c.tx.capacity) c.tx.tail) [
        | yes e ↦
            let full : ring_full c.tx ≡ true = ground arith in
            let all : length (waiting c.tx) ≡ limit =
              omega (arith, long, used_of_full v.head_in v.tail_in e) in
            rw
              (
                found,
                full,
                offer_full limit (too_long c payload len) (waiting c.tx) (message h payload len)
                    all,
              )
              (refl, refl, v)
        | no ne ↦
            let open_ring : ring_full c.tx ≡ false = ground arith in
            let some_room : length (waiting c.tx) ≢ limit =
              λ x. absurd (omega (arith, long, used-next_head v.head_in v.tail_in ne)) in
            elim (send_payload-cases c h payload len) [
              | inl (big, st, tx) ↦
                  rw
                    (
                      found,
                      open_ring,
                      self,
                      big,
                      st,
                      tx,
                      offer_long limit (waiting c.tx) (message h payload len) some_room,
                    )
                    (
                      refl,
                      waiting-set h v,
                      record {
                        sized = length-set c.tx.slots c.tx.head h ∙ v.sized;
                        head_in = v.head_in;
                        tail_in = v.tail_in;
                      },
                    )
              | inr (small, st, tx) ↦
                  let (grown, valid) = waiting-push (message h payload len) v ne in
                  rw
                    (
                      found,
                      open_ring,
                      self,
                      small,
                      st,
                      tx,
                      offer_room limit (waiting c.tx) (message h payload len) some_room,
                    )
                    (refl, grown, valid)
            ]
      ]
