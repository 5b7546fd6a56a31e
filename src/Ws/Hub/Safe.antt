-- ===== src/Ws/Hub/Safe.antt =====
-- No history of a hub panics: `Broadcast` sends on open channels only, and each is closed once.
use gyeongdohalsaram_server.Base.{
  ◌≤◌, ◌<◌, ◌≡◌, refl, subst, ◌≢◌, ◌⊎◌, inl, inr, Bool, true, false, Bool-cases, Option-cases,
  ℕ_discrete, Option, none, some, List, [], ◌∷◌, ◌++◌, arith, All, leb, length, length-append,
}
use gyeongdohalsaram_server.Ws.Message.{ClientRef}
use gyeongdohalsaram_server.Ws.Hub.{
  Channel, Hub, Action, comes, ends, sends, floods, pumps, pings, send_capacity, has_client,
  delete_client, new_channel, new_hub, set_channel, register_new, close_send, unregister_client,
  offer, send_message, broadcast_loop, broadcast, write_round, ping_round, act, act_all,
}

module _ {M : Type 0} where
  -- The client is one that was made, and its channel is open.
  abbrev pub IsOpen : Hub M → ClientRef → Type 0
  IsOpen h c = (c < h.made) × ((h.channels c).closed ≡ false)

  pub record IsSafe (h : Hub M) : Type 0 where
    pub open_all : All (IsOpen h) h.clients
    pub bounded : (c : ClientRef) → length (h.channels c).buffer ≤ send_capacity

  -- Whatever happens to a channel but its closing.
  abbrev Keeps : Channel M → Channel M → Type 0
  Keeps ch ch' =
      (ch'.closed ≡ ch.closed)
      × (length ch.buffer ≤ send_capacity → length ch'.buffer ≤ send_capacity)

  pub set_channel_cases :
      (c : ClientRef) (ch : Channel M) (h : Hub M) (d : ClientRef)
      → ((d ≡ c) × ((set_channel c ch h).channels d ≡ ch))
        ⊎ ((d ≢ c) × ((set_channel c ch h).channels d ≡ h.channels d))
  unfolding set_channel
  set_channel_cases c ch h d = elim (ℕ_discrete d c) [
    | yes e ↦ inl (e, ground arith)
    | no n ↦ inr (n, ground arith)
  ]

  made-set_channel :
      (c : ClientRef) (ch : Channel M) (h : Hub M) → (set_channel c ch h).made ≡ h.made
  unfolding set_channel
  made-set_channel c ch h = refl

  set_channel-IsOpen :
      (c : ClientRef) (ch : Channel M) (h : Hub M) (d : ClientRef)
      → ch.closed ≡ (h.channels c).closed
      → IsOpen h d
      → IsOpen (set_channel c ch h) d
  set_channel-IsOpen c ch h d e o = elim (set_channel_cases c ch h d) [
    | inl (same, f) ↦
        rw (made-set_channel c ch h, f, e)
          (o.0, subst (λ x. (h.channels x).closed ≡ false) same o.1)
    | inr (n, f) ↦ rw (made-set_channel c ch h, f) o
  ]

  All-IsOpen :
      (c : ClientRef) (ch : Channel M) (h : Hub M) (cs : List ClientRef)
      → ch.closed ≡ (h.channels c).closed
      → All (IsOpen h) cs
      → All (IsOpen (set_channel c ch h)) cs
  All-IsOpen c ch h [] k a = tt
  All-IsOpen c ch h (d ∷ cs) k a = (set_channel-IsOpen c ch h d k a.0, All-IsOpen c ch h cs k a.1)

  set_channel-bounded :
      (c : ClientRef) (ch : Channel M) (h : Hub M)
      → length ch.buffer ≤ send_capacity
      → ((d : ClientRef) → length (h.channels d).buffer ≤ send_capacity)
      → (d : ClientRef) → length ((set_channel c ch h).channels d).buffer ≤ send_capacity
  set_channel-bounded c ch h b v d = elim (set_channel_cases c ch h d) [
    | inl (same, f) ↦ rw f b
    | inr (n, f) ↦ rw f (v d)
  ]

  set_channel-IsSafe :
      (c : ClientRef) (ch : Channel M) (h : Hub M)
      → Keeps (h.channels c) ch
      → IsSafe h
      → IsSafe (set_channel c ch h)
  unfolding set_channel
  set_channel-IsSafe c ch h k v = record {
    open_all = All-IsOpen c ch h h.clients k.0 v.open_all;
    bounded = set_channel-bounded c ch h (k.1 (v.bounded c)) v.bounded;
  }

  offer-Keeps : (msg : M) (ch ch' : Channel M) → offer msg ch ≡ some ch' → Keeps ch ch'
  unfolding offer
  offer-Keeps msg ch ch' e = elim (Bool-cases ch.closed) [
    | inl shut ↦ ground arith
    | inr opened ↦ elim (Bool-cases (leb send_capacity (length ch.buffer))) [
      | inl full ↦ ground arith
      | inr room ↦ ground (arith, length-append ch.buffer (msg ∷ []))
    ]
  ]

  offer-open :
      (msg : M) (ch : Channel M) → ch.closed ≡ false → (ch' : Channel M) × (offer msg ch ≡ some ch')
  unfolding offer
  offer-open msg ch e = elim (Bool-cases (leb send_capacity (length ch.buffer))) [
    | inl full ↦ (ch, rw (e, full) refl)
    | inr room ↦ (record ch { buffer = ch.buffer ++ (msg ∷ []) }, rw (e, room) refl)
  ]

  pub send_message-IsSafe :
      (c : ClientRef) (msg : M) (h : Hub M) → IsSafe h → IsSafe (send_message c msg h)
  unfolding send_message
  send_message-IsSafe c msg h v = elim (Option-cases (offer msg (h.channels c))) [
    | inl e ↦ rw (e, send_message) v
    | inr (ch, e) ↦
        rw (e, send_message) (set_channel-IsSafe c ch h (offer-Keeps msg (h.channels c) ch e) v)
  ]

  -- A step that does not panic, and leaves a safe hub.
  abbrev pub IsSafeStep : Option (Hub M) → Type 0
  IsSafeStep none = ⊥
  IsSafeStep (some h) = IsSafe h

  broadcast_loop-IsSafe :
      (msg : M) (cs : List ClientRef) (h : Hub M)
      → All (IsOpen h) cs
      → IsSafe h
      → IsSafeStep (broadcast_loop msg cs h)
  unfolding broadcast_loop
  broadcast_loop-IsSafe msg [] h o v = v
  broadcast_loop-IsSafe msg (c ∷ cs) h o v =
      let (ch, e) = offer-open msg (h.channels c) o.0.1 in
      let k = offer-Keeps msg (h.channels c) ch e in
      rw (e, broadcast_loop)
        (broadcast_loop-IsSafe msg cs (set_channel c ch h) (All-IsOpen c ch h cs k.0 o.1)
          (set_channel-IsSafe c ch h k v))

  write_round-Keeps : (takes : Bool) (ch : Channel M) → Keeps ch (write_round takes ch)
  unfolding write_round
  write_round-Keeps takes ch = ground arith

  ping_round-Keeps : (takes : Bool) (ch : Channel M) → Keeps ch (ping_round takes ch)
  unfolding ping_round
  ping_round-Keeps takes ch = ground arith

  older-IsOpen :
      (h : Hub M) (cs : List ClientRef) → All (IsOpen h) cs → All (IsOpen (register_new h)) cs
  unfolding register_new
  older-IsOpen h [] a = tt
  older-IsOpen h (c ∷ cs) a = (
    elim (set_channel_cases h.made new_channel h c) [
      | inl (same, f) ↦ absurd (omega (arith, same, a.0.0))
      | inr (n, f) ↦ (omega (arith, a.0.0), rw f a.0.1)
    ],
    older-IsOpen h cs a.1,
  )

  pub register_new-IsSafe : (h : Hub M) → IsSafe h → IsSafe (register_new h)
  unfolding register_new
  register_new-IsSafe h v = record {
    open_all = (
      elim (set_channel_cases h.made new_channel h h.made) [
        | inl (same, f) ↦ (omega arith, rw f refl)
        | inr (n, f) ↦ absurd (n refl)
      ],
      older-IsOpen h h.clients v.open_all,
    );
    bounded = set_channel-bounded h.made new_channel h (omega arith) v.bounded;
  }

  others-IsOpen :
      (c : ClientRef) (ch : Channel M) (h : Hub M) (cs : List ClientRef)
      → All (IsOpen h) cs
      → All (IsOpen (set_channel c ch h)) (delete_client c cs)
  unfolding delete_client
  others-IsOpen c ch h [] a = tt
  others-IsOpen c ch h (d ∷ cs) a = elim (set_channel_cases c ch h d) [
    | inl (same, f) ↦ ground (arith, others-IsOpen c ch h cs a.1)
    | inr (n, f) ↦ ground (arith, others-IsOpen c ch h cs a.1, made-set_channel c ch h)
  ]

  has_client-IsOpen :
      (c : ClientRef) (h : Hub M) (cs : List ClientRef)
      → All (IsOpen h) cs
      → has_client c cs ≡ true
      → IsOpen h c
  unfolding has_client
  has_client-IsOpen c h [] a e = cc
  has_client-IsOpen c h (d ∷ cs) a e = elim (ℕ_discrete d c) [
    | yes same ↦ subst (IsOpen h) same a.0
    | no n ↦ has_client-IsOpen c h cs a.1 (ground arith)
  ]

  pub unregister_client-IsSafe :
      (c : ClientRef) (h : Hub M) → IsSafe h → IsSafeStep (unregister_client c h)
  unfolding unregister_client close_send set_channel
  unregister_client-IsSafe c h v = elim (Bool-cases (has_client c h.clients)) [
    | inl known ↦
        let (made, opened) = has_client-IsOpen c h h.clients v.open_all known in
        rw (known, opened, unregister_client, close_send)
          (record {
            open_all =
                others-IsOpen c (record (h.channels c) { closed = true }) h h.clients v.open_all;
            bounded =
                set_channel-bounded c (record (h.channels c) { closed = true }) h (v.bounded c)
                  v.bounded;
          })
    | inr unknown ↦ rw (unknown, unregister_client) v
  ]

  pub write_round-IsSafe :
      (c : ClientRef) (takes : Bool) (h : Hub M)
      → IsSafe h
      → IsSafe (set_channel c (write_round takes (h.channels c)) h)
  write_round-IsSafe c takes h v =
      set_channel-IsSafe c (write_round takes (h.channels c)) h
        (write_round-Keeps takes (h.channels c)) v

  pub ping_round-IsSafe :
      (c : ClientRef) (takes : Bool) (h : Hub M)
      → IsSafe h
      → IsSafe (set_channel c (ping_round takes (h.channels c)) h)
  ping_round-IsSafe c takes h v =
      set_channel-IsSafe c (ping_round takes (h.channels c)) h
        (ping_round-Keeps takes (h.channels c)) v

  pub new_hub-IsSafe : IsSafe new_hub
  unfolding new_hub
  new_hub-IsSafe = record { open_all = tt; bounded = λ c. omega arith }

  act-IsSafe : (a : Action M) (h : Hub M) → IsSafe h → IsSafeStep (act a h)
  unfolding act broadcast
  act-IsSafe comes h v = register_new-IsSafe h v
  act-IsSafe (ends c) h v = unregister_client-IsSafe c h v
  act-IsSafe (sends c msg) h v = send_message-IsSafe c msg h v
  act-IsSafe (floods msg) h v = broadcast_loop-IsSafe msg h.clients h v.open_all v
  act-IsSafe (pumps c takes) h v = write_round-IsSafe c takes h v
  act-IsSafe (pings c takes) h v = ping_round-IsSafe c takes h v

  acted :
      (a : Action M) (acts : List (Action M)) (h : Hub M) (x : Option (Hub M))
      → act a h ≡ x
      → IsSafeStep x
      → ((next : Hub M) → IsSafe next → (h' : Hub M) × (act_all acts next ≡ some h') × IsSafe h')
      → (h' : Hub M) × (act_all (a ∷ acts) h ≡ some h') × IsSafe h'
  unfolding act_all
  acted a acts h none e v ih = absurd v
  acted a acts h (some next) e v ih =
      let (h', ran, safe) = ih next v in (h', rw (e, act_all) ran, safe)

  act_all_from :
      (acts : List (Action M)) (h : Hub M)
      → IsSafe h
      → (h' : Hub M) × (act_all acts h ≡ some h') × IsSafe h'
  unfolding act_all
  act_all_from [] h v = (h, refl, v)
  act_all_from (a ∷ acts) h v =
      acted a acts h (act a h) refl (act-IsSafe a h v) (λ next safe. act_all_from acts next safe)

  -- Whatever happens to a new hub, in any order, runs to its end: no channel is closed twice, and
  -- `Broadcast` sends on no closed one. Every registered client then has an open channel, and no
  -- buffer holds more than its 256 messages.
  pub act_all-IsSafe :
      (acts : List (Action M)) → (h : Hub M) × (act_all acts new_hub ≡ some h) × IsSafe h
  act_all-IsSafe acts = act_all_from acts new_hub new_hub-IsSafe
