-- ===== src/Ws/Hub/Lossless.antt =====
-- When a channel of the hub loses nothing of what is sent on it.
use mathlib.Core.List.{append_assoc, append-nil}
use gyeongdohalsaram_server.Base.{
  ◌+◌, ◌≤◌, ◌<◌, ◌≡◌, refl, sym, ◌∙◌, ap, subst, ◌≢◌, inl, inr, Bool, true, false, Bool-cases,
  ℕ_discrete, some, Option-cases, List, [], ◌∷◌, ◌++◌, eqb, leb, length, length-append, arith,
  if◌then◌else◌,
}
use gyeongdohalsaram_server.Ws.Message.{ClientRef}
use gyeongdohalsaram_server.Ws.Hub.{
  Channel, Hub, send_capacity, new_channel, set_channel, register_new, unregister_client,
  close_send, has_client, delete_client, offer, send_message, write_round, ping_round,
}
use gyeongdohalsaram_server.Ws.Hub.Safe.{set_channel_cases}
use gyeongdohalsaram_server.Ws.Hub.Fifo.{line, line-write_round}

module _ {M : Type 0} where
  -- The channel stays open, and what is sent is put behind what there was.
  abbrev pub Gains : Channel M → List M → Channel M → Type 0
  Gains ch sent ch' =
      (ch'.closed ≡ false)
      × (line ch' ≡ line ch ++ sent)
      × (length ch'.buffer ≤ length ch.buffer + length sent)

  pub Gains-refl : (ch : Channel M) → ch.closed ≡ false → Gains ch [] ch
  Gains-refl ch e = (e, sym (append-nil (line ch)), omega arith)

  pub Gains-trans :
      (ch ch' ch'' : Channel M) (sent sent' : List M)
      → Gains ch sent ch'
      → Gains ch' sent' ch''
      → Gains ch (sent ++ sent') ch''
  Gains-trans ch ch' ch'' sent sent' p q = (
    q.0,
    q.1 ∙ ap (λ l. l ++ sent') p.1 ∙ append_assoc (line ch) sent sent',
    omega (arith, p.2, q.2, length-append sent sent'),
  )

  offer-Gains :
      (msg : M) (ch : Channel M)
      → ch.closed ≡ false
      → length ch.buffer < send_capacity
      → (ch' : Channel M) × (offer msg ch ≡ some ch') × Gains ch (msg ∷ []) ch'
  unfolding offer
  offer-Gains msg ch e b =
      let room : leb send_capacity (length ch.buffer) ≡ false = ground arith in
      (
        record ch { buffer = ch.buffer ++ (msg ∷ []) },
        rw (e, room) refl,
        (
          e,
          sym (append_assoc ch.written ch.buffer (msg ∷ [])),
          omega (arith, length-append ch.buffer (msg ∷ [])),
        ),
      )

  -- The channel of a client is the new one, or as it was.
  pub set_channel-Gains :
      (c d : ClientRef) (ch : Channel M) (h : Hub M)
      → (h.channels c).closed ≡ false
      → (d ≡ c → Gains (h.channels c) [] ch)
      → Gains (h.channels c) [] ((set_channel d ch h).channels c)
  set_channel-Gains c d ch h e g = elim (set_channel_cases d ch h c) [
    | inl (same, f) ↦ rw f (g (sym same))
    | inr (n, f) ↦ rw f (Gains-refl (h.channels c) e)
  ]

  send_message_self :
      (c : ClientRef) (msg : M) (h : Hub M)
      → (h.channels c).closed ≡ false
      → length (h.channels c).buffer < send_capacity
      → Gains (h.channels c) (msg ∷ []) ((send_message c msg h).channels c)
  unfolding send_message
  send_message_self c msg h e b =
      let (ch, got, g) = offer-Gains msg (h.channels c) e b in
      elim (set_channel_cases c ch h c) [
        | inl (same, f) ↦ rw (got, send_message, f) g
        | inr (n, f) ↦ absurd (n refl)
      ]

  send_message_other :
      (c d : ClientRef) (msg : M) (h : Hub M)
      → (h.channels c).closed ≡ false
      → c ≢ d
      → Gains (h.channels c) [] ((send_message d msg h).channels c)
  unfolding send_message
  send_message_other c d msg h e n = elim (Option-cases (offer msg (h.channels d))) [
    | inl dropped ↦ rw (dropped, send_message) (Gains-refl (h.channels c) e)
    | inr (ch, got) ↦
        rw (got, send_message) (set_channel-Gains c d ch h e (λ same. absurd (n (sym same))))
  ]

  pub send_message-Gains :
      (c d : ClientRef) (msg : M) (h : Hub M)
      → (h.channels c).closed ≡ false
      → length (h.channels c).buffer + length (if eqb c d then msg ∷ [] else []) ≤ send_capacity
      → Gains (h.channels c) (if eqb c d then msg ∷ [] else []) ((send_message d msg h).channels c)
  send_message-Gains c d msg h e b = elim (ℕ_discrete c d) [
    | yes same ↦
        let t : eqb c d ≡ true = ground arith in
        let fits : length (h.channels c).buffer < send_capacity = ground (arith, b, t) in
        rw t (
          subst (λ x. Gains (h.channels c) (msg ∷ []) ((send_message x msg h).channels c)) same
            (send_message_self c msg h e fits))
    | no n ↦ let t : eqb c d ≡ false = ground arith in rw t (send_message_other c d msg h e n)
  ]

  pub write_round-Gains : (ch : Channel M) → ch.closed ≡ false → Gains ch [] (write_round true ch)
  unfolding write_round
  write_round-Gains ch e = (
    ground arith,
    elim (line-write_round true ch) [
      | inl same ↦ same ∙ sym (append-nil (line ch))
      | inr (msg, rest, b, l, f) ↦ cc f
    ],
    ground arith,
  )

  pub ping_round-Gains :
      (takes : Bool) (ch : Channel M) → ch.closed ≡ false → Gains ch [] (ping_round takes ch)
  unfolding ping_round
  ping_round-Gains true ch e = Gains-refl ch e
  ping_round-Gains false ch e = (e, sym (append-nil (line ch)), omega arith)

  pub made-send_message :
      (d : ClientRef) (msg : M) (h : Hub M) → (send_message d msg h).made ≡ h.made
  unfolding send_message set_channel
  made-send_message d msg h = elim (Option-cases (offer msg (h.channels d))) [
    | inl dropped ↦ rw (dropped, send_message) refl
    | inr (ch, got) ↦ rw (got, send_message) refl
  ]

  -- The client's channel gains this, and no client is made.
  abbrev pub Stays : ClientRef → List M → Hub M → Hub M → Type 0
  Stays c sent h h' = Gains (h.channels c) sent (h'.channels c) × (h'.made ≡ h.made)

  pub unregister_client-Stays :
      (c d : ClientRef) (h h' : Hub M)
      → (h.channels c).closed ≡ false
      → d ≢ c
      → unregister_client d h ≡ some h'
      → Stays c [] h h'
  unfolding unregister_client close_send set_channel
  unregister_client-Stays c d h h' e n got = elim (Bool-cases (has_client d h.clients)) [
    | inl known ↦ elim (Bool-cases (h.channels d).closed) [
      | inl shut ↦ ground arith
      | inr opened ↦
          let same : set_channel d (record (h.channels d) { closed = true })
                (record h { clients = delete_client d h.clients })
              ≡ h' =
            ground arith in
          subst (Stays c [] h) same (
            set_channel-Gains c d (record (h.channels d) { closed = true })
                (record h { clients = delete_client d h.clients }) e (λ f. absurd (n f)),
            refl,
          )
    ]
    | inr unknown ↦
        let same : h ≡ h' = ground arith in
        subst (Stays c [] h) same (Gains-refl (h.channels c) e, refl)
  ]

  pub Stays-trans :
      (c : ClientRef) (sent sent' : List M) (h h' h'' : Hub M)
      → Stays c sent h h'
      → Stays c sent' h' h''
      → Stays c (sent ++ sent') h h''
  Stays-trans c sent sent' h h' h'' p q =
      (Gains-trans (h.channels c) (h'.channels c) (h''.channels c) sent sent' p.0 q.0, q.1 ∙ p.1)

  pub register_new-Gains :
      (c : ClientRef) (h : Hub M)
      → (h.channels c).closed ≡ false
      → c < h.made
      → Gains (h.channels c) [] ((register_new h).channels c)
  unfolding register_new
  register_new-Gains c h e b =
      set_channel-Gains c h.made new_channel h e (λ same. absurd (omega (arith, same, b)))

  pub made-register_new : (h : Hub M) → h.made ≤ (register_new h).made
  unfolding register_new
  made-register_new h = omega arith

  pub made-set_channel :
      (c : ClientRef) (ch : Channel M) (h : Hub M) → h.made ≤ (set_channel c ch h).made
  unfolding set_channel
  made-set_channel c ch h = omega arith
