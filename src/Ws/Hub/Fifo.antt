-- ===== src/Ws/Hub/Fifo.antt =====
-- What reaches a connection: of what is sent to its client, some messages at most are lost.
use mathlib.Core.List.{Sublist, append_assoc, append-nil, nil-sublist, sublist-append_left}
use mathlib.Core.List.Sublist
use gyeongdohalsaram_server.Base.{
  ◌≡◌, refl, sym, subst, ◌⊎◌, inl, inr, Bool, true, false, Bool-cases, Option-cases, none, some,
  List, [], ◌∷◌, ◌++◌, arith, leb, eqb, length, if◌then◌else◌,
}
use gyeongdohalsaram_server.Ws.Message.{ClientRef}
use gyeongdohalsaram_server.Ws.Hub.{
  Channel, Hub, Action, comes, ends, sends, floods, pumps, pings, send_capacity, new_channel,
  new_hub, set_channel, register_new, close_send, unregister_client, has_client, delete_client,
  offer, send_message, broadcast_loop, broadcast, write_round, ping_round, act, act_all,
}
use gyeongdohalsaram_server.Ws.Hub.Safe.{set_channel_cases}

module _ {M : Type 0} where
  -- What has been written on the connection, and what is still to be.
  abbrev pub line : Channel M → List M
  line ch = ch.written ++ ch.buffer

  -- What `Broadcast` sends to one client, over the clients to come.
  abbrev pub flood_of : ClientRef → M → List ClientRef → List M
  flood_of c msg [] = []
  flood_of c msg (d ∷ ds) = let rest = flood_of c msg ds in if eqb c d then msg ∷ rest else rest

  -- What one action sends to a client.
  abbrev pub sent_by : ClientRef → Action M → Hub M → List M
  sent_by c (sends d msg) h = if eqb c d then msg ∷ [] else []
  sent_by c (floods msg) h = flood_of c msg h.clients
  sent_by c _ h = []

  -- What a history sends to a client.
  abbrev pub sent_to : ClientRef → List (Action M) → Hub M → List M
  sent_to c [] h = []
  sent_to c (a ∷ acts) h =
      sent_by c a h ++ elim (act a h) [ none ↦ [] | some next ↦ sent_to c acts next ]

  -- The step from a channel to a channel loses some of what is sent, at most.
  abbrev pub Loses : Channel M → List M → Channel M → Type 0
  Loses ch sent ch' = Sublist (line ch') (line ch ++ sent)

  pub Loses-refl : (ch : Channel M) → Loses ch [] ch
  Loses-refl ch = subst (Sublist (line ch)) (sym (append-nil (line ch))) (Sublist.refl (line ch))

  line-offer :
      (msg : M) (ch ch' : Channel M)
      → offer msg ch ≡ some ch'
      → (line ch' ≡ line ch) ⊎ (line ch' ≡ line ch ++ (msg ∷ []))
  unfolding offer
  line-offer msg ch ch' e = elim (Bool-cases ch.closed) [
    | inl shut ↦ ground arith
    | inr opened ↦ elim (Bool-cases (leb send_capacity (length ch.buffer))) [
      | inl full ↦ inl (ground arith)
      | inr room ↦ inr (ground (arith, append_assoc ch.written ch.buffer (msg ∷ [])))
    ]
  ]

  offer-Loses : (msg : M) (ch ch' : Channel M) → offer msg ch ≡ some ch' → Loses ch (msg ∷ []) ch'
  offer-Loses msg ch ch' e = elim (line-offer msg ch ch' e) [
    | inl f ↦ rw f (sublist-append_left (line ch) (msg ∷ []))
    | inr f ↦ rw f (Sublist.refl (line ch ++ (msg ∷ [])))
  ]

  List-cases : (l : List M) → (l ≡ []) ⊎ ((x : M) × (rest : List M) × (l ≡ x ∷ rest))
  List-cases [] = inl refl
  List-cases (x ∷ rest) = inr (x, rest, refl)

  -- A round of the pump writes the first message, loses it, or leaves the line as it is.
  pub line-write_round :
      (takes : Bool) (ch : Channel M)
      → (line (write_round takes ch) ≡ line ch)
        ⊎ ((msg : M) × (rest : List M) × (ch.buffer ≡ msg ∷ rest)
            × (line (write_round takes ch) ≡ ch.written ++ rest)
            × (takes ≡ false))
  unfolding write_round
  line-write_round takes ch = elim (List-cases ch.buffer) [
    | inl e ↦ inl (ground arith)
    | inr (msg, rest, e) ↦ elim (Bool-cases ch.pumping) [
      | inl on ↦ elim (Bool-cases takes) [
        | inl good ↦ inl (ground (arith, append_assoc ch.written (msg ∷ []) rest))
        | inr bad ↦ inr (msg, rest, e, ground arith, bad)
      ]
      | inr off ↦ inl (ground arith)
    ]
  ]

  pub write_round-Loses : (takes : Bool) (ch : Channel M) → Loses ch [] (write_round takes ch)
  write_round-Loses takes ch = elim (line-write_round takes ch) [
    | inl e ↦ rw e (Loses-refl ch)
    | inr (msg, rest, b, e, _) ↦
        rw (e, b, append-nil (ch.written ++ (msg ∷ rest)))
          (Sublist.append (Sublist.refl ch.written) (Sublist.cons msg (Sublist.refl rest)))
  ]

  pub ping_round-Loses : (takes : Bool) (ch : Channel M) → Loses ch [] (ping_round takes ch)
  unfolding ping_round
  ping_round-Loses true ch = Loses-refl ch
  ping_round-Loses false ch = Loses-refl ch

  set_channel-Loses :
      (c d : ClientRef) (ch : Channel M) (h : Hub M) (sent : List M)
      → Loses (h.channels d) sent ch
      → Loses (h.channels c) (if eqb c d then sent else []) ((set_channel d ch h).channels c)
  set_channel-Loses c d ch h sent l = elim (set_channel_cases d ch h c) [
    | inl (same, f) ↦
        let t : eqb c d ≡ true = ground arith in
        rw (t, f) (subst (λ x. Loses (h.channels x) sent ch) (sym same) l)
    | inr (n, f) ↦ let t : eqb c d ≡ false = ground arith in rw (t, f) (Loses-refl (h.channels c))
  ]

  pub set_channel-quiet :
      (c d : ClientRef) (ch : Channel M) (h : Hub M)
      → Loses (h.channels d) [] ch
      → Loses (h.channels c) [] ((set_channel d ch h).channels c)
  set_channel-quiet c d ch h l = elim (set_channel_cases d ch h c) [
    | inl (same, f) ↦ rw f (subst (λ x. Loses (h.channels x) [] ch) (sym same) l)
    | inr (n, f) ↦ rw f (Loses-refl (h.channels c))
  ]

  pub Loses-trans :
      (ch ch' ch'' : Channel M) (sent sent' : List M)
      → Loses ch sent ch'
      → Loses ch' sent' ch''
      → Loses ch (sent ++ sent') ch''
  Loses-trans ch ch' ch'' sent sent' p q =
      subst (Sublist (line ch'')) (append_assoc (line ch) sent sent')
        (Sublist.trans q (Sublist.append p (Sublist.refl sent')))

  pub if_cons :
      (b : Bool) (msg : M) (l : List M)
      → (if b then msg ∷ [] else []) ++ l ≡ (if b then msg ∷ l else l)
  if_cons true msg l = refl
  if_cons false msg l = refl

  broadcast_loop-Loses :
      (c : ClientRef) (msg : M) (cs : List ClientRef) (h h' : Hub M)
      → broadcast_loop msg cs h ≡ some h'
      → Loses (h.channels c) (flood_of c msg cs) (h'.channels c)
  unfolding broadcast_loop
  broadcast_loop-Loses c msg [] h h' e =
      let same : h ≡ h' = ground arith in
      subst (λ x. Loses (h.channels c) [] (x.channels c)) same (Loses-refl (h.channels c))
  broadcast_loop-Loses c msg (d ∷ cs) h h' e = elim (Option-cases (offer msg (h.channels d))) [
    | inl gone ↦ ground arith
    | inr (ch, got) ↦
        let rest = broadcast_loop-Loses c msg cs (set_channel d ch h) h' (ground arith) in
        rw (← if_cons (eqb c d) msg (flood_of c msg cs)) (
          Loses-trans (h.channels c) ((set_channel d ch h).channels c) (h'.channels c) _
            (flood_of c msg cs)
            (set_channel-Loses c d ch h (msg ∷ []) (offer-Loses msg (h.channels d) ch got)) rest)
  ]

  pub send_message-Loses :
      (c d : ClientRef) (msg : M) (h : Hub M)
      → Loses (h.channels c) (if eqb c d then msg ∷ [] else []) ((send_message d msg h).channels c)
  unfolding send_message
  send_message-Loses c d msg h = elim (Option-cases (offer msg (h.channels d))) [
    | inl e ↦ rw (e, send_message) (sublist-append_left (line (h.channels c)) _)
    | inr (ch, e) ↦
        rw (e, send_message)
          (set_channel-Loses c d ch h (msg ∷ []) (offer-Loses msg (h.channels d) ch e))
  ]

  pub unregister_client-Loses :
      (c d : ClientRef) (h h' : Hub M)
      → unregister_client d h ≡ some h'
      → Loses (h.channels c) [] (h'.channels c)
  unfolding unregister_client close_send set_channel
  unregister_client-Loses c d h h' e = elim (Bool-cases (has_client d h.clients)) [
    | inl known ↦ elim (Bool-cases (h.channels d).closed) [
      | inl shut ↦ ground arith
      | inr opened ↦
          let same : set_channel d (record (h.channels d) { closed = true })
                (record h { clients = delete_client d h.clients })
              ≡ h' =
            ground arith in
          subst (λ x. Loses (h.channels c) [] (x.channels c)) same
            (set_channel-quiet c d (record (h.channels d) { closed = true }) h
              (Loses-refl (h.channels d)))
    ]
    | inr unknown ↦
        let same : h ≡ h' = ground arith in
        subst (λ x. Loses (h.channels c) [] (x.channels c)) same (Loses-refl (h.channels c))
  ]

  pub register_new-Loses :
      (c : ClientRef) (h : Hub M) → Loses (h.channels c) [] ((register_new h).channels c)
  unfolding register_new
  register_new-Loses c h = elim (set_channel_cases h.made new_channel h c) [
    | inl (same, f) ↦ rw f (nil-sublist _)
    | inr (n, f) ↦ rw f (Loses-refl (h.channels c))
  ]

  act-Loses :
      (c : ClientRef) (a : Action M) (h h' : Hub M)
      → act a h ≡ some h'
      → Loses (h.channels c) (sent_by c a h) (h'.channels c)
  unfolding act broadcast
  act-Loses c comes h h' e =
      let same : register_new h ≡ h' = ground arith in
      subst (λ x. Loses (h.channels c) [] (x.channels c)) same (register_new-Loses c h)
  act-Loses c (ends d) h h' e = unregister_client-Loses c d h h' e
  act-Loses c (sends d msg) h h' e =
      let same : send_message d msg h ≡ h' = ground arith in
      subst (λ x. Loses (h.channels c) (if eqb c d then msg ∷ [] else []) (x.channels c)) same
        (send_message-Loses c d msg h)
  act-Loses c (floods msg) h h' e = broadcast_loop-Loses c msg h.clients h h' e
  act-Loses c (pumps d takes) h h' e =
      let same : set_channel d (write_round takes (h.channels d)) h ≡ h' = ground arith in
      subst (λ x. Loses (h.channels c) [] (x.channels c)) same
        (set_channel-quiet c d (write_round takes (h.channels d)) h
          (write_round-Loses takes (h.channels d)))
  act-Loses c (pings d takes) h h' e =
      let same : set_channel d (ping_round takes (h.channels d)) h ≡ h' = ground arith in
      subst (λ x. Loses (h.channels c) [] (x.channels c)) same
        (set_channel-quiet c d (ping_round takes (h.channels d)) h
          (ping_round-Loses takes (h.channels d)))

  act_all-Loses :
      (c : ClientRef) (acts : List (Action M)) (h h' : Hub M)
      → act_all acts h ≡ some h'
      → Loses (h.channels c) (sent_to c acts h) (h'.channels c)
  unfolding act_all
  act_all-Loses c [] h h' e =
      let same : h ≡ h' = ground arith in
      subst (λ x. Loses (h.channels c) [] (x.channels c)) same (Loses-refl (h.channels c))
  act_all-Loses c (a ∷ acts) h h' e = elim (Option-cases (act a h)) [
    | inl gone ↦ ground arith
    | inr (next, got) ↦ rw got (
        Loses-trans (h.channels c) (next.channels c) (h'.channels c) (sent_by c a h)
          (sent_to c acts next) (act-Loses c a h next got)
          (act_all-Loses c acts next h' (ground arith)))
  ]

  -- Whatever happens, what is on the wire to a client, and what waits behind it, is a part of what was
  -- sent to the client, in the order in which it was sent: messages may be lost, but none is made up,
  -- doubled, or overtaken.
  pub written-Sublist :
      (c : ClientRef) (acts : List (Action M)) (h : Hub M)
      → act_all acts new_hub ≡ some h
      → Sublist ((h.channels c).written ++ (h.channels c).buffer) (sent_to c acts new_hub)
  unfolding new_hub
  written-Sublist c acts h e = act_all-Loses c acts new_hub h e
