-- ===== src/Handler/Lossless.antt =====
-- When nothing of what is sent to a client is lost.
use gyeongdohalsaram_server.Base.{
  ◌+◌, ◌≤◌, ◌<◌, ◌≡◌, refl, sym, ◌∙◌, ap, subst, ◌≢◌, inl, inr, true, false, Option, none, some,
  Option-cases, List, [], ◌∷◌, ◌++◌, eqb, length, length-append, arith, All, if◌then◌else◌,
}
use gyeongdohalsaram_server.Runtime.{Runtime}
use gyeongdohalsaram_server.Ws.Message.{ClientRef, Message, Outbox}
use gyeongdohalsaram_server.Handler.Accounts.{AccountStore}
use gyeongdohalsaram_server.Ws.Hub.{
  Hub, send_capacity, register_new, unregister_client, send_message, write_round, ping_round,
  client_count,
}
use gyeongdohalsaram_server.Ws.Hub.Fifo.{if_cons}
use gyeongdohalsaram_server.Ws.Hub.Lossless.{
  Gains, Gains-refl, Gains-trans, set_channel-Gains, send_message-Gains, write_round-Gains,
  ping_round-Gains, made-send_message, Stays, unregister_client-Stays, Stays-trans,
  register_new-Gains, made-register_new, made-set_channel,
}
use gyeongdohalsaram_server.Handler.Server.{Step}
use gyeongdohalsaram_server.Handler.Connections.{connect, auth_timeout}
use gyeongdohalsaram_server.Handler.Lobby.{handle_disconnect}
use gyeongdohalsaram_server.Handler.Rounds.{run_loop}
use gyeongdohalsaram_server.Handler.Router.{handle_message}
use gyeongdohalsaram_server.Handler.Events.{
  World, Event, connects, times_out, receives, disconnects, ticks, writes, pings, deliver,
  with_step, with_loop, step, run,
}
use gyeongdohalsaram_server.Handler.Delivery.{messages_to, outbox_of_loop, outbox_of, sent_in}

module _ ⦃R : Runtime⦄ where
  deliver-Stays :
      (c : ClientRef) (out : Outbox) (h : Hub Message)
      → (h.channels c).closed ≡ false
      → length (h.channels c).buffer + length (messages_to c out) ≤ send_capacity
      → Stays c (messages_to c out) h (deliver out h)
  unfolding deliver
  deliver-Stays c [] h e b = (Gains-refl (h.channels c) e, refl)
  deliver-Stays c ((d, msg) ∷ out) h e b =
      let one = if eqb c d then msg ∷ [] else [] in
      let whole : one ++ messages_to c out ≡ messages_to c ((d, msg) ∷ out) =
        if_cons (eqb c d) msg (messages_to c out) in
      let size : length one + length (messages_to c out) ≡ length (messages_to c ((d, msg) ∷ out)) =
        sym (length-append one (messages_to c out)) ∙ ap length whole in
      let first = send_message-Gains c d msg h e (omega (arith, b, size)) in
      let rest =
        deliver-Stays c out (send_message d msg h) first.0 (omega (arith, b, size, first.2)) in
      rw (← whole) (
        Stays-trans c one (messages_to c out) h (send_message d msg h)
          (deliver out (send_message d msg h)) (first, made-send_message d msg h) rest)

module _ ⦃R : Runtime⦄ ⦃A : AccountStore⦄ where
  -- What does not lose a message of the client: all but the end of its connection, and a failure to
  -- write on it.
  abbrev pub IsHarmless : ClientRef → Event → Type 0
  IsHarmless c (disconnects d) = d ≢ c
  IsHarmless c (writes d takes) = d ≡ c → takes ≡ true
  IsHarmless c _ = Unit

  abbrev StaysStep : ClientRef → List Message → Hub Message → Option World → Type 0
  StaysStep c sent h none = Unit
  StaysStep c sent h (some w) = Gains (h.channels c) sent (w.hub.channels c) × (h.made ≤ w.hub.made)

  with_step-StaysStep :
      (c : ClientRef) (x : Step) (before h : Hub Message)
      → Gains (before.channels c) [] (h.channels c)
      → before.made ≤ h.made
      → length (before.channels c).buffer + length (messages_to c x.1) ≤ send_capacity
      → StaysStep c (messages_to c x.1) before (some (with_step x h))
  with_step-StaysStep c (sv, out) before h g m b =
      let (gains, made) = deliver-Stays c out h g.0 (omega (arith, g.2, b)) in
      (
        Gains-trans (before.channels c) (h.channels c) ((deliver out h).channels c) []
            (messages_to c out) g gains,
        omega (arith, m, made),
      )

  with_loop-StaysStep :
      (c : ClientRef) (x : Option Step) (h : Hub Message)
      → (h.channels c).closed ≡ false
      → length (h.channels c).buffer + length (messages_to c (outbox_of_loop x)) ≤ send_capacity
      → StaysStep c (messages_to c (outbox_of_loop x)) h (with_loop x h)
  with_loop-StaysStep c none h e b = tt
  with_loop-StaysStep c (some x) h e b =
      with_step-StaysStep c x h h (Gains-refl (h.channels c) e) (omega arith) b

  step-StaysStep :
      (c : ClientRef) (e : Event) (w : World)
      → IsHarmless c e
      → (w.hub.channels c).closed ≡ false
      → c < w.hub.made
      → length (w.hub.channels c).buffer + length (messages_to c (outbox_of e w)) ≤ send_capacity
      → StaysStep c (messages_to c (outbox_of e w)) w.hub (step e w)
  unfolding step connect
  step-StaysStep c connects w k o m b =
      with_step-StaysStep c (connect w.hub.made (client_count w.hub) w.server) w.hub
        (register_new w.hub) (register_new-Gains c w.hub o m) (made-register_new w.hub) b
  step-StaysStep c (times_out d) w k o m b =
      with_step-StaysStep c (auth_timeout d w.server) w.hub w.hub (Gains-refl (w.hub.channels c) o)
        (omega arith) b
  step-StaysStep c (receives d bytes now verify) w k o m b =
      with_step-StaysStep c (handle_message verify d bytes now w.server) w.hub w.hub
        (Gains-refl (w.hub.channels c) o) (omega arith) b
  step-StaysStep c (disconnects d) w k o m b = elim (Option-cases (unregister_client d w.hub)) [
    | inl panic ↦ rw panic tt
    | inr (h, done) ↦
        let (gains, made) = unregister_client-Stays c d w.hub h o k done in
        rw done (
          with_step-StaysStep c (handle_disconnect d w.server) w.hub h gains (omega (arith, made))
            b)
  ]
  step-StaysStep c (ticks n takes_ticker) w k o m b =
      with_loop-StaysStep c (run_loop n takes_ticker w.server) w.hub o b
  step-StaysStep c (writes d takes) w k o m b = (
    set_channel-Gains c d (write_round takes (w.hub.channels d)) w.hub o
        (λ same. rw (k same, same) (write_round-Gains (w.hub.channels c) o)),
    made-set_channel d _ w.hub,
  )
  step-StaysStep c (pings d takes) w k o m b = (
    set_channel-Gains c d (ping_round takes (w.hub.channels d)) w.hub o
        (λ same. rw same (ping_round-Gains takes (w.hub.channels c) o)),
    made-set_channel d _ w.hub,
  )

  run-Gains :
      (c : ClientRef) (es : List Event) (w w' : World)
      → All (IsHarmless c) es
      → (w.hub.channels c).closed ≡ false
      → c < w.hub.made
      → length (w.hub.channels c).buffer + length (sent_in c es w) ≤ send_capacity
      → run es w ≡ some w'
      → Gains (w.hub.channels c) (sent_in c es w) (w'.hub.channels c)
  unfolding run
  run-Gains c [] w w' k o m b e =
      let same : w ≡ w' = ground arith in
      subst (λ x. Gains (w.hub.channels c) [] (x.hub.channels c)) same
        (Gains-refl (w.hub.channels c) o)
  run-Gains c (ev ∷ es) w w' (k, ks) o m b e = elim (Option-cases (step ev w)) [
    | inl gone ↦ ground arith
    | inr (next, got) ↦
        let first = messages_to c (outbox_of ev w) in
        let size : length (sent_in c (ev ∷ es) w) ≡ length first + length (sent_in c es next) =
          rw got (length-append first (sent_in c es next)) in
        let (gains, made) =
          subst (StaysStep c first w.hub) got
            (step-StaysStep c ev w k o m (omega (arith, b, size))) in
        let rest =
          run-Gains c es next w' ks gains.0 (omega (arith, m, made))
            (omega (arith, b, size, gains.2)) (ground arith) in
        rw got (
          Gains-trans (w.hub.channels c) (next.hub.channels c) (w'.hub.channels c) first
            (sent_in c es next) gains rest)
  ]

  -- A client that has been made and whose channel is open loses nothing, as long as its connection
  -- neither ends nor fails, if what waits in its buffer and what is sent to it in the history are at
  -- most 256 messages: what has been written and what waits is then what it was, followed by all that
  -- the handlers and game loops sent to the client, in their order.
  pub line-run :
      (c : ClientRef) (es : List Event) (w w' : World)
      → All (IsHarmless c) es
      → (w.hub.channels c).closed ≡ false
      → c < w.hub.made
      → length (w.hub.channels c).buffer + length (sent_in c es w) ≤ send_capacity
      → run es w ≡ some w'
      → (w'.hub.channels c).written ++ (w'.hub.channels c).buffer
        ≡ ((w.hub.channels c).written ++ (w.hub.channels c).buffer) ++ sent_in c es w
  line-run c es w w' k o m b e = (run-Gains c es w w' k o m b e).1
