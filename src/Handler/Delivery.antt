-- ===== src/Handler/Delivery.antt =====
-- What the connections of the server get, of what its handlers and game loops send.
use mathlib.Core.List.{Sublist}
use gyeongdohalsaram_server.Base.{
  ◌≡◌, subst, inl, inr, Option, none, some, Option-cases, List, [], ◌∷◌, ◌++◌, eqb, arith,
  if◌then◌else◌,
}
use gyeongdohalsaram_server.Runtime.{Runtime}
use gyeongdohalsaram_server.Ws.Message.{ClientRef, Message, Outbox}
use gyeongdohalsaram_server.Handler.Accounts.{AccountStore}
use gyeongdohalsaram_server.Ws.Hub.{
  Channel, Hub, new_hub, register_new, unregister_client, send_message, client_count, write_round,
  ping_round,
}
use gyeongdohalsaram_server.Ws.Hub.Fifo.{
  Loses, Loses-refl, Loses-trans, if_cons, send_message-Loses, register_new-Loses,
  unregister_client-Loses, set_channel-quiet, write_round-Loses, ping_round-Loses,
}
use gyeongdohalsaram_server.Handler.Server.{Step}
use gyeongdohalsaram_server.Handler.Connections.{connect, auth_timeout}
use gyeongdohalsaram_server.Handler.Lobby.{handle_disconnect}
use gyeongdohalsaram_server.Handler.Rounds.{run_loop}
use gyeongdohalsaram_server.Handler.Router.{handle_message}
use gyeongdohalsaram_server.Handler.Events.{
  World, Event, connects, times_out, receives, disconnects, ticks, writes, pings, new_world,
  deliver, with_step, with_loop, step, run,
}

module _ ⦃R : Runtime⦄ where
  -- The messages to one client.
  abbrev pub messages_to : ClientRef → Outbox → List Message
  messages_to c [] = []
  messages_to c ((d, msg) ∷ out) =
      let rest = messages_to c out in if eqb c d then msg ∷ rest else rest

module _ ⦃R : Runtime⦄ ⦃A : AccountStore⦄ where
  deliver-Loses :
      (c : ClientRef) (out : Outbox) (h : Hub Message)
      → Loses (h.channels c) (messages_to c out) ((deliver out h).channels c)
  unfolding deliver
  deliver-Loses c [] h = Loses-refl (h.channels c)
  deliver-Loses c ((d, msg) ∷ out) h = rw (← if_cons (eqb c d) msg (messages_to c out)) (
      Loses-trans (h.channels c) ((send_message d msg h).channels c)
        ((deliver out (send_message d msg h)).channels c) _ (messages_to c out)
        (send_message-Loses c d msg h) (deliver-Loses c out (send_message d msg h)))

  abbrev pub outbox_of_loop : Option Step → Outbox
  outbox_of_loop none = []
  outbox_of_loop (some x) = x.1

  -- What an event sends.
  abbrev pub outbox_of : Event → World → Outbox
  outbox_of connects w = []
  outbox_of (times_out c) w = (auth_timeout c w.server).1
  outbox_of (receives c bytes now verify) w = (handle_message verify c bytes now w.server).1
  outbox_of (disconnects c) w = (handle_disconnect c w.server).1
  outbox_of (ticks n takes_ticker) w = outbox_of_loop (run_loop n takes_ticker w.server)
  outbox_of (writes c takes) w = []
  outbox_of (pings c takes) w = []

  -- What a history sends to a client.
  abbrev pub sent_in : ClientRef → List Event → World → List Message
  sent_in c [] w = []
  sent_in c (e ∷ es) w =
      messages_to c (outbox_of e w) ++ elim (step e w) [ none ↦ [] | some next ↦ sent_in c es next ]

  -- A step that comes to a panic, or whose messages are lost, put behind the others, or written.
  abbrev LosesStep : ClientRef → Channel Message → List Message → Option World → Type 0
  LosesStep c ch sent none = Unit
  LosesStep c ch sent (some w) = Loses ch sent (w.hub.channels c)

  with_step-Loses :
      (c : ClientRef) (x : Step) (h : Hub Message) (ch : Channel Message)
      → Loses ch [] (h.channels c)
      → Loses ch (messages_to c x.1) ((with_step x h).hub.channels c)
  with_step-Loses c (sv, out) h ch l =
      Loses-trans ch (h.channels c) ((deliver out h).channels c) [] (messages_to c out) l
        (deliver-Loses c out h)

  with_loop-LosesStep :
      (c : ClientRef) (x : Option Step) (h : Hub Message)
      → LosesStep c (h.channels c) (messages_to c (outbox_of_loop x)) (with_loop x h)
  with_loop-LosesStep c none h = tt
  with_loop-LosesStep c (some x) h =
      with_step-Loses c x h (h.channels c) (Loses-refl (h.channels c))

  step-Loses :
      (c : ClientRef) (e : Event) (w : World)
      → LosesStep c (w.hub.channels c) (messages_to c (outbox_of e w)) (step e w)
  unfolding step connect
  step-Loses c connects w =
      with_step-Loses c (connect w.hub.made (client_count w.hub) w.server) (register_new w.hub)
        (w.hub.channels c) (register_new-Loses c w.hub)
  step-Loses c (times_out d) w =
      with_step-Loses c (auth_timeout d w.server) w.hub (w.hub.channels c)
        (Loses-refl (w.hub.channels c))
  step-Loses c (receives d bytes now verify) w =
      with_step-Loses c (handle_message verify d bytes now w.server) w.hub (w.hub.channels c)
        (Loses-refl (w.hub.channels c))
  step-Loses c (disconnects d) w = elim (Option-cases (unregister_client d w.hub)) [
    | inl panic ↦ rw panic tt
    | inr (h, done) ↦ rw done (
        with_step-Loses c (handle_disconnect d w.server) h (w.hub.channels c)
          (unregister_client-Loses c d w.hub h done))
  ]
  step-Loses c (ticks n takes_ticker) w =
      with_loop-LosesStep c (run_loop n takes_ticker w.server) w.hub
  step-Loses c (writes d takes) w =
      set_channel-quiet c d (write_round takes (w.hub.channels d)) w.hub
        (write_round-Loses takes (w.hub.channels d))
  step-Loses c (pings d takes) w =
      set_channel-quiet c d (ping_round takes (w.hub.channels d)) w.hub
        (ping_round-Loses takes (w.hub.channels d))

  run-Loses :
      (c : ClientRef) (es : List Event) (w w' : World)
      → run es w ≡ some w'
      → Loses (w.hub.channels c) (sent_in c es w) (w'.hub.channels c)
  unfolding run
  run-Loses c [] w w' e =
      let same : w ≡ w' = ground arith in
      subst (λ x. Loses (w.hub.channels c) [] (x.hub.channels c)) same
        (Loses-refl (w.hub.channels c))
  run-Loses c (ev ∷ es) w w' e = elim (Option-cases (step ev w)) [
    | inl gone ↦ ground arith
    | inr (next, got) ↦
        let first =
          subst (LosesStep c (w.hub.channels c) (messages_to c (outbox_of ev w))) got
            (step-Loses c ev w) in
        rw got (
          Loses-trans (w.hub.channels c) (next.hub.channels c) (w'.hub.channels c) _
            (sent_in c es next) first (run-Loses c es next w' (ground arith)))
  ]

  -- In any history of the server, what has been written on a connection, and what waits to be, is a
  -- part of what the handlers and game loops sent to its client, in the order in which they sent it:
  -- messages may be lost, but none is made up, doubled, or overtaken.
  pub run-Sublist :
      (c : ClientRef) (es : List Event) (accounts : A.State) (s : R.Seed) (w : World)
      → run es (new_world accounts s) ≡ some w
      → Sublist
          ((w.hub.channels c).written ++ (w.hub.channels c).buffer)
          (sent_in c es (new_world accounts s))
  unfolding new_world new_hub
  run-Sublist c es accounts s w e = run-Loses c es (new_world accounts s) w e
