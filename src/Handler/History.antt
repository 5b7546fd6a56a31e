-- ===== src/Handler/History.antt =====
-- The server after any history of events.
use gyeongdohalsaram_server.Base.{
  ◌≡◌, refl, sym, subst, inl, inr, Bool, Bool-cases, Option, none, some, Option-cases, String, List,
  [], ◌∷◌, ℤ,
}
use gyeongdohalsaram_server.Runtime.{Runtime}
use gyeongdohalsaram_server.Ws.Message.{ClientRef, Message, Outbox}
use gyeongdohalsaram_server.Handler.Accounts.{AccountStore}
use gyeongdohalsaram_server.Ws.Hub.{Hub, register_new, send_message}
use gyeongdohalsaram_server.Ws.Hub.Safe.{
  IsSafe, IsSafeStep, send_message-IsSafe, register_new-IsSafe, unregister_client-IsSafe,
  new_hub-IsSafe, write_round-IsSafe, ping_round-IsSafe,
}
use gyeongdohalsaram_server.Handler.Server.{Server, Step, set_client}
use gyeongdohalsaram_server.Handler.Connections.{connect, auth_timeout}
use gyeongdohalsaram_server.Handler.Lobby.{handle_leave_room, handle_disconnect}
use gyeongdohalsaram_server.GameCenter.{Credential}
use gyeongdohalsaram_server.Handler.Router.{
  Command, authenticate, create_room, join_room, random_join, leave_room, select_team, player_ready,
  return_to_lobby, player_move, unknown, command, dispatch, is_authenticate, handle_message,
}
use gyeongdohalsaram_server.Handler.Rounds.Sound.{IsStep, run_loop-IsStep}
use gyeongdohalsaram_server.Handler.Events.{
  World, Event, connects, times_out, receives, disconnects, ticks, writes, pings, new_server,
  new_world, deliver, with_step, with_loop, with_unregister, step, run,
}
use gyeongdohalsaram_server.Handler.Invariant.{Listed, IsSound, remove_client-IsSound}
use gyeongdohalsaram_server.Handler.Guard.{handle_authenticate-SameGame}
use gyeongdohalsaram_server.Handler.Soundness.{
  handle_create_room-IsSound, handle_join_room-IsSound, handle_random_join-IsSound,
  handle_select_team-IsSound, handle_player_ready-IsSound, handle_return_to_lobby-IsSound,
  handle_player_move-IsSound,
}

module _ ⦃R : Runtime⦄ ⦃A : AccountStore⦄ where
  -- A sound server over a safe hub.
  pub record IsWell (w : World) : Type 0 where
    pub sound : IsSound w.server
    pub safe : IsSafe w.hub

  abbrev IsWellStep : Option World → Type 0
  IsWellStep none = ⊥
  IsWellStep (some w) = IsWell w

  deliver-IsSafe : (out : Outbox) (h : Hub Message) → IsSafe h → IsSafe (deliver out h)
  unfolding deliver
  deliver-IsSafe [] h v = v
  deliver-IsSafe ((c, msg) ∷ out) h v =
      deliver-IsSafe out (send_message c msg h) (send_message-IsSafe c msg h v)

  with_step-IsWell : (x : Step) (h : Hub Message) → IsSound x.0 → IsSafe h → IsWell (with_step x h)
  with_step-IsWell (sv, out) h sound safe = record {
    sound = sound;
    safe = deliver-IsSafe out h safe;
  }

  with_loop-IsWellStep :
      (x : Option Step) (h : Hub Message) → IsStep x → IsSafe h → IsWellStep (with_loop x h)
  with_loop-IsWellStep none h v safe = v
  with_loop-IsWellStep (some x) h v safe = with_step-IsWell x h v safe

  with_unregister-IsWellStep :
      (c : ClientRef) (x : Option (Hub Message)) (sv : Server)
      → IsSafeStep x
      → IsSound sv
      → IsWellStep (with_unregister c x sv)
  unfolding handle_disconnect
  with_unregister-IsWellStep c none sv safe h = safe
  with_unregister-IsWellStep c (some hub) sv safe h =
      with_step-IsWell (handle_disconnect c sv) hub (remove_client-IsSound c sv h) safe

  auth_timeout-IsSound : (c : ClientRef) (sv : Server) → IsSound sv → IsSound (auth_timeout c sv).0
  unfolding auth_timeout
  auth_timeout-IsSound c sv h = elim (Bool-cases (sv.clients c).authenticated) [
    | inl known ↦ rw (known, auth_timeout) h
    | inr stranger ↦ rw (stranger, auth_timeout) h
  ]

  module _ (verify : Credential → Bool) where
    dispatch-IsSound :
        (c : Command) (client : ClientRef) (type : String) (raw : R.Raw) (now : ℤ) (sv : Server)
        → IsSound sv
        → IsSound (dispatch verify c client type raw now sv).0
    unfolding dispatch handle_leave_room
    dispatch-IsSound authenticate client type raw now sv h =
        subst Listed (sym (handle_authenticate-SameGame verify client raw now sv).0) h
    dispatch-IsSound create_room client type raw now sv h =
        handle_create_room-IsSound client raw sv h
    dispatch-IsSound join_room client type raw now sv h = handle_join_room-IsSound client raw sv h
    dispatch-IsSound random_join client type raw now sv h =
        handle_random_join-IsSound client raw sv h
    dispatch-IsSound leave_room client type raw now sv h = remove_client-IsSound client sv h
    dispatch-IsSound select_team client type raw now sv h =
        handle_select_team-IsSound client raw sv h
    dispatch-IsSound player_ready client type raw now sv h =
        handle_player_ready-IsSound client raw sv h
    dispatch-IsSound return_to_lobby client type raw now sv h =
        handle_return_to_lobby-IsSound client raw sv h
    dispatch-IsSound player_move client type raw now sv h =
        handle_player_move-IsSound client raw now sv h
    dispatch-IsSound unknown client type raw now sv h = h

    -- A message of any connection to a server whose rooms are all valid, with a player in them and
    -- under their own codes, leaves them so.
    pub handle_message-IsSound :
        (client : ClientRef) (bytes : R.Raw) (now : ℤ) (sv : Server)
        → IsSound sv
        → IsSound (handle_message verify client bytes now sv).0
    unfolding handle_message
    handle_message-IsSound client bytes now sv h = elim (Option-cases (R.envelope bytes)) [
      | inl e ↦ rw (e, handle_message) h
      | inr ((type, raw), e) ↦
          rw (e, handle_message)
            (elim (Bool-cases (is_authenticate (command type))) [
              | inl first ↦ rw first (dispatch-IsSound authenticate client type raw now sv h)
              | inr guarded ↦ rw guarded (elim (Bool-cases (sv.clients client).authenticated) [
                | inl known ↦ rw known (dispatch-IsSound (command type) client type raw now sv h)
                | inr stranger ↦ rw stranger h
              ])
            ])
    ]

  step-IsWellStep : (e : Event) (w : World) → IsWell w → IsWellStep (step e w)
  unfolding step connect set_client
  step-IsWellStep connects w v =
      with_step-IsWell _ (register_new w.hub) v.sound (register_new-IsSafe w.hub v.safe)
  step-IsWellStep (times_out c) w v =
      with_step-IsWell _ w.hub (auth_timeout-IsSound c w.server v.sound) v.safe
  step-IsWellStep (receives c bytes now verify) w v =
      with_step-IsWell _ w.hub (handle_message-IsSound verify c bytes now w.server v.sound) v.safe
  step-IsWellStep (disconnects c) w v =
      with_unregister-IsWellStep c _ w.server (unregister_client-IsSafe c w.hub v.safe) v.sound
  step-IsWellStep (ticks n takes_ticker) w v =
      with_loop-IsWellStep _ w.hub (run_loop-IsStep n takes_ticker w.server v.sound) v.safe
  step-IsWellStep (writes c takes) w v = record {
    sound = v.sound;
    safe = write_round-IsSafe c takes w.hub v.safe;
  }
  step-IsWellStep (pings c takes) w v = record {
    sound = v.sound;
    safe = ping_round-IsSafe c takes w.hub v.safe;
  }

  run-step :
      (e : Event) (es : List Event) (w : World) (x : Option World)
      → step e w ≡ x
      → IsWellStep x
      → ((next : World) → IsWell next → (w' : World) × (run es next ≡ some w') × IsWell w')
      → (w' : World) × (run (e ∷ es) w ≡ some w') × IsWell w'
  unfolding run
  run-step e es w none eq v ih = absurd v
  run-step e es w (some next) eq v ih =
      let (w', ran, well) = ih next v in (w', rw (eq, run) ran, well)

  run_from :
      (es : List Event) (w : World) → IsWell w → (w' : World) × (run es w ≡ some w') × IsWell w'
  unfolding run
  run_from [] w v = (w, refl, v)
  run_from (e ∷ es) w v =
      run-step e es w (step e w) refl (step-IsWellStep e w v) (λ next v. run_from es next v)

  -- From the start of the server any history of new connections, messages, timeouts, lost
  -- connections, steps of game loops and rounds of the pumps runs to its end with no panic of a game
  -- loop or of the hub, whatever the draws, the orders of ranges, the verifier and the account store give; and then
  -- every room is valid, has a player, and stands under its own code, every registered client has an
  -- open channel, and no send buffer holds more than 256 messages.
  pub run-IsSound :
      (es : List Event) (accounts : A.State) (s : R.Seed)
      → (w : World) × (run es (new_world accounts s) ≡ some w) × IsSound w.server × IsSafe w.hub
  unfolding new_world new_server
  run-IsSound es accounts s =
      let (w, ran, v) =
        run_from es (new_world accounts s) (record { sound = tt; safe = new_hub-IsSafe }) in
      (w, ran, v.sound, v.safe)
