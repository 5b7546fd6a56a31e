-- ===== src/Handler/Events.antt =====
-- What happens to the server, one event at a time: `Hub.Run` of internal/ws/hub.go calls the handlers
-- of internal/handler/router.go in turn, the pumps of the connections write, and the game loops work.
use gyeongdohalsaram_server.Base.{ℕ, Bool, false, Option, none, some, List, [], ◌∷◌, ℤ}
use gyeongdohalsaram_server.Runtime.{Runtime}
use gyeongdohalsaram_server.Ws.Message.{ClientRef, Message, Outbox}
use gyeongdohalsaram_server.Ws.Hub.{
  Hub, new_hub, register_new, unregister_client, send_message, client_count, set_channel,
  write_round, ping_round,
}
use gyeongdohalsaram_server.Room.Manager.{empty_manager}
use gyeongdohalsaram_server.Handler.Accounts.{AccountStore}
use gyeongdohalsaram_server.Handler.Server.{Server, Step}
use gyeongdohalsaram_server.Handler.Lobby.{handle_disconnect}
use gyeongdohalsaram_server.Handler.Connections.{connect, auth_timeout}
use gyeongdohalsaram_server.Handler.Rounds.{run_loop}
use gyeongdohalsaram_server.GameCenter.{Credential}
use gyeongdohalsaram_server.Handler.Router.{handle_message}

module _ ⦃R : Runtime⦄ where
  -- Each message is put into the buffer of its client.
  unfoldable pub deliver : Outbox → Hub Message → Hub Message
  deliver [] h = h
  deliver ((c, msg) ∷ out) h = deliver out (send_message c msg h)

module _ ⦃R : Runtime⦄ ⦃A : AccountStore⦄ where
  pub record World : Type 0 where
    pub server : Server
    pub hub : Hub Message

  -- A message comes with the verdict on the credential that may be in it. It may still be handled after its connection has been lost, since the channel `Incoming`
  -- has a buffer. A loop is named by its number among those that run.
  pub data Event : Type 0 where
    connects : Event
    times_out : ClientRef → Event
    receives : ClientRef → R.Raw → ℤ → (Credential → Bool) → Event
    disconnects : ClientRef → Event
    ticks : ℕ → Bool → Event
    writes : ClientRef → Bool → Event
    pings : ClientRef → Bool → Event

  -- The server when it starts.
  unfoldable pub new_server : A.State → R.Seed → Server
  new_server accounts seed = record {
    manager = empty_manager;
    player_map = [];
    clients = λ _. record { id = ""; account_id = ""; authenticated = false };
    accounts = accounts;
    loops = [];
    seed = seed;
  }

  unfoldable pub new_world : A.State → R.Seed → World
  new_world accounts seed = record { server = new_server accounts seed; hub = new_hub }

  abbrev pub with_step : Step → Hub Message → World
  with_step (sv, out) h = record { server = sv; hub = deliver out h }

  abbrev pub with_loop : Option Step → Hub Message → Option World
  with_loop none h = none
  with_loop (some x) h = some (with_step x h)

  -- The case `Unregister` of the hub, with the handler of `OnDisconnect`.
  abbrev pub with_unregister : ClientRef → Option (Hub Message) → Server → Option World
  with_unregister c none sv = none
  with_unregister c (some h) sv = some (with_step (handle_disconnect c sv) h)

  -- `none` is a panic, of a game loop or of the hub.
  unfoldable pub step : Event → World → Option World
  step connects w =
      some (with_step (connect w.hub.made (client_count w.hub) w.server) (register_new w.hub))
  step (times_out c) w = some (with_step (auth_timeout c w.server) w.hub)
  step (receives c bytes now verify) w =
      some (with_step (handle_message verify c bytes now w.server) w.hub)
  step (disconnects c) w = with_unregister c (unregister_client c w.hub) w.server
  step (ticks n takes_ticker) w = with_loop (run_loop n takes_ticker w.server) w.hub
  step (writes c takes) w =
      some (record w { hub = set_channel c (write_round takes (w.hub.channels c)) w.hub })
  step (pings c takes) w =
      some (record w { hub = set_channel c (ping_round takes (w.hub.channels c)) w.hub })

  -- The state after a history.
  unfoldable pub run : List Event → World → Option World
  run [] w = some w
  run (e ∷ es) w = elim (step e w) [ none ↦ none | some next ↦ run es next ]
