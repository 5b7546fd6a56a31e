-- ===== src/Handler/Starting.antt =====
-- What `HandlePlayerReady` of internal/handler/lobby.go does, and when it starts the game.
use gyeongdohalsaram_server.Base.{
  ◌≡◌, refl, ◌≢◌, ◌⊎◌, inl, inr, Bool-cases, true, false, not, none, some, String, [], ◌∷◌, ◌++◌,
  Zip,
}
use gyeongdohalsaram_server.Runtime.{Runtime}
use gyeongdohalsaram_server.Game.Constants.{game_duration}
use gyeongdohalsaram_server.Game.State.{playing}
use gyeongdohalsaram_server.Game.Player.{Player}
use gyeongdohalsaram_server.Ws.Message.{new_message, type_game_start, game_start_response}
use gyeongdohalsaram_server.Room.Players.{find_player}
use gyeongdohalsaram_server.Room.Players.Lookup.{find-modify_self, find-modify_other}
use gyeongdohalsaram_server.Room.Defs.{
  Room, open_channel, toggle_player_ready, all_ready, prepare_game, broadcast_message,
}
use gyeongdohalsaram_server.Room.Placing.{IsPlaced, prepare_game-IsPlaced}
use gyeongdohalsaram_server.Room.Invariant.{SameSeat, set_positions-seats}
use gyeongdohalsaram_server.Room.Manager.{get_room, store_room}
use gyeongdohalsaram_server.Room.Manager.Search.{get_room-store_room}
use gyeongdohalsaram_server.Handler.Accounts.{AccountStore}
use gyeongdohalsaram_server.Handler.Server.{Server, Step, broadcast_room_info}
use gyeongdohalsaram_server.Handler.Lobby.{hold_loops, toggle_ready, start_game}

module _ ⦃R : Runtime⦄ where
  -- The room with one player's readiness turned over.
  pub record IsToggled (k : String) (p : Player) (r r' : Room) : Type 0 where
    pub turned : find_player k r'.players ≡ some (record p { ready = not p.ready })
    pub others : (j : String) → j ≢ k → find_player j r'.players ≡ find_player j r.players
    pub same : (r'.code ≡ r.code) × (r'.state ≡ r.state) × (r'.clients ≡ r.clients)

  toggle_player_ready-IsToggled :
      (k : String) (p : Player) (r : Room)
      → find_player k r.players ≡ some p
      → IsToggled k p r (toggle_player_ready k r).0
  unfolding toggle_player_ready
  toggle_player_ready-IsToggled k p r there = record {
    turned = find-modify_self k _ r.players p (λ q. refl) there;
    others = λ j n. find-modify_other j k _ r.players (λ q. refl) n;
    same = (refl, refl, refl);
  }

  -- The room of a game that has just begun, with the players of another room, each at a spawn position
  -- and otherwise as before.
  pub record HasBegun (r r' : Room) : Type 0 where
    pub on : r'.state ≡ playing
    pub time : r'.remaining_time ≡ game_duration
    pub armed : r'.stop_ch ≡ open_channel
    pub seats : Zip SameSeat r.players r'.players
    pub placed : IsPlaced r r'
    pub same : (r'.code ≡ r.code) × (r'.clients ≡ r.clients) × (r'.host_id ≡ r.host_id)

  prepare_game-HasBegun : (r : Room) (s : R.Seed) → HasBegun r (prepare_game r s).0
  unfolding prepare_game
  prepare_game-HasBegun r s = record {
    on = refl;
    time = refl;
    armed = refl;
    seats = set_positions-seats _ r.players;
    placed = prepare_game-IsPlaced r s;
    same = (refl, refl, refl);
  }

module _ ⦃R : Runtime⦄ ⦃A : AccountStore⦄ where
  -- The room waits on, and all are told; or all are ready now, and the game begins, with a game loop
  -- behind those that run, and everybody is told of both.
  abbrev pub IsStarted : Room → Server → Step → Type 0
  IsStarted r sv (sv', out) =
      ((all_ready r ≡ false)
        × (get_room r.code sv'.manager ≡ some r)
        × (sv'.loops ≡ sv.loops)
        × (out ≡ broadcast_room_info r))
      ⊎ ((all_ready r ≡ true)
          × ((r' : Room) × (get_room r.code sv'.manager ≡ some r')
              × HasBegun r r'
              × (sv'.loops
                  ≡ hold_loops r.code r.stop_ch sv.loops
                    ++ (record { code = r.code; pending = none; held = none } ∷ []))
              × (out
                  ≡ broadcast_room_info r
                    ++ broadcast_message r' (
                        new_message type_game_start
                          (game_start_response r'.players r'.map_objects)))))

  toggled-all_ready :
      (k : String) (r : Room) → (toggle_player_ready k r).1 ≡ all_ready (toggle_player_ready k r).0
  unfolding toggle_player_ready
  toggled-all_ready k r = refl

  -- For a player in a room, `HandlePlayerReady` turns over this player's readiness and nobody else's, and
  -- tells everybody in the room. Exactly if the players are then all ready, as `allReady` has it, the
  -- game begins: the room plays, with 180 seconds left and an open channel, each player stands at one of
  -- the positions that `GenerateSpawnPositions` gave for the players in some order and is otherwise as
  -- before, a loop of it is started behind those that run, and everybody is told of the players and the
  -- map.
  pub toggle_ready-IsStarted :
      (k : String) (p : Player) (r : Room) (sv : Server)
      → find_player k r.players ≡ some p
      → (r' : Room) × IsToggled k p r r' × IsStarted r' sv (toggle_ready k r sv)
  unfolding toggle_ready start_game
  toggle_ready-IsStarted k p r sv there =
      let r' = (toggle_player_ready k r).0 in
      let sv' : Server = record sv { manager = store_room r' sv.manager } in
      (
        r',
        toggle_player_ready-IsToggled k p r there,
        elim (Bool-cases (all_ready r')) [
          | inl ready ↦
              let begun = prepare_game-HasBegun r' sv.seed in
              rw (toggled-all_ready k r, ready, toggle_ready)
                (inr (
                  refl,
                  (
                    (prepare_game r' sv.seed).0,
                    get_room-store_room _ r'.code sv'.manager begun.same.0,
                    begun,
                    rw begun.same.0 refl,
                    refl,
                  ),
                ))
          | inr waits ↦
              rw (toggled-all_ready k r, waits, toggle_ready)
                (inl (refl, get_room-store_room r' r'.code sv.manager refl, refl, refl))
        ],
      )
