-- ===== src/Room/Defs.antt =====
-- internal/room/room.go, but for the game loop. A method returns the new room. The order in which a
-- map is ranged over is `range_order` where the result depends on it, and else the order of the list.
use gyeongdohalsaram_server.Base.{
  ℕ, ◌+◌, Bool, true, false, not, ◌&&◌, ◌||◌, Option, none, some, String, List, [], ◌∷◌, map, ℤ,
  pos, ltb, leb, eqb, length, count_if, ◌==◌, string_eq, if◌then◌else◌,
}
use gyeongdohalsaram_server.Runtime.{Runtime}
use gyeongdohalsaram_server.Game.Constants.{min_players, max_players, max_police, game_duration}
use gyeongdohalsaram_server.Game.State.{RoomState, waiting, playing, ended, WinResult, win_string}
use gyeongdohalsaram_server.Game.Player.{
  Role, Player, is_police, is_thief, is_role_none, set_position, reset,
}
use gyeongdohalsaram_server.Game.Spawn.{Position, generate_spawn_positions}
use gyeongdohalsaram_server.Game.MapObjects.{MapObject, generate_map_objects}
use gyeongdohalsaram_server.Game.Item.{ItemManager}
use gyeongdohalsaram_server.Game.Booster.{new_booster_manager}
use gyeongdohalsaram_server.Game.StumbleStone.{new_stone_manager}
use gyeongdohalsaram_server.Ws.Message.{
  type_game_over, Message, ClientRef, Outbox, new_message, game_over_message,
}
use gyeongdohalsaram_server.Room.Players.{
  put_player, delete_player, modify_player, lookup, insert, erase,
}

-- `stopCh`: nil, or a channel that is open or closed.
pub data StopChannel : Type 0 where
  nil_channel open_channel closed_channel : StopChannel

pub record Room ⦃R : Runtime⦄ : Type 0 where
  pub code : String
  pub state : RoomState
  pub players : List Player
  pub host_id : String
  pub clients : List (String × ClientRef)
  pub map_objects : List MapObject
  pub boosters : Option ItemManager
  pub stumble_stones : Option ItemManager
  pub stop_ch : StopChannel
  pub remaining_time : ℤ

module _ ⦃R : Runtime⦄ where
  unfoldable pub new_room : String → Room
  new_room code = record {
    code = code;
    state = waiting;
    players = [];
    host_id = "";
    clients = [];
    map_objects = [];
    boosters = none;
    stumble_stones = none;
    stop_ch = nil_channel;
    remaining_time = pos 0;
  }

  unfoldable pub add_player : Player → ClientRef → Room → Room × Bool
  add_player player client r = if leb max_players (length r.players) then (r, false) else (
    let players = put_player player r.players in
        record r {
          players = players;
          clients = insert player.id client r.clients;
          host_id = if eqb (length players) 1 then player.id else r.host_id;
        },
    true,
  )

  -- The host after `HostID` has left: the first player of a range over the map.
  unfoldable pub next_host : List Player → String → String
  next_host [] host_id = host_id
  next_host (p ∷ ps) host_id = p.id

  unfoldable pub remove_player : String → Room → R.Seed → Room × R.Seed
  remove_player player_id r s =
      let players = delete_player player_id r.players in
      let (ordered, s') = R.range_order s players in
      (
        record r {
          players = players;
          clients = erase player_id r.clients;
          host_id =
              if r.host_id == player_id && ltb 0 (length players)
              then next_host ordered r.host_id
              else r.host_id;
        },
        s',
      )

  abbrev pub police_count : List Player → ℕ
  police_count = count_if (λ p. is_police p.role)

  unfoldable pub can_select_role : Role → Room → Bool
  can_select_role role r = if is_police role then ltb (police_count r.players) max_police else true

  -- The loop of `allReady` over the two counters, with its early return.
  unfoldable pub all_ready_loop : List Player → ℕ → ℕ → Bool
  all_ready_loop [] police thieves = leb 1 police && leb 1 thieves
  all_ready_loop (p ∷ ps) police thieves =
      let rest =
        all_ready_loop ps (if is_police p.role then police + 1 else police)
          (if is_thief p.role then thieves + 1 else thieves) in
      if not p.ready || is_role_none p.role then false else rest

  unfoldable pub all_ready : Room → Bool
  all_ready r = if ltb (length r.players) min_players then false else all_ready_loop r.players 0 0

  unfoldable pub set_player_ready : String → Bool → Room → Room × Bool
  set_player_ready player_id ready r =
      let r' = record r {
        players = modify_player player_id (λ p. record p { ready = ready }) r.players;
      } in
      (r', all_ready r')

  unfoldable pub toggle_player_ready : String → Room → Room × Bool
  toggle_player_ready player_id r =
      let r' = record r {
        players = modify_player player_id (λ p. record p { ready = not p.ready }) r.players;
      } in
      (r', all_ready r')

  unfoldable pub broadcast_message : Room → Message → Outbox
  broadcast_message r msg = map (λ (_, client). (client, msg)) r.clients

  unfoldable pub send_to_player : String → Room → Message → Outbox
  send_to_player player_id r msg = elim (lookup player_id r.clients) [
    | none ↦ []
    | some client ↦ (client, msg) ∷ []
  ]

  abbrev player_count : Room → ℕ
  player_count r = length r.players

  -- `none` is nil.
  abbrev get_client : String → Room → Option ClientRef
  get_client player_id r = lookup player_id r.clients

  abbrev get_player_list : Room → R.Seed → List Player × R.Seed
  get_player_list r s = R.range_order s r.players

  unfoldable pub is_empty : Room → Bool
  is_empty r = eqb (player_count r) 0

  unfoldable pub reset_room : Room → Room
  reset_room r = record r { state = waiting; players = map reset r.players }

  -- The loop over the map of positions.
  unfoldable pub set_positions : List (String × Position) → List Player → List Player
  set_positions [] ps = ps
  set_positions ((id, spot) ∷ rest) ps =
      set_positions rest (modify_player id (set_position spot.x spot.y) ps)

  unfoldable pub prepare_game : Room → R.Seed → Room × R.Seed
  prepare_game r s =
      let (players, s₁) = R.range_order s r.players in
      let (positions, s₂) = generate_spawn_positions players s₁ in
      let (objects, s₃) = generate_map_objects s₂ in
      let (boosters, s₄) = new_booster_manager objects s₃ in
      let (stones, s₅) = new_stone_manager objects s₄ in
      (
        record r {
          state = playing;
          remaining_time = game_duration;
          stop_ch = open_channel;
          players = set_positions positions r.players;
          map_objects = objects;
          boosters = some boosters;
          stumble_stones = some stones;
        },
        s₅,
      )

  -- `none` is the panic of closing a nil channel.
  unfoldable pub close_channel : StopChannel → Option StopChannel
  close_channel nil_channel = none
  close_channel open_channel = some closed_channel
  close_channel closed_channel = some closed_channel

  abbrev pub is_playing : RoomState → Bool
  is_playing playing = true
  is_playing _ = false

  unfoldable pub stop_game : WinResult → Room → Option (Room × Outbox)
  stop_game result r =
      if not (is_playing r.state) then some (r, []) else elim (close_channel r.stop_ch) [
        | none ↦ none
        | some ch ↦
            let r' = record r { state = ended; stop_ch = ch } in
            some (
              r',
              broadcast_message r'
                  (new_message type_game_over (game_over_message (win_string result))),
            )
      ]
