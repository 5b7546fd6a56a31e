-- ===== src/Handler/Gameplay.antt =====
-- internal/handler/gameplay.go. The time of the call is an argument, in nanoseconds.
use gyeongdohalsaram_server.Base.{
  not, Option, none, some, String, [], ◌∷◌, ℤ, ◌-ℤ◌, ◌==◌, string_eq, if◌then◌else◌,
}
use gyeongdohalsaram_server.Runtime.{Runtime}
use gyeongdohalsaram_server.Game.Constants.{move_speed}
use gyeongdohalsaram_server.Game.Player.{Player}
use gyeongdohalsaram_server.Game.Collision.{clamp_position, distance}
use gyeongdohalsaram_server.Ws.Message.{
  type_player_move, ClientRef, new_message, player_move_response,
}
use gyeongdohalsaram_server.Room.Players.{find_player, modify_player}
use gyeongdohalsaram_server.Room.Defs.{Room, broadcast_message, is_playing}
use gyeongdohalsaram_server.Room.Manager.{store_room}
use gyeongdohalsaram_server.Handler.Accounts.{AccountStore}
use gyeongdohalsaram_server.Handler.Server.{Server, Step, client_id, get_player_id, fails}
use gyeongdohalsaram_server.Handler.Lobby.{own_room, in_room}

module _ ⦃R : Runtime⦄ where
  unfoldable pub elapsed_since : Option ℤ → ℤ → R.Float
  elapsed_since none now = R.lit 5 100
  elapsed_since (some last) now = R.seconds (now -ℤ last)

  unfoldable pub player_speed : Player → R.Float
  player_speed p =
      let base = R.lit move_speed 1 in
      let boosted = if p.boosted then R.mul base (R.lit 13 10) else base in
      if p.slowed then R.mul boosted (R.lit 7 10) else boosted

  -- How far the player may have come by now, with half as much again for the network.
  unfoldable pub max_distance : Player → ℤ → R.Float
  max_distance p now =
      R.mul (R.mul (player_speed p) (elapsed_since p.last_move_time now)) (R.lit 15 10)

  abbrev pub moved : R.Float → R.Float → ℤ → Player → Player
  moved x y now p = record p { x = x; y = y; last_move_time = some now }

module _ ⦃R : Runtime⦄ ⦃A : AccountStore⦄ where
  -- The part of the handler behind the lookup of the player.
  unfoldable pub move_player : ClientRef → R.Float → R.Float → ℤ → Player → Room → Server → Step
  move_player client x y now p r sv =
      if R.lt (max_distance p now) (distance p.x p.y x y)
      then fails client "이동 속도가 너무 빠릅니다" sv
      else (let r' = record r { players = modify_player p.id (moved x y now) r.players } in
          (
            record sv { manager = store_room r' sv.manager },
            broadcast_message r' (new_message type_player_move (player_move_response p.id x y)),
          ))

  unfoldable pub move_in_room : ClientRef → R.Float → R.Float → ℤ → String → Room → Server → Step
  move_in_room client x y now player_id r sv =
      if not (is_playing r.state)
      then fails client "게임이 진행 중이 아닙니다" sv
      else elim (find_player player_id r.players) [
        | none ↦ (sv, [])
        | some p ↦ move_player client x y now p r sv
      ]

  unfoldable pub handle_player_move : ClientRef → R.Raw → ℤ → Server → Step
  handle_player_move client raw now sv = elim (R.number_fields ("x" ∷ "y" ∷ []) raw) [
    | none ↦ fails client "잘못된 이동 데이터입니다" sv
    | some field ↦
        let (x, y) = clamp_position (field "x") (field "y") in
        let player_id = get_player_id (client_id client sv) sv in
        if player_id == ""
        then fails client "방에 참가하고 있지 않습니다" sv
        else in_room client (own_room client sv) (move_in_room client x y now player_id)
  ]
