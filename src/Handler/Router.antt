-- ===== src/Handler/Router.antt =====
-- internal/handler/router.go.
use gyeongdohalsaram_server.Base.{
  Bool, true, false, not, none, some, String, ◌<>◌, ℤ, ◌==◌, string_eq, if◌then◌else◌,
}
use gyeongdohalsaram_server.Runtime.{Runtime}
use gyeongdohalsaram_server.Ws.Message.{
  type_create_room, type_join_room, type_leave_room, type_select_team, type_player_ready,
  type_return_to_lobby, type_random_join, type_player_move, type_authenticate, ClientRef,
}
use gyeongdohalsaram_server.Handler.Accounts.{AccountStore}
use gyeongdohalsaram_server.Handler.Server.{Server, Step, fails}
use gyeongdohalsaram_server.Handler.Lobby.{
  handle_create_room, handle_join_room, handle_random_join, handle_leave_room, handle_select_team,
  handle_player_ready, handle_return_to_lobby,
}
use gyeongdohalsaram_server.Handler.Gameplay.{handle_player_move}
use gyeongdohalsaram_server.GameCenter.{Credential}
use gyeongdohalsaram_server.Handler.Auth.{handle_authenticate}

-- What the text of a message's type calls for.
pub data Command : Type 0 where
  authenticate create_room join_room random_join leave_room select_team player_ready return_to_lobby
        player_move unknown :
      Command

unfoldable pub command : String → Command
command type =
    if type == type_authenticate
    then authenticate
    else if type == type_create_room
    then create_room
    else if type == type_join_room
    then join_room
    else if type == type_random_join
    then random_join
    else if type == type_leave_room
    then leave_room
    else if type == type_select_team
    then select_team
    else if type == type_player_ready
    then player_ready
    else if type == type_return_to_lobby
    then return_to_lobby
    else if type == type_player_move
    then player_move
    else unknown

abbrev pub is_authenticate : Command → Bool
is_authenticate authenticate = true
is_authenticate _ = false

module _ ⦃R : Runtime⦄ ⦃A : AccountStore⦄ (verify : Credential → Bool) where
  -- The handler of a command. The guard stands in front of every one but `authenticate`.
  unfoldable pub dispatch : Command → ClientRef → String → R.Raw → ℤ → Server → Step
  dispatch authenticate client type raw now sv = handle_authenticate verify client raw now sv
  dispatch create_room client type raw now sv = handle_create_room client raw sv
  dispatch join_room client type raw now sv = handle_join_room client raw sv
  dispatch random_join client type raw now sv = handle_random_join client raw sv
  dispatch leave_room client type raw now sv = handle_leave_room client raw sv
  dispatch select_team client type raw now sv = handle_select_team client raw sv
  dispatch player_ready client type raw now sv = handle_player_ready client raw sv
  dispatch return_to_lobby client type raw now sv = handle_return_to_lobby client raw sv
  dispatch player_move client type raw now sv = handle_player_move client raw now sv
  dispatch unknown client type raw now sv = fails client ("알 수 없는 메시지 타입: " <> type) sv

  unfoldable pub handle_message : ClientRef → R.Raw → ℤ → Server → Step
  handle_message client bytes now sv = elim (R.envelope bytes) [
    | none ↦ fails client "잘못된 메시지 형식입니다" sv
    | some (type, raw) ↦
        if is_authenticate (command type)
        then dispatch authenticate client type raw now sv
        else if not (sv.clients client).authenticated
        then fails client "인증이 필요합니다" sv
        else dispatch (command type) client type raw now sv
  ]
