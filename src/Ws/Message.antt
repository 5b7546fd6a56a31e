-- ===== src/Ws/Message.antt =====
-- internal/ws/message.go. The data of a message is the Go value that `json.Marshal` is given.
use gyeongdohalsaram_server.Base.{ℕ, Bool, String, List}
use gyeongdohalsaram_server.Runtime.{Runtime}
use gyeongdohalsaram_server.Game.Player.{Player}
use gyeongdohalsaram_server.Game.MapObjects.{MapObject}
use gyeongdohalsaram_server.Game.Item.{Item}

-- The types of messages.
abbrev pub type_create_room : String
type_create_room = "create_room"

abbrev pub type_join_room : String
type_join_room = "join_room"

abbrev pub type_leave_room : String
type_leave_room = "leave_room"

abbrev pub type_select_team : String
type_select_team = "select_team"

abbrev pub type_player_ready : String
type_player_ready = "player_ready"

abbrev pub type_return_to_lobby : String
type_return_to_lobby = "return_to_lobby"

abbrev pub type_random_join : String
type_random_join = "random_join"

abbrev pub type_player_move : String
type_player_move = "player_move"

abbrev pub type_game_state : String
type_game_state = "game_state"

abbrev pub type_game_over : String
type_game_over = "game_over"

abbrev pub type_game_start : String
type_game_start = "game_start"

abbrev pub type_authenticate : String
type_authenticate = "authenticate"

abbrev pub type_auth_result : String
type_auth_result = "auth_result"

abbrev pub type_error : String
type_error = "error"

abbrev pub type_room_info : String
type_room_info = "room_info"

-- `playerStateEntry` of internal/room/room.go.
pub record PlayerStateEntry ⦃R : Runtime⦄ : Type 0 where
  pub id : String
  pub x : R.Float
  pub y : R.Float
  pub state : String
  pub role : String
  pub arrest_gauge : R.Float
  pub rescue_gauge : R.Float
  pub boosted : Bool
  pub slowed : Bool

pub data Payload ⦃R : Runtime⦄ : Type 0 where
  error_message : String → Payload
  game_over_message : String → Payload
  game_state_message : R.Float → List PlayerStateEntry → List Item → List Item → Payload
  create_room_response : String → String → Payload
  game_start_response : List Player → List MapObject → Payload
  room_info_response : String → String → List Player → String → Payload
  player_move_response : String → R.Float → R.Float → Payload
  auth_success_response : String → String → Payload
  auth_failure_response : String → Payload

pub record Message ⦃R : Runtime⦄ : Type 0 where
  pub type : String
  pub payload : Payload

module _ ⦃R : Runtime⦄ where
  abbrev pub new_message : String → Payload → Message
  new_message type payload = record { type = type; payload = payload }

  abbrev pub new_error_message : String → Message
  new_error_message msg = record { type = type_error; payload = error_message msg }

-- A `*ws.Client`: the number is the address of the connection.
abbrev pub ClientRef : Type 0
ClientRef = ℕ

-- What is sent, in order: each message with its client.
abbrev pub Outbox : ⦃R : Runtime⦄ → Type 0
Outbox = List (ClientRef × Message)
