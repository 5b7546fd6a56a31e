-- ===== src/Handler/Server.antt =====
-- The state that the handlers of internal/handler share: the rooms, the players of the connections,
-- the clients of internal/ws, the accounts, the game loops, and the random source.
use gyeongdohalsaram_server.Base.{
  Bool, Option, none, some, String, List, [], ◌∷◌, eqb, if◌then◌else◌,
}
use gyeongdohalsaram_server.Runtime.{Runtime}
use gyeongdohalsaram_server.Game.State.{room_state_string}
use gyeongdohalsaram_server.Ws.Message.{
  type_room_info, ClientRef, Outbox, new_message, new_error_message, room_info_response,
}
use gyeongdohalsaram_server.Room.Players.{lookup, insert, erase}
use gyeongdohalsaram_server.Room.Defs.{Room, StopChannel, broadcast_message}
use gyeongdohalsaram_server.Room.Rounds.{Pending}
use gyeongdohalsaram_server.Room.Manager.{Manager}
use gyeongdohalsaram_server.Handler.Accounts.{AccountStore}

-- The fields of a `ws.Client` that the handlers read and write.
pub record Client : Type 0 where
  pub id : String
  pub account_id : String
  pub authenticated : Bool

-- A `gameLoop`: the code of its room, and the round that it is in the middle of. A loop that waits holds
-- on to a channel of the room that has been replaced since its `select` began, if one has.
pub record Loop ⦃R : Runtime⦄ : Type 0 where
  pub code : String
  pub pending : Option Pending
  pub held : Option StopChannel

pub record Server ⦃R : Runtime⦄ ⦃A : AccountStore⦄ : Type 0 where
  pub manager : Manager
  pub player_map : List (String × String)
  pub clients : ClientRef → Client
  pub accounts : A.State
  -- The game loops, in the order in which they were started.
  pub loops : List Loop
  pub seed : R.Seed

-- A handler gives the new state and what it sends.
abbrev pub Step : ⦃R : Runtime⦄ ⦃A : AccountStore⦄ → Type 0
Step = Server × Outbox

module _ ⦃R : Runtime⦄ ⦃A : AccountStore⦄ where
  abbrev pub client_id : ClientRef → Server → String
  client_id client sv = (sv.clients client).id

  unfoldable pub register_player : String → String → Server → Server
  register_player client_id player_id sv = record sv {
    player_map = insert client_id player_id sv.player_map;
  }

  unfoldable pub unregister_player : String → Server → Server
  unregister_player client_id sv = record sv { player_map = erase client_id sv.player_map }

  -- The empty text for a client with no player.
  unfoldable pub get_player_id : String → Server → String
  get_player_id client_id sv = elim (lookup client_id sv.player_map) [ none ↦ "" | some id ↦ id ]

  abbrev pub fails : ClientRef → String → Server → Step
  fails client text sv = (sv, (client, new_error_message text) ∷ [])

  unfoldable pub broadcast_room_info : Room → Outbox
  broadcast_room_info r = broadcast_message r (
      new_message type_room_info
        (room_info_response r.code (room_state_string r.state) r.players r.host_id))

  unfoldable pub set_client : ClientRef → Client → Server → Server
  set_client c new sv = record sv {
    clients = λ other. if eqb other c then new else sv.clients other;
  }
