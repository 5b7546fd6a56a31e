-- ===== src/Tests/Servers.antt =====
-- The theorems on the room manager and the handlers, at concrete inputs.
use text.Mathlib.TextEquality.{eq_iff}
use gyeongdohalsaram_server.Base.{
  ◌≢◌, arith, ◌≡◌, refl, ◌⊎◌, Bool, true, false, Option, none, some, String, List, [], ◌∷◌, ltb,
  pos, ◌==◌, string_eq, if◌then◌else◌,
}
use gyeongdohalsaram_server.Game.Player.{Role, police}
use gyeongdohalsaram_server.Game.Collision.{distance}
use gyeongdohalsaram_server.Room.Players.{find_player, lookup}
use gyeongdohalsaram_server.Room.Defs.{Room}
use gyeongdohalsaram_server.Room.Codes.{contains_code, generate_code}
use gyeongdohalsaram_server.Room.Codes.Fresh.{IsCode, AllTaken, generate_code-IsFresh}
use gyeongdohalsaram_server.Room.Manager.{
  Manager, create_room, get_room, find_available_room, find_room_by_player_id, first_with_player,
}
use gyeongdohalsaram_server.Room.Manager.Choice.{
  IsChosen, IsRoomOf, find_available_room-IsChosen, find_room_by_player_id-IsRoomOf,
}
use gyeongdohalsaram_server.Handler.Accounts.{Account, AccountStore}
use gyeongdohalsaram_server.Handler.Server.{Server, client_id, fails, get_player_id}
use gyeongdohalsaram_server.Handler.Lobby.{
  create_for, handle_join_room, own_room, remove_client, toggle_ready, selected_role,
  handle_select_team, handle_return_to_lobby,
}
use gyeongdohalsaram_server.Handler.Gameplay.{max_distance, move_in_room}
use gyeongdohalsaram_server.GameCenter.{Credential}
use gyeongdohalsaram_server.Handler.Router.{handle_message}
use gyeongdohalsaram_server.Handler.Events.{new_server}
use gyeongdohalsaram_server.Handler.Invariant.{IsSound}
use gyeongdohalsaram_server.Handler.Leaving.{IsLeft, remove_client-IsLeft}
use gyeongdohalsaram_server.Handler.Returning.{IsBack, handle_return_to_lobby-IsBack}
use gyeongdohalsaram_server.Handler.Teams.{IsSelected, handle_select_team-IsSelected}
use gyeongdohalsaram_server.Handler.Starting.{IsToggled, IsStarted, toggle_ready-IsStarted}
use gyeongdohalsaram_server.Handler.Joining.{IsIncomplete, IsJoined, handle_join_room-IsJoined}
use gyeongdohalsaram_server.Handler.Guard.{SameGame, handle_message-SameGame}
use gyeongdohalsaram_server.Handler.Effects.{IsMoved, move_in_room-IsMoved, create_for-Hosts}
use gyeongdohalsaram_server.Tests.Exact.{exact}
use gyeongdohalsaram_server.Tests.Sample.{ann, bob, lobby, lobby-IsValid, last_moment}

-- Accounts in a list.
pub find_account : String → List Account → Option Account
find_account id [] = none
find_account id (a ∷ accs) = elim a.game_center_id [
  | none ↦ find_account id accs
  | some other ↦ if other == id then some a else find_account id accs
]

instance abbrev pub listed : AccountStore
listed = record {
  State = List Account;
  find_by_game_center_id = λ id accs. some (find_account id accs);
  find_by_id = λ id accs. some none;
  create = λ a accs. some (a ∷ accs);
  update_last_login = λ id now accs. some accs;
  update_nickname = λ id name accs. some accs;
}

-- Every signed credential is accepted.
abbrev pub signed : Credential → Bool
signed cred = if cred.signature == "" then false else true

abbrev manager : Manager
manager = record { rooms = ("ABCD", lobby) ∷ [] }

-- The clients of the lobby, both authenticated.
abbrev pub server : Server
server = record {
  manager = manager;
  player_map = ("client-1", "ann") ∷ ("client-2", "bob") ∷ [];
  clients = λ c. record {
    id = if ltb c 2 then "client-1" else "client-2";
    account_id = "7";
    authenticated = true;
  };
  accounts = [];
  loops = [];
  seed = 7;
}

server-IsSound : IsSound server
server-IsSound = ((refl, (lobby-IsValid, omega arith)), tt)

abbrev pub guest_login : List (String × String)
guest_login = ("type", "authenticate") ∷ ("method", "guest") ∷ ("nickname", "eve") ∷ []

abbrev pub new_room_request : List (String × String)
new_room_request = ("type", "create_room") ∷ ("nickname", "eve") ∷ []

abbrev pub ready_request : List (String × String)
ready_request = ("type", "player_ready") ∷ []

handle_message-SameGame_example :
    SameGame 3
      (new_server [] 7)
      (handle_message signed 3 new_room_request (pos 2) (new_server [] 7)).0
unfolding new_server
handle_message-SameGame_example =
    handle_message-SameGame signed 3 new_room_request (pos 2) (new_server [] 7) refl

find_available_room-IsChosen_example :
    IsChosen police manager (find_available_room police manager 7).0
find_available_room-IsChosen_example = find_available_room-IsChosen police manager 7

find_room_by_player_id-IsRoomOf_example :
    IsRoomOf "bob" manager (find_room_by_player_id "bob" manager 7).0
find_room_by_player_id-IsRoomOf_example = find_room_by_player_id-IsRoomOf "bob" manager 7

generate_code-IsFresh_example :
    IsCode 4 (generate_code ("ABCD" ∷ []) 7).0
    × ((contains_code (generate_code ("ABCD" ∷ []) 7).0 ("ABCD" ∷ []) ≡ false)
        ⊎ AllTaken 100 ("ABCD" ∷ []) 7)
generate_code-IsFresh_example = generate_code-IsFresh ("ABCD" ∷ []) 7

ann_sits : find_player "ann" last_moment.players ≡ some ann
unfolding find_player string_eq
ann_sits = refl

move_in_room-IsMoved_example :
    if exact.lt (max_distance ann (pos 9)) (distance ann.x ann.y (1001, 1) (1002, 1))
    then move_in_room 1 (1001, 1) (1002, 1) (pos 9) "ann" last_moment server
      ≡ fails 1 "이동 속도가 너무 빠릅니다" server
    else IsMoved
        (1001, 1)
        (1002, 1)
        (pos 9)
        ann
        last_moment
        server
        (move_in_room 1 (1001, 1) (1002, 1) (pos 9) "ann" last_moment server).0
move_in_room-IsMoved_example =
    move_in_room-IsMoved 1 (1001, 1) (1002, 1) (pos 9) "ann" ann last_moment server refl ann_sits

create_for-Hosts_example :
    (r : Room) × (p : _) × (get_room
        (create_room manager 7).0.code
        (create_for 1 "eve" server).0.manager
      ≡ some r)
    × (r.players ≡ p ∷ [])
    × (r.host_id ≡ p.id)
    × (p.nickname ≡ "eve")
    × (lookup p.id r.clients ≡ some 1)
    × (get_player_id (client_id 1 server) (create_for 1 "eve" server).0 ≡ p.id)
create_for-Hosts_example = create_for-Hosts 1 "eve" server

bob_known : ◌≢◌ {A = String} "bob" ""
bob_known = ground (arith, eq_iff "bob" "")

bob_sits : own_room 2 server ≡ (some lobby, (own_room 2 server).1)
unfolding own_room find_room_by_player_id first_with_player find_player get_player_id lookup
    string_eq
bob_sits = refl

remove_client-IsLeft_example :
    (get_player_id (client_id 2 server) (remove_client 2 server).0 ≡ "")
    × IsLeft "bob" lobby server.loops (remove_client 2 server)
unfolding get_player_id lookup string_eq
remove_client-IsLeft_example =
    remove_client-IsLeft 2 server (own_room 2 server).1 "bob" lobby refl bob_known bob_sits

abbrev join_request : List (String × String)
join_request = ("type", "join_room") ∷ ("code", "ABCD") ∷ ("nickname", "cat") ∷ []

handle_join_room-IsJoined_example :
    (IsIncomplete join_request
      × (handle_join_room 4 join_request server ≡ fails 4 "방 코드와 닉네임을 입력해주세요" server))
    ⊎ ((field : String → String) × (exact.text_fields ("code" ∷ "nickname" ∷ []) join_request
          ≡ some field)
        × (field "code" ≢ "")
        × (field "nickname" ≢ "")
        × (((get_room (field "code") manager ≡ none)
              × (handle_join_room 4 join_request server ≡ fails 4 "방을 찾을 수 없습니다" server))
            ⊎ ((r : Room) × (get_room (field "code") manager ≡ some r)
                × IsJoined 4 (field "nickname") r server (handle_join_room 4 join_request server))))
handle_join_room-IsJoined_example = handle_join_room-IsJoined 4 join_request server

toggle_ready-IsStarted_example :
    (r' : Room) × IsToggled "ann" ann last_moment r'
    × IsStarted r' server (toggle_ready "ann" last_moment server)
toggle_ready-IsStarted_example = toggle_ready-IsStarted "ann" ann last_moment server ann_sits

abbrev team_request : List (String × String)
team_request = ("type", "select_team") ∷ ("role", "police") ∷ []

bob_seated : find_player (get_player_id (client_id 2 server) server) lobby.players ≡ some bob
unfolding find_player get_player_id lookup string_eq
bob_seated = refl

handle_select_team-IsSelected_example :
    ((exact.text_fields ("role" ∷ []) team_request ≡ none)
      × (handle_select_team 2 team_request server ≡ fails 2 "잘못된 팀 선택입니다" server))
    ⊎ ((field : String → String) × (exact.text_fields ("role" ∷ []) team_request ≡ some field)
        × (((selected_role (field "role") ≡ none)
              × (handle_select_team 2 team_request server
                  ≡ fails 2 "잘못된 역할입니다" (own_room 2 server).1))
            ⊎ ((role : Role) × (selected_role (field "role") ≡ some role)
                × IsSelected 2
                    (get_player_id (client_id 2 server) server)
                    bob
                    role
                    lobby
                    (own_room 2 server).1
                    (handle_select_team 2 team_request server))))
handle_select_team-IsSelected_example =
    handle_select_team-IsSelected 2 team_request bob lobby server (own_room 2 server).1 bob_sits
      bob_seated

handle_return_to_lobby-IsBack_example :
    IsBack 2 lobby (own_room 2 server).1 (handle_return_to_lobby 2 ready_request server)
handle_return_to_lobby-IsBack_example =
    handle_return_to_lobby-IsBack 2 ready_request lobby server (own_room 2 server).1 bob_sits
