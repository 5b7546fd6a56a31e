-- ===== src/Handler/Lobby.antt =====
-- internal/handler/lobby.go.
use gyeongdohalsaram_server.Base.{
  Bool, true, false, not, ◌||◌, ◌&&◌, map, Option, none, some, String, List, [], ◌∷◌, ◌++◌, ◌==◌,
  string_eq, if◌then◌else◌,
}
use gyeongdohalsaram_server.Runtime.{Runtime}
use gyeongdohalsaram_server.Game.State.{RoomState, ended}
use gyeongdohalsaram_server.Game.Player.{Role, role_none, police, thief, new_player, set_role}
use gyeongdohalsaram_server.Ws.Message.{
  type_create_room, type_join_room, type_game_start, ClientRef, Outbox, new_message,
  create_room_response, game_start_response,
}
use gyeongdohalsaram_server.Room.Players.{modify_player}
use gyeongdohalsaram_server.Room.Defs.{
  Room, StopChannel, add_player, remove_player, can_select_role, toggle_player_ready, reset_room,
  prepare_game, broadcast_message, is_empty, is_playing,
}
use gyeongdohalsaram_server.Room.Manager.{
  create_room, get_room, remove_room, store_room, find_available_room, find_room_by_player_id,
}
use gyeongdohalsaram_server.Handler.Accounts.{AccountStore}
use gyeongdohalsaram_server.Handler.Server.{
  Loop, Server, Step, client_id, register_player, unregister_player, get_player_id, fails,
  broadcast_room_info,
}

module _ ⦃R : Runtime⦄ where
  -- A loop holds a pointer to its room, and finds it by the code here. So when the code goes to a new
  -- room, the loops of an earlier one, which no handler can find any more, are left out.
  unfoldable pub drop_loops : String → List Loop → List Loop
  drop_loops code [] = []
  drop_loops code (l ∷ ls) =
      let rest = drop_loops code ls in if l.code == code then rest else l ∷ rest

  abbrev pub has_room_channel : Loop → Bool
  has_room_channel l = elim l.pending [
    | some pending ↦ false
    | none ↦ elim l.held [ none ↦ true | some ch ↦ false ]
  ]

  -- `select` takes the channel that the room has when it begins: a loop of the room that waits keeps
  -- the one that is replaced.
  abbrev pub hold_channel : String → StopChannel → Loop → Loop
  hold_channel code ch l =
      if l.code == code && has_room_channel l then record l { held = some ch } else l

  unfoldable pub hold_loops : String → StopChannel → List Loop → List Loop
  hold_loops code ch ls = map (hold_channel code ch) ls

module _ ⦃R : Runtime⦄ ⦃A : AccountStore⦄ where
  unfoldable pub create_for : ClientRef → String → Server → Step
  create_for client nickname sv =
      let (r, m, s₁) = create_room sv.manager sv.seed in
      let (player, s₂) = new_player nickname s₁ in
      let (r', _) = add_player player client r in
      let sv' = record sv {
        manager = store_room r' m;
        loops = drop_loops r.code sv.loops;
        seed = s₂;
      } in
      (
        register_player (client_id client sv) player.id sv',
        (client, new_message type_create_room (create_room_response r.code player.id)) ∷ [],
      )

  unfoldable pub handle_create_room : ClientRef → R.Raw → Server → Step
  handle_create_room client raw sv = elim (R.text_fields ("nickname" ∷ []) raw) [
    | none ↦ fails client "닉네임을 입력해주세요" sv
    | some field ↦
        if field "nickname" == ""
        then fails client "닉네임을 입력해주세요" sv
        else create_for client (field "nickname") sv
  ]

  -- What `HandleJoinRoom` and `HandleRandomJoin` do once they have a room.
  unfoldable pub join : ClientRef → String → Room → Server → Step
  join client nickname r sv =
      let (player, s) = new_player nickname sv.seed in
      let (r', added) = add_player player client r in
      if not added then fails client "방이 가득 찼습니다" (record sv { seed = s }) else (
        register_player (client_id client sv) player.id
            (record sv { manager = store_room r' sv.manager; seed = s }),
        (client, new_message type_join_room (create_room_response r'.code player.id))
            ∷ broadcast_room_info r',
      )

  unfoldable pub handle_join_room : ClientRef → R.Raw → Server → Step
  handle_join_room client raw sv = elim (R.text_fields ("code" ∷ "nickname" ∷ []) raw) [
    | none ↦ fails client "방 코드와 닉네임을 입력해주세요" sv
    | some field ↦
        if field "code" == "" || field "nickname" == ""
        then fails client "방 코드와 닉네임을 입력해주세요" sv
        else elim (get_room (field "code") sv.manager) [
          | none ↦ fails client "방을 찾을 수 없습니다" sv
          | some r ↦ join client (field "nickname") r sv
        ]
  ]

  unfoldable pub preferred_role : String → Role
  preferred_role text =
      if text == "police" then police else if text == "thief" then thief else role_none

  unfoldable pub join_available : ClientRef → String → Option Room × R.Seed → Server → Step
  join_available client nickname (none, s) sv =
      fails client "입장 가능한 방이 없습니다" (record sv { seed = s })
  join_available client nickname (some r, s) sv = join client nickname r (record sv { seed = s })

  unfoldable pub handle_random_join : ClientRef → R.Raw → Server → Step
  handle_random_join client raw sv = elim (R.text_fields ("nickname" ∷ "preferred_role" ∷ []) raw) [
    | none ↦ fails client "닉네임을 입력해주세요" sv
    | some field ↦
        if field "nickname" == ""
        then fails client "닉네임을 입력해주세요" sv
        else join_available client (field "nickname")
            (find_available_room (preferred_role (field "preferred_role")) sv.manager sv.seed) sv
  ]

  -- The room of the client's player, and the player's id. The range over the rooms draws an order.
  unfoldable pub own_room : ClientRef → Server → Option Room × Server
  own_room client sv =
      let (found, s) =
        find_room_by_player_id (get_player_id (client_id client sv) sv) sv.manager sv.seed in
      (found, record sv { seed = s })

  -- `none` for a text that is no role.
  unfoldable pub selected_role : String → Option Role
  selected_role text =
      if text == "police" then some police else if text == "thief" then some thief else none

  -- The handler calls this for a room that it has found by the player, so that the pointer to the player
  -- is not nil.
  unfoldable pub select_role : ClientRef → String → Option Role → Room → Server → Step
  select_role client player_id none r sv = fails client "잘못된 역할입니다" sv
  select_role client player_id (some role) r sv =
      if not (can_select_role role r)
      then fails client "해당 팀이 가득 찼습니다" sv
      else (let r' = record r { players = modify_player player_id (set_role role) r.players } in
          (record sv { manager = store_room r' sv.manager }, broadcast_room_info r'))

  -- Every handler of a player in a room fails alike where there is none.
  abbrev pub in_room : ClientRef → Option Room × Server → (Room → Server → Step) → Step
  in_room client (none, sv) f = fails client "방에 참가하고 있지 않습니다" sv
  in_room client (some r, sv) f = f r sv

  unfoldable pub handle_select_team : ClientRef → R.Raw → Server → Step
  handle_select_team client raw sv = elim (R.text_fields ("role" ∷ []) raw) [
    | none ↦ fails client "잘못된 팀 선택입니다" sv
    | some field ↦ in_room client (own_room client sv) (λ r sv'.
        select_role client (get_player_id (client_id client sv) sv) (selected_role (field "role")) r
          sv')
  ]

  -- The rest of `HandlePlayerReady` when all are ready.
  unfoldable pub start_game : Room → Server → Step
  start_game r sv =
      let (r', s) = prepare_game r sv.seed in
      (
        record sv {
          manager = store_room r' sv.manager;
          loops =
              hold_loops r.code r.stop_ch sv.loops
              ++ (record { code = r'.code; pending = none; held = none } ∷ []);
          seed = s;
        },
        broadcast_message r'
            (new_message type_game_start (game_start_response r'.players r'.map_objects)),
      )

  abbrev send_first : Outbox → Step → Step
  send_first first (sv, out) = (sv, first ++ out)

  unfoldable pub toggle_ready : String → Room → Server → Step
  toggle_ready player_id r sv =
      let (r', all_ready) = toggle_player_ready player_id r in
      let sv' = record sv { manager = store_room r' sv.manager } in
      if all_ready
      then send_first (broadcast_room_info r') (start_game r' sv')
      else (sv', broadcast_room_info r')

  unfoldable pub handle_player_ready : ClientRef → R.Raw → Server → Step
  handle_player_ready client raw sv =
      in_room client (own_room client sv) (toggle_ready (get_player_id (client_id client sv) sv))

  abbrev pub is_ended : RoomState → Bool
  is_ended ended = true
  is_ended _ = false

  unfoldable pub return_to_lobby : ClientRef → Room → Server → Step
  return_to_lobby client r sv =
      if is_playing r.state
      then fails client "게임이 아직 끝나지 않았습니다" sv
      else (let r' = if is_ended r.state then reset_room r else r in
          (record sv { manager = store_room r' sv.manager }, broadcast_room_info r'))

  unfoldable pub handle_return_to_lobby : ClientRef → R.Raw → Server → Step
  handle_return_to_lobby client raw sv =
      in_room client (own_room client sv) (return_to_lobby client)

  unfoldable pub leave_room : String → Option Room × Server → Step
  leave_room player_id (none, sv) = (sv, [])
  leave_room player_id (some r, sv) =
      let (r', s) = remove_player player_id r sv.seed in
      if is_empty r'
      then (record sv { manager = remove_room r'.code sv.manager; seed = s }, [])
      else (record sv { manager = store_room r' sv.manager; seed = s }, broadcast_room_info r')

  -- `removePlayer`
  unfoldable pub remove_client : ClientRef → Server → Step
  remove_client client sv =
      let player_id = get_player_id (client_id client sv) sv in
      if player_id == ""
      then (sv, [])
      else (let (sv', out) = leave_room player_id (own_room client sv) in
          (unregister_player (client_id client sv) sv', out))

  unfoldable pub handle_leave_room : ClientRef → R.Raw → Server → Step
  handle_leave_room client raw sv = remove_client client sv

  unfoldable pub handle_disconnect : ClientRef → Server → Step
  handle_disconnect client sv = remove_client client sv
