-- ===== src/Handler/Invariant.antt =====
-- The rooms of the server between any two events: what the handlers of internal/handler keep true.
use gyeongdohalsaram_server.Base.{
  ◌≡◌, sym, subst, leb, length, refl, inl, inr, Bool-cases, Option, none, some, String, All, ◌==◌,
  string_eq,
}
use gyeongdohalsaram_server.Runtime.{Runtime}
use gyeongdohalsaram_server.Game.Player.{Player, Role, role_none, new_player}
use gyeongdohalsaram_server.Ws.Message.{ClientRef}
use gyeongdohalsaram_server.Room.Defs.{
  Room, new_room, add_player, remove_player, can_select_role, toggle_player_ready, is_empty,
  is_playing,
}
use gyeongdohalsaram_server.Room.Players.{insert}
use gyeongdohalsaram_server.Game.Constants.{max_players}
use gyeongdohalsaram_server.Room.Invariant.{IsValid, new_room-IsValid}
use gyeongdohalsaram_server.Room.Live.{
  IsLive, add_player-IsLive, remove_player-IsLive, toggle_player_ready-IsLive, reset_room-IsLive,
  prepare_game-IsLive, set_role-IsLive,
}
use gyeongdohalsaram_server.Room.Manager.{Manager, create_room, remove_room, store_room}
use gyeongdohalsaram_server.Room.Manager.Search.{
  Entry, Found, Listed-insert, Listed-insert_twice, Listed-erase, find_room-Found,
}
use gyeongdohalsaram_server.Handler.Accounts.{AccountStore}
use gyeongdohalsaram_server.Handler.Server.{
  Server, Step, client_id, register_player, unregister_player, get_player_id,
}
use gyeongdohalsaram_server.Handler.Lobby.{
  create_for, join, own_room, select_role, in_room, start_game, toggle_ready, is_ended,
  return_to_lobby, leave_room, remove_client,
}

module _ ⦃R : Runtime⦄ where
  abbrev pub Listed : Manager → Type 0
  Listed m = All Entry m.rooms

  pub store_room-Listed : (r : Room) (m : Manager) → IsLive r → Listed m → Listed (store_room r m)
  unfolding store_room
  store_room-Listed r m v h = Listed-insert r.code r m.rooms refl v h

  remove_room-Listed : (code : String) (m : Manager) → Listed m → Listed (remove_room code m)
  unfolding remove_room
  remove_room-Listed code m h = Listed-erase code m.rooms h

  -- A new room, once it has a player.
  create_room-Listed :
      (m : Manager) (s : R.Seed) (r : Room)
      → r.code ≡ (create_room m s).0.code
      → IsLive r
      → Listed m
      → Listed (store_room r (create_room m s).1)
  unfolding store_room create_room new_room
  create_room-Listed m s r e v h =
      subst (λ k. All Entry (insert k r (create_room m s).1.rooms)) (sym e)
        (Listed-insert_twice (create_room m s).0.code (create_room m s).0 r m.rooms e v h)

  created-IsValid : (m : Manager) (s : R.Seed) → IsValid (create_room m s).0
  unfolding create_room
  created-IsValid m s = new_room-IsValid _

  add_player-code : (p : Player) (c : ClientRef) (r : Room) → (add_player p c r).0.code ≡ r.code
  unfolding add_player
  add_player-code p c r = elim (Bool-cases (leb max_players (length r.players))) [
    | inl full ↦ rw (full, add_player) refl
    | inr room ↦ rw (room, add_player) refl
  ]

  new_player_role : (nickname : String) (s : R.Seed) → (new_player nickname s).0.role ≡ role_none
  unfolding new_player
  new_player_role nickname s = refl

module _ ⦃R : Runtime⦄ ⦃A : AccountStore⦄ where
  -- Every room of the server is valid, has a player, and stands under its code.
  abbrev pub IsSound : Server → Type 0
  IsSound sv = Listed sv.manager

  -- A handler of one room keeps a sound server sound, if the room is valid and has a
  -- player.
  abbrev pub Keeps : (Room → Server → Step) → Type 0
  Keeps f = (r : Room) (sv : Server) → IsLive r → IsSound sv → IsSound (f r sv).0

  pub join-Keeps : (client : ClientRef) (nickname : String) → Keeps (join client nickname)
  unfolding join register_player
  join-Keeps client nickname r sv v h =
      let (player, s) = new_player nickname sv.seed in
      let v' : IsLive (add_player player client r).0 =
        add_player-IsLive player client r (new_player_role nickname sv.seed) v.0 in
      elim (Bool-cases (add_player player client r).1) [
        | inl added ↦ rw added (store_room-Listed _ _ v' h)
        | inr full ↦ rw full h
      ]

  pub create_for-IsSound :
      (client : ClientRef) (nickname : String) (sv : Server)
      → IsSound sv
      → IsSound (create_for client nickname sv).0
  unfolding create_for register_player
  create_for-IsSound client nickname sv h =
      let (r, m, s₁) = create_room sv.manager sv.seed in
      let player = (new_player nickname s₁).0 in
      create_room-Listed sv.manager sv.seed (add_player player client r).0
        (add_player-code player client r)
        (add_player-IsLive player client r (new_player_role nickname s₁)
          (created-IsValid sv.manager sv.seed))
        h

  in_room-IsSound :
      (client : ClientRef) (x : Option Room × Server) (f : Room → Server → Step)
      → Keeps f
      → Found x.0
      → IsSound x.1
      → IsSound (in_room client x f).0
  in_room-IsSound client (none, sv) f k v h = h
  in_room-IsSound client (some r, sv) f k v h = k r sv v h

  own_room-Found : (client : ClientRef) (sv : Server) → IsSound sv → Found (own_room client sv).0
  unfolding own_room
  own_room-Found client sv h = find_room-Found _ sv.manager sv.seed h

  own_room-IsSound :
      (client : ClientRef) (sv : Server) → IsSound sv → IsSound (own_room client sv).1
  unfolding own_room
  own_room-IsSound client sv h = h

  -- The handlers that look up the room of the client's player.
  pub in_own_room-IsSound :
      (client : ClientRef) (f : Room → Server → Step) (sv : Server)
      → Keeps f
      → IsSound sv
      → IsSound (in_room client (own_room client sv) f).0
  in_own_room-IsSound client f sv k h =
      in_room-IsSound client (own_room client sv) f k (own_room-Found client sv h)
        (own_room-IsSound client sv h)

  pub select_role-Keeps :
      (client : ClientRef) (id : String) (choice : Option Role)
      → Keeps (select_role client id choice)
  unfolding select_role
  select_role-Keeps client id none r sv v h = h
  select_role-Keeps client id (some role) r sv v h = elim (Bool-cases (can_select_role role r)) [
    | inl free ↦ rw free (store_room-Listed _ _ (set_role-IsLive id role r free v) h)
    | inr full ↦ rw full h
  ]

  start_game-Keeps : Keeps start_game
  unfolding start_game
  start_game-Keeps r sv v h = store_room-Listed _ _ (prepare_game-IsLive r sv.seed v) h

  pub toggle_ready-Keeps : (id : String) → Keeps (toggle_ready id)
  unfolding toggle_ready
  toggle_ready-Keeps id r sv v h =
      let v' : IsLive (toggle_player_ready id r).0 = toggle_player_ready-IsLive id r v in
      let h' : Listed (store_room (toggle_player_ready id r).0 sv.manager) =
        store_room-Listed _ _ v' h in
      elim (Bool-cases (toggle_player_ready id r).1) [
        | inl all_ready ↦ rw all_ready (start_game-Keeps _ _ v' h')
        | inr waits ↦ rw waits h'
      ]

  pub return_to_lobby-Keeps : (client : ClientRef) → Keeps (return_to_lobby client)
  unfolding return_to_lobby
  return_to_lobby-Keeps client r sv v h = elim (Bool-cases (is_playing r.state)) [
    | inl on ↦ rw on h
    | inr off ↦ rw off (elim (Bool-cases (is_ended r.state)) [
      | inl over ↦ rw over (store_room-Listed _ _ (reset_room-IsLive r v) h)
      | inr waits ↦ rw waits (store_room-Listed _ _ v h)
    ])
  ]

  leave_room-IsSound :
      (id : String) (x : Option Room × Server)
      → Found x.0
      → IsSound x.1
      → IsSound (leave_room id x).0
  unfolding leave_room
  leave_room-IsSound id (none, sv) v h = h
  leave_room-IsSound id (some r, sv) v h =
      elim (Bool-cases (is_empty (remove_player id r sv.seed).0)) [
        | inl nobody ↦ rw nobody (remove_room-Listed _ _ h)
        | inr others ↦
            rw others (store_room-Listed _ _ (remove_player-IsLive id r sv.seed others v.0) h)
      ]

  pub remove_client-IsSound :
      (client : ClientRef) (sv : Server) → IsSound sv → IsSound (remove_client client sv).0
  unfolding remove_client unregister_player
  remove_client-IsSound client sv h =
      elim (Bool-cases (get_player_id (client_id client sv) sv == "")) [
        | inl nobody ↦ rw nobody h
        | inr someone ↦ rw someone (
            leave_room-IsSound _ (own_room client sv) (own_room-Found client sv h)
              (own_room-IsSound client sv h))
      ]
