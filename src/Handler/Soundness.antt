-- ===== src/Handler/Soundness.antt =====
-- The rooms of the server after a message to a handler of internal/handler/lobby.go or gameplay.go.
use mathlib.Core.List.Perm
use gyeongdohalsaram_server.Base.{
  ◌≡◌, sym, ◌<◌, refl, subst, inl, inr, ◌||◌, Bool-cases, Option, none, some, Option-cases, String,
  [], ◌∷◌, ℤ, ◌==◌, string_eq,
}
use gyeongdohalsaram_server.Runtime.{Runtime}
use gyeongdohalsaram_server.Game.Collision.{distance}
use gyeongdohalsaram_server.Game.Player.{Player}
use gyeongdohalsaram_server.Ws.Message.{ClientRef}
use gyeongdohalsaram_server.Room.Players.{find_player, modify_player}
use gyeongdohalsaram_server.Room.Players.Laws.{Zip-modify_player}
use gyeongdohalsaram_server.Room.Defs.{Room, is_playing}
use gyeongdohalsaram_server.Room.Invariant.{IsValid, reseated-IsValid}
use gyeongdohalsaram_server.Room.Live.{IsLive, length-modify_player}
use gyeongdohalsaram_server.Room.Manager.{get_room}
use gyeongdohalsaram_server.Room.Manager.Search.{Found, lookup-Found, find_available-Found}
use gyeongdohalsaram_server.Handler.Accounts.{AccountStore}
use gyeongdohalsaram_server.Handler.Server.{Server, client_id, get_player_id}
use gyeongdohalsaram_server.Handler.Lobby.{
  handle_create_room, join, handle_join_room, preferred_role, join_available, handle_random_join,
  selected_role, handle_select_team, handle_player_ready, handle_return_to_lobby,
}
use gyeongdohalsaram_server.Handler.Gameplay.{
  moved, max_distance, move_player, move_in_room, handle_player_move,
}
use gyeongdohalsaram_server.Handler.Invariant.{
  store_room-Listed, IsSound, Keeps, join-Keeps, create_for-IsSound, in_own_room-IsSound,
  select_role-Keeps, toggle_ready-Keeps, return_to_lobby-Keeps,
}

module _ ⦃R : Runtime⦄ ⦃A : AccountStore⦄ where
  pub get_room-Found : (code : String) (sv : Server) → IsSound sv → Found (get_room code sv.manager)
  unfolding get_room
  get_room-Found code sv h = lookup-Found code sv.manager.rooms h

  enter-IsSound :
      (client : ClientRef) (nickname : String) (r : Room) (sv : Server) (x : Option Room)
      → Found x
      → x ≡ some r
      → IsSound sv
      → IsSound (join client nickname r sv).0
  enter-IsSound client nickname r sv x v e h = join-Keeps client nickname r sv (subst Found e v) h

  join_available-IsSound :
      (client : ClientRef) (nickname : String) (x : Option Room × R.Seed) (sv : Server)
      → Found x.0
      → IsSound sv
      → IsSound (join_available client nickname x sv).0
  unfolding join_available
  join_available-IsSound client nickname (none, s) sv v h = h
  join_available-IsSound client nickname (some r, s) sv v h =
      join-Keeps client nickname r (record sv { seed = s }) v h

  pub handle_create_room-IsSound :
      (client : ClientRef) (raw : R.Raw) (sv : Server)
      → IsSound sv
      → IsSound (handle_create_room client raw sv).0
  unfolding handle_create_room
  handle_create_room-IsSound client raw sv h =
      elim (Option-cases (R.text_fields ("nickname" ∷ []) raw)) [
        | inl e ↦ rw (e, handle_create_room) h
        | inr (field, e) ↦
            rw (e, handle_create_room)
              (elim (Bool-cases (field "nickname" == "")) [
                | inl empty ↦ rw empty h
                | inr given ↦ rw given (create_for-IsSound client _ sv h)
              ])
      ]

  pub handle_join_room-IsSound :
      (client : ClientRef) (raw : R.Raw) (sv : Server)
      → IsSound sv
      → IsSound (handle_join_room client raw sv).0
  unfolding handle_join_room
  handle_join_room-IsSound client raw sv h =
      elim (Option-cases (R.text_fields ("code" ∷ "nickname" ∷ []) raw)) [
        | inl e ↦ rw (e, handle_join_room) h
        | inr (field, e) ↦
            rw (e, handle_join_room)
              (elim (Bool-cases (field "code" == "" || field "nickname" == "")) [
                | inl empty ↦ rw empty h
                | inr given ↦ rw given (elim (Option-cases (get_room (field "code") sv.manager)) [
                  | inl gone ↦ rw gone h
                  | inr (r, found) ↦
                      rw found
                        (enter-IsSound client _ r sv _ (get_room-Found (field "code") sv h) found h)
                ])
              ])
      ]

  pub handle_random_join-IsSound :
      (client : ClientRef) (raw : R.Raw) (sv : Server)
      → IsSound sv
      → IsSound (handle_random_join client raw sv).0
  unfolding handle_random_join
  handle_random_join-IsSound client raw sv h =
      elim (Option-cases (R.text_fields ("nickname" ∷ "preferred_role" ∷ []) raw)) [
        | inl e ↦ rw (e, handle_random_join) h
        | inr (field, e) ↦
            rw (e, handle_random_join)
              (elim (Bool-cases (field "nickname" == "")) [
                | inl empty ↦ rw empty h
                | inr given ↦ rw given (
                    join_available-IsSound client _ _ sv
                      (find_available-Found (preferred_role (field "preferred_role")) sv.manager
                        sv.seed h)
                      h)
              ])
      ]

  pub handle_select_team-IsSound :
      (client : ClientRef) (raw : R.Raw) (sv : Server)
      → IsSound sv
      → IsSound (handle_select_team client raw sv).0
  unfolding handle_select_team
  handle_select_team-IsSound client raw sv h =
      elim (Option-cases (R.text_fields ("role" ∷ []) raw)) [
        | inl e ↦ rw (e, handle_select_team) h
        | inr (field, e) ↦
            rw (e, handle_select_team)
              (in_own_room-IsSound client _ sv
                (select_role-Keeps client _ (selected_role (field "role"))) h)
      ]

  pub handle_player_ready-IsSound :
      (client : ClientRef) (raw : R.Raw) (sv : Server)
      → IsSound sv
      → IsSound (handle_player_ready client raw sv).0
  unfolding handle_player_ready
  handle_player_ready-IsSound client raw sv h =
      in_own_room-IsSound client _ sv (toggle_ready-Keeps _) h

  pub handle_return_to_lobby-IsSound :
      (client : ClientRef) (raw : R.Raw) (sv : Server)
      → IsSound sv
      → IsSound (handle_return_to_lobby client raw sv).0
  unfolding handle_return_to_lobby
  handle_return_to_lobby-IsSound client raw sv h =
      in_own_room-IsSound client _ sv (return_to_lobby-Keeps client) h

  moved-IsValid :
      (x y : R.Float) (now : ℤ) (id : String) (r : Room)
      → IsValid r
      → IsValid (record r { players = modify_player id (moved x y now) r.players })
  moved-IsValid x y now id r v =
      reseated-IsValid r _ r.players Perm.rfl
        (Zip-modify_player _ id (moved x y now) (λ p. (refl, refl)) (λ p. (refl, refl)) r.players)
        refl refl v.armed v

  moved-IsLive :
      (x y : R.Float) (now : ℤ) (id : String) (r : Room)
      → IsLive r
      → IsLive (record r { players = modify_player id (moved x y now) r.players })
  moved-IsLive x y now id r v = (
    moved-IsValid x y now id r v.0,
    subst (λ n. 0 < n) (sym (length-modify_player id (moved x y now) r.players)) v.1,
  )

  move_player-Keeps :
      (client : ClientRef) (x y : R.Float) (now : ℤ) (p : Player)
      → Keeps (move_player client x y now p)
  unfolding move_player
  move_player-Keeps client x y now p r sv v h =
      elim (Bool-cases (R.lt (max_distance p now) (distance p.x p.y x y))) [
        | inl far ↦ rw far h
        | inr near ↦ rw near (store_room-Listed _ _ (moved-IsLive x y now p.id r v) h)
      ]

  move_in_room-Keeps :
      (client : ClientRef) (x y : R.Float) (now : ℤ) (id : String)
      → Keeps (move_in_room client x y now id)
  unfolding move_in_room
  move_in_room-Keeps client x y now id r sv v h = elim (Bool-cases (is_playing r.state)) [
    | inl on ↦ rw on (elim (Option-cases (find_player id r.players)) [
      | inl e ↦ rw e h
      | inr (p, e) ↦ rw e (move_player-Keeps client x y now p r sv v h)
    ])
    | inr off ↦ rw off h
  ]

  pub handle_player_move-IsSound :
      (client : ClientRef) (raw : R.Raw) (now : ℤ) (sv : Server)
      → IsSound sv
      → IsSound (handle_player_move client raw now sv).0
  unfolding handle_player_move
  handle_player_move-IsSound client raw now sv h =
      elim (Option-cases (R.number_fields ("x" ∷ "y" ∷ []) raw)) [
        | inl e ↦ rw (e, handle_player_move) h
        | inr (field, e) ↦
            rw (e, handle_player_move)
              (elim (Bool-cases (get_player_id (client_id client sv) sv == "")) [
                | inl nobody ↦ rw nobody h
                | inr someone ↦
                    rw someone
                      (in_own_room-IsSound client _ sv (move_in_room-Keeps client _ _ now _) h)
              ])
      ]
