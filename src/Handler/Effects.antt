-- ===== src/Handler/Effects.antt =====
-- What the handlers of internal/handler do to the rooms and to the players of the connections.
use gyeongdohalsaram_server.Base.{
  ◌≡◌, refl, ap, ◌∙◌, ◌≢◌, inl, inr, true, false, Bool-cases, some, String, List, [], ◌∷◌, ℤ, arith,
  ◌==◌, string_eq, if◌then◌else◌,
}
use gyeongdohalsaram_server.Runtime.{Runtime}
use gyeongdohalsaram_server.Game.State.{playing}
use gyeongdohalsaram_server.Game.Collision.{distance}
use gyeongdohalsaram_server.Game.Player.{Player, new_player}
use gyeongdohalsaram_server.Ws.Message.{ClientRef}
use gyeongdohalsaram_server.Room.Players.{find_player, modify_player, lookup, put_player}
use gyeongdohalsaram_server.Room.Players.Lookup.{
  lookup-insert_self, lookup-insert_other, lookup-erase_self, find-modify_self, find-modify_other,
}
use gyeongdohalsaram_server.Room.Defs.{Room, new_room, add_player}
use gyeongdohalsaram_server.Room.Manager.{Manager, create_room, get_room, store_room}
use gyeongdohalsaram_server.Room.Manager.Search.{get_room-store_room}
use gyeongdohalsaram_server.Handler.Accounts.{AccountStore}
use gyeongdohalsaram_server.Handler.Server.{
  Server, client_id, register_player, unregister_player, get_player_id, fails,
}
use gyeongdohalsaram_server.Handler.Lobby.{create_for, own_room, leave_room, remove_client}
use gyeongdohalsaram_server.Handler.Gameplay.{moved, max_distance, move_player, move_in_room}

module _ ⦃R : Runtime⦄ ⦃A : AccountStore⦄ where
  find_player_id :
      (id : String) (ps : List Player) (p : Player) → find_player id ps ≡ some p → p.id ≡ id
  unfolding find_player
  find_player_id id [] p e = cc
  find_player_id id (q ∷ ps) p e = elim (string_eq.dec q.id id) [
    | yes s ↦ ground arith
    | no n ↦ ground (arith, find_player_id id ps p)
  ]

  -- The room with this code, after a move: the player stands at the new place since now, and every
  -- other player is as before.
  abbrev pub IsMoved : R.Float → R.Float → ℤ → Player → Room → Server → Server → Type 0
  IsMoved x y now p r sv sv' =
      (r' : Room) × (get_room r.code sv'.manager ≡ some r')
      × (find_player p.id r'.players ≡ some (moved x y now p))
      × ((other : String)
          → other ≢ p.id
          → find_player other r'.players ≡ find_player other r.players)
      × ((code : String) → code ≢ r.code → get_room code sv'.manager ≡ get_room code sv.manager)

  moved_player :
      (x y : R.Float) (now : ℤ) (p : Player) (r : Room) (sv : Server)
      → find_player p.id r.players ≡ some p
      → IsMoved x y now p r sv (record sv {
        manager =
            store_room
              (record r { players = modify_player p.id (moved x y now) r.players })
              sv.manager;
      })
  unfolding get_room store_room
  moved_player x y now p r sv e = (
    record r { players = modify_player p.id (moved x y now) r.players },
    lookup-insert_self r.code _ sv.manager.rooms,
    find-modify_self p.id (moved x y now) r.players p (λ q. refl) e,
    λ other n. find-modify_other other p.id (moved x y now) r.players (λ q. refl) n,
    λ code n. lookup-insert_other code r.code _ sv.manager.rooms n,
  )

  -- `HandlePlayerMove` in a room whose game is on, for a player of the room: a place farther away
  -- than the player may have come changes nothing, and the client gets an error; any other place is
  -- taken, and nobody else is changed, in this room or another.
  pub move_in_room-IsMoved :
      (client : ClientRef) (x y : R.Float) (now : ℤ) (id : String) (p : Player) (r : Room)
      (sv : Server)
      → r.state ≡ playing
      → find_player id r.players ≡ some p
      → if R.lt (max_distance p now) (distance p.x p.y x y)
        then move_in_room client x y now id r sv ≡ fails client "이동 속도가 너무 빠릅니다" sv
        else IsMoved x y now p r sv (move_in_room client x y now id r sv).0
  unfolding move_in_room move_player
  move_in_room-IsMoved client x y now id p r sv on e =
      elim (Bool-cases (R.lt (max_distance p now) (distance p.x p.y x y))) [
        | inl far ↦ rw (on, e, far, move_in_room) refl
        | inr near ↦
            rw (on, e, near, move_in_room)
              (moved_player x y now p r sv
                (ap (λ k. find_player k r.players) (find_player_id id r.players p e) ∙ e))
      ]

  created-empty :
      (m : Manager) (s : R.Seed)
      → ((create_room m s).0.players ≡ []) × ((create_room m s).0.clients ≡ [])
  unfolding create_room new_room
  created-empty m s = (refl, refl)

  first_player :
      (p : Player) (c : ClientRef) (r : Room)
      → r.players ≡ []
      → r.clients ≡ []
      → ((add_player p c r).0.players ≡ p ∷ [])
        × ((add_player p c r).0.host_id ≡ p.id)
        × ((add_player p c r).0.code ≡ r.code)
        × (lookup p.id (add_player p c r).0.clients ≡ some c)
  unfolding add_player put_player
  first_player p c r e e' =
      rw (e, e', add_player, put_player) (refl, refl, refl, lookup-insert_self p.id c [])

  pub get_player_id-register :
      (id player_id : String) (sv : Server)
      → get_player_id id (register_player id player_id sv) ≡ player_id
  unfolding get_player_id register_player
  get_player_id-register id player_id sv =
      rw (get_player_id, lookup-insert_self id player_id sv.player_map) refl

  pub new_player_nickname :
      (nickname : String) (s : R.Seed) → (new_player nickname s).0.nickname ≡ nickname
  unfolding new_player
  new_player_nickname nickname s = refl

  -- `HandleCreateRoom` with a nickname opens a room that has the client's player as its only one and
  -- as its host, and it is the client's player from now on.
  pub create_for-Hosts :
      (client : ClientRef) (nickname : String) (sv : Server)
      → (r : Room) × (p : Player) × (get_room
            (create_room sv.manager sv.seed).0.code
            (create_for client nickname sv).0.manager
          ≡ some r)
        × (r.players ≡ p ∷ [])
        × (r.host_id ≡ p.id)
        × (p.nickname ≡ nickname)
        × (lookup p.id r.clients ≡ some client)
        × (get_player_id (client_id client sv) (create_for client nickname sv).0 ≡ p.id)
  unfolding create_for register_player
  create_for-Hosts client nickname sv =
      let (r, m, s₁) = create_room sv.manager sv.seed in
      let (player, s₂) = new_player nickname s₁ in
      let (no_player, no_client) = created-empty sv.manager sv.seed in
      let (one, host, code, seat) = first_player player client r no_player no_client in
      (
        (add_player player client r).0,
        player,
        get_room-store_room _ r.code m code,
        one,
        host,
        new_player_nickname nickname s₁,
        seat,
        get_player_id-register _ _ _,
      )

  get_player_id-unregister :
      (id : String) (sv : Server) → get_player_id id (unregister_player id sv) ≡ ""
  unfolding get_player_id unregister_player
  get_player_id-unregister id sv = rw (get_player_id, lookup-erase_self id sv.player_map) refl

  -- After `HandleDisconnect` or `HandleLeaveRoom` the connection has no player.
  pub remove_client-Gone :
      (client : ClientRef) (sv : Server)
      → get_player_id (client_id client sv) (remove_client client sv).0 ≡ ""
  unfolding remove_client
  remove_client-Gone client sv = elim (string_eq.dec (get_player_id (client_id client sv) sv) "") [
    | yes e ↦ rw (no_player e) e
    | no n ↦
        rw (some_player n)
          (get_player_id-unregister (client_id client sv) (leave_room _ (own_room client sv)).0)
  ]
    where
      no_player :
          get_player_id (client_id client sv) sv ≡ ""
          → (get_player_id (client_id client sv) sv == "") ≡ true
      no_player e = ground arith

      some_player :
          get_player_id (client_id client sv) sv ≢ ""
          → (get_player_id (client_id client sv) sv == "") ≡ false
      some_player n = ground arith
