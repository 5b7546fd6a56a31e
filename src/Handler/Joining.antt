-- ===== src/Handler/Joining.antt =====
-- What `HandleJoinRoom` and `HandleRandomJoin` of internal/handler/lobby.go do with a room.
use gyeongdohalsaram_server.Base.{
  ◌≤◌, ◌<◌, ◌≡◌, refl, sym, ◌∙◌, ◌≢◌, ◌⊎◌, inl, inr, Bool-cases, true, false, ◌||◌, none, some,
  Option-cases, String, List, [], ◌∷◌, leb, length, arith, ◌==◌, string_eq,
}
use gyeongdohalsaram_server.Runtime.{Runtime}
use gyeongdohalsaram_server.Game.Constants.{max_players}
use gyeongdohalsaram_server.Game.Player.{Player, role_none, new_player}
use gyeongdohalsaram_server.Ws.Message.{
  type_join_room, ClientRef, new_message, new_error_message, create_room_response,
}
use gyeongdohalsaram_server.Room.Players.{find_player, put_player, lookup}
use gyeongdohalsaram_server.Room.Players.Lookup.{lookup-insert_self}
use gyeongdohalsaram_server.Room.Defs.{Room, add_player}
use gyeongdohalsaram_server.Room.Manager.{get_room, store_room}
use gyeongdohalsaram_server.Room.Manager.Search.{get_room-store_room}
use gyeongdohalsaram_server.Handler.Accounts.{AccountStore}
use gyeongdohalsaram_server.Handler.Server.{
  Server, Step, client_id, fails, get_player_id, register_player, broadcast_room_info,
}
use gyeongdohalsaram_server.Handler.Lobby.{join, handle_join_room}
use gyeongdohalsaram_server.Handler.Effects.{get_player_id-register}

module _ ⦃R : Runtime⦄ where
  find-put_self : (p : Player) (ps : List Player) → find_player p.id (put_player p ps) ≡ some p
  unfolding find_player put_player
  find-put_self p [] = ground arith
  find-put_self p (q ∷ ps) = elim (string_eq.dec q.id p.id) [
    | yes same ↦ ground arith
    | no other ↦ ground (arith, find-put_self p ps)
  ]

  find-put_other :
      (p : Player) (j : String) (ps : List Player)
      → j ≢ p.id
      → find_player j (put_player p ps) ≡ find_player j ps
  unfolding find_player put_player
  find-put_other p j [] n = ground (arith, n)
  find-put_other p j (q ∷ ps) n = elim (string_eq.dec q.id p.id) [
    | yes same ↦ elim (string_eq.dec q.id j) [
      | yes e ↦ absurd (n (sym e ∙ same))
      | no n' ↦ ground (arith, n)
    ]
    | no other ↦ ground (arith, find-put_other p j ps n)
  ]

  -- The room with a new player: who is in it with this client as the connection, and all others.
  pub record HasJoined (client : ClientRef) (nickname : String) (r : Room) (p : Player) (r' : Room)
      : Type 0 where
    pub named : p.nickname ≡ nickname
    pub fresh : (p.role ≡ role_none) × (p.ready ≡ false)
    pub seated : find_player p.id r'.players ≡ some p
    pub linked : lookup p.id r'.clients ≡ some client
    pub others : (j : String) → j ≢ p.id → find_player j r'.players ≡ find_player j r.players
    pub same : (r'.code ≡ r.code) × (r'.state ≡ r.state)

  add_player-HasJoined :
      (client : ClientRef) (nickname : String) (r : Room) (s : R.Seed)
      → leb max_players (length r.players) ≡ false
      → HasJoined client nickname r
          (new_player nickname s).0
          (add_player (new_player nickname s).0 client r).0
  unfolding new_player add_player
  add_player-HasJoined client nickname r s room =
      let p = (new_player nickname s).0 in
      rw (room, add_player)
        (record {
          named = refl;
          fresh = (refl, refl);
          seated = find-put_self p r.players;
          linked = lookup-insert_self p.id client r.clients;
          others = λ j n. find-put_other p j r.players n;
          same = (refl, refl);
        })

  add_player_full :
      (p : Player) (client : ClientRef) (r : Room)
      → leb max_players (length r.players) ≡ true
      → (add_player p client r).1 ≡ false
  unfolding add_player
  add_player_full p client r full = rw (full, add_player) refl

  add_player_added :
      (p : Player) (client : ClientRef) (r : Room)
      → leb max_players (length r.players) ≡ false
      → (add_player p client r).1 ≡ true
  unfolding add_player
  add_player_added p client r room = rw (room, add_player) refl

  -- A request with no fields, or with an empty code or nickname.
  abbrev pub IsIncomplete : R.Raw → Type 0
  IsIncomplete raw =
      (R.text_fields ("code" ∷ "nickname" ∷ []) raw ≡ none)
      ⊎ ((field : String → String) × (R.text_fields ("code" ∷ "nickname" ∷ []) raw ≡ some field)
          × ((field "code" ≡ "") ⊎ (field "nickname" ≡ "")))

module _ ⦃R : Runtime⦄ ⦃A : AccountStore⦄ where
  -- A full room takes nobody, and nothing changes but the random source. Any other room has a new
  -- player, who is the client's from now on; the client gets its answer, and all in the room are told.
  abbrev pub IsJoined : ClientRef → String → Room → Server → Step → Type 0
  IsJoined client nickname r sv (sv', out) =
      ((max_players ≤ length r.players)
        × (sv'.manager ≡ sv.manager)
        × (sv'.player_map ≡ sv.player_map)
        × (out ≡ (client, new_error_message "방이 가득 찼습니다") ∷ []))
      ⊎ ((length r.players < max_players)
          × (p : Player) × (r' : Room) × (get_room r.code sv'.manager ≡ some r')
          × HasJoined client nickname r p r'
          × (get_player_id (client_id client sv) sv' ≡ p.id)
          × (out
              ≡ (client, new_message type_join_room (create_room_response r.code p.id))
                ∷ broadcast_room_info r'))

  join-IsJoined :
      (client : ClientRef) (nickname : String) (r : Room) (sv : Server)
      → IsJoined client nickname r sv (join client nickname r sv)
  unfolding join register_player store_room
  join-IsJoined client nickname r sv =
      let p = (new_player nickname sv.seed).0 in
      elim (Bool-cases (leb max_players (length r.players))) [
        | inl full ↦
            rw (add_player_full p client r full, join) (inl (ground arith, refl, refl, refl))
        | inr room ↦
            let r' = (add_player p client r).0 in
            let joined = add_player-HasJoined client nickname r sv.seed room in
            rw (add_player_added p client r room, join)
              (inr (
                ground arith,
                p,
                r',
                get_room-store_room r' r.code sv.manager joined.same.0,
                joined,
                get_player_id-register (client_id client sv) p.id _,
                rw joined.same.0 refl,
              ))
      ]

  -- `HandleJoinRoom` answers by an error, and changes nothing, exactly if the request does not parse, if
  -- its code or nickname is empty, or if there is no room of this code. Otherwise a full room takes nobody, and the client is told so;
  -- any other room has a new player of this nickname, with no role and not ready, whose connection is
  -- the client and who is the client's player from now on, and keeps all others; the client gets the
  -- code and its player's id, and everybody in the room is told.
  pub handle_join_room-IsJoined :
      (client : ClientRef) (raw : R.Raw) (sv : Server)
      → (IsIncomplete raw × (handle_join_room client raw sv ≡ fails client "방 코드와 닉네임을 입력해주세요" sv))
        ⊎ ((field : String → String) × (R.text_fields ("code" ∷ "nickname" ∷ []) raw ≡ some field)
            × (field "code" ≢ "")
            × (field "nickname" ≢ "")
            × (((get_room (field "code") sv.manager ≡ none)
                  × (handle_join_room client raw sv ≡ fails client "방을 찾을 수 없습니다" sv))
                ⊎ ((r : Room) × (get_room (field "code") sv.manager ≡ some r)
                    × IsJoined client (field "nickname") r sv (handle_join_room client raw sv))))
  unfolding handle_join_room
  handle_join_room-IsJoined client raw sv =
      elim (Option-cases (R.text_fields ("code" ∷ "nickname" ∷ []) raw)) [
        | inl e ↦ inl (inl e, rw (e, handle_join_room) refl)
        | inr (field, e) ↦ elim (Bool-cases (field "code" == "" || field "nickname" == "")) [
          | inl missing ↦ inl (inr (field, e, ground arith), rw (e, missing, handle_join_room) refl)
          | inr given ↦ inr (
            field,
            e,
            ground (arith, given),
            ground (arith, given),
            elim (Option-cases (get_room (field "code") sv.manager)) [
              | inl nowhere ↦ inl (nowhere, rw (e, given, nowhere, handle_join_room) refl)
              | inr (r, found) ↦ inr (
                r,
                found,
                rw (e, given, found, handle_join_room)
                    (join-IsJoined client (field "nickname") r sv),
              )
            ],
          )
        ]
      ]
