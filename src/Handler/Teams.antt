-- ===== src/Handler/Teams.antt =====
-- What `HandleSelectTeam` of internal/handler/lobby.go does on each of its branches.
use gyeongdohalsaram_server.Base.{
  ◌≤◌, ◌<◌, ◌≡◌, refl, ◌≢◌, ◌⊎◌, inl, inr, Bool-cases, true, false, none, some, Option-cases,
  String, [], ◌∷◌, ltb, arith,
}
use gyeongdohalsaram_server.Runtime.{Runtime}
use gyeongdohalsaram_server.Game.Constants.{max_police}
use gyeongdohalsaram_server.Game.Player.{Player, Role, role_none, police, thief, set_role}
use gyeongdohalsaram_server.Ws.Message.{ClientRef}
use gyeongdohalsaram_server.Room.Players.{find_player, modify_player}
use gyeongdohalsaram_server.Room.Players.Lookup.{find-modify_self, find-modify_other}
use gyeongdohalsaram_server.Room.Defs.{Room, police_count, can_select_role}
use gyeongdohalsaram_server.Room.Manager.{get_room}
use gyeongdohalsaram_server.Room.Manager.Search.{get_room-store_room}
use gyeongdohalsaram_server.Handler.Accounts.{AccountStore}
use gyeongdohalsaram_server.Handler.Server.{
  Server, Step, client_id, get_player_id, fails, broadcast_room_info,
}
use gyeongdohalsaram_server.Handler.Lobby.{own_room, selected_role, select_role, handle_select_team}

module _ ⦃R : Runtime⦄ where
  -- The room in which one player has taken a role.
  pub record HasRole (k : String) (p : Player) (role : Role) (r r' : Room) : Type 0 where
    pub given : find_player k r'.players ≡ some (set_role role p)
    pub others : (j : String) → j ≢ k → find_player j r'.players ≡ find_player j r.players
    pub same : (r'.code ≡ r.code) × (r'.state ≡ r.state) × (r'.clients ≡ r.clients)

  can_select_role-cases :
      (role : Role) (r : Room)
      → ((can_select_role role r ≡ false) × (role ≡ police) × (max_police ≤ police_count r.players))
        ⊎ ((can_select_role role r ≡ true) × (role ≡ police → police_count r.players < max_police))
  unfolding can_select_role
  can_select_role-cases role_none r = inr (refl, λ e. cc)
  can_select_role-cases thief r = inr (refl, λ e. cc)
  can_select_role-cases police r = elim (Bool-cases (ltb (police_count r.players) max_police)) [
    | inl room ↦ inr (room, λ _. ground arith)
    | inr full ↦ inl (full, refl, ground arith)
  ]

module _ ⦃R : Runtime⦄ ⦃A : AccountStore⦄ where
  -- The police is full, and nothing changes; or the player has the role, and all are told.
  abbrev pub IsSelected : ClientRef → String → Player → Role → Room → Server → Step → Type 0
  IsSelected client k p role r sv (sv', out) =
      ((role ≡ police)
        × (max_police ≤ police_count r.players)
        × ((sv', out) ≡ fails client "해당 팀이 가득 찼습니다" sv))
      ⊎ ((role ≡ police → police_count r.players < max_police)
          × ((r' : Room) × (get_room r.code sv'.manager ≡ some r')
              × HasRole k p role r r'
              × (out ≡ broadcast_room_info r')))

  select_role-IsSelected :
      (client : ClientRef) (k : String) (p : Player) (role : Role) (r : Room) (sv : Server)
      → find_player k r.players ≡ some p
      → IsSelected client k p role r sv (select_role client k (some role) r sv)
  unfolding select_role
  select_role-IsSelected client k p role r sv there = elim (can_select_role-cases role r) [
    | inl (full, one, many) ↦ rw (full, select_role) (inl (one, many, refl))
    | inr (room, few) ↦
        let r' : Room = record r { players = modify_player k (set_role role) r.players } in
        rw (room, select_role)
          (inr (
            few,
            (
              r',
              get_room-store_room r' r.code sv.manager refl,
              record {
                given = find-modify_self k _ r.players p (λ q. refl) there;
                others = λ j n. find-modify_other j k _ r.players (λ q. refl) n;
                same = (refl, refl, refl);
              },
              refl,
            ),
          ))
  ]

  -- If the client's player is in a room, `HandleSelectTeam` answers by an error, and changes nothing but
  -- the random source, if the message is none or its role is neither `police` nor `thief`, or if it is
  -- `police` and the room has its two officers already. Otherwise the player takes the role, all others
  -- stay as they are, and everybody in the room is told.
  pub handle_select_team-IsSelected :
      (client : ClientRef) (raw : R.Raw) (p : Player) (r : Room) (sv sv₁ : Server)
      → own_room client sv ≡ (some r, sv₁)
      → find_player (get_player_id (client_id client sv) sv) r.players ≡ some p
      → ((R.text_fields ("role" ∷ []) raw ≡ none)
          × (handle_select_team client raw sv ≡ fails client "잘못된 팀 선택입니다" sv))
        ⊎ ((field : String → String) × (R.text_fields ("role" ∷ []) raw ≡ some field)
            × (((selected_role (field "role") ≡ none)
                  × (handle_select_team client raw sv ≡ fails client "잘못된 역할입니다" sv₁))
                ⊎ ((role : Role) × (selected_role (field "role") ≡ some role)
                    × IsSelected client
                        (get_player_id (client_id client sv) sv)
                        p
                        role
                        r
                        sv₁
                        (handle_select_team client raw sv))))
  unfolding handle_select_team select_role
  handle_select_team-IsSelected client raw p r sv sv₁ own there =
      elim (Option-cases (R.text_fields ("role" ∷ []) raw)) [
        | inl nothing ↦ inl (nothing, rw (nothing, handle_select_team) refl)
        | inr (field, text) ↦ elim (Option-cases (selected_role (field "role"))) [
          | inl wrong ↦
              inr (field, text, inl (wrong, rw (handle_select_team, text, own, wrong) refl))
          | inr (role, right) ↦ inr (
            field,
            text,
            inr (
              role,
              right,
              rw (handle_select_team, text, own, right)
                  (select_role-IsSelected client _ p role r sv₁ there),
            ),
          )
        ]
      ]
