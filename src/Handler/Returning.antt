-- ===== src/Handler/Returning.antt =====
-- What `HandleReturnToLobby` of internal/handler/lobby.go does in each state of the room.
use gyeongdohalsaram_server.Base.{
  ◌≡◌, refl, ◌⊎◌, inl, inr, Bool-cases, false, none, some, String, List, [], ◌∷◌, map, arith, ◌==◌,
  string_eq,
}
use gyeongdohalsaram_server.Runtime.{Runtime}
use gyeongdohalsaram_server.Game.State.{RoomState, waiting, playing, ended}
use gyeongdohalsaram_server.Game.Player.{Player, free, reset}
use gyeongdohalsaram_server.Ws.Message.{ClientRef}
use gyeongdohalsaram_server.Room.Players.{find_player}
use gyeongdohalsaram_server.Room.Defs.{Room, reset_room}
use gyeongdohalsaram_server.Room.Manager.{get_room}
use gyeongdohalsaram_server.Room.Manager.Search.{get_room-store_room}
use gyeongdohalsaram_server.Handler.Accounts.{AccountStore}
use gyeongdohalsaram_server.Handler.Server.{Server, Step, fails, broadcast_room_info}
use gyeongdohalsaram_server.Handler.Lobby.{own_room, return_to_lobby, handle_return_to_lobby}

module _ ⦃R : Runtime⦄ where
  -- A player as before the first game, who keeps the name and the role.
  pub record IsFresh (p q : Player) : Type 0 where
    pub kept : (q.id ≡ p.id) × (q.nickname ≡ p.nickname) × (q.role ≡ p.role)
    pub free : (q.ready ≡ false) × (q.state ≡ free) × (q.last_move_time ≡ none)
    pub calm : (q.boosted ≡ false) × (q.slowed ≡ false)

  -- The room waits again, with the same players, all of them as before the first game.
  pub record IsReset (r r' : Room) : Type 0 where
    pub waits : r'.state ≡ waiting
    pub same : (r'.code ≡ r.code) × (r'.clients ≡ r.clients) × (r'.host_id ≡ r.host_id)
    pub stayed :
        (j : String) (p : Player)
        → find_player j r.players ≡ some p
        → (q : Player) × (find_player j r'.players ≡ some q) × IsFresh p q
    pub gone : (j : String) → find_player j r.players ≡ none → find_player j r'.players ≡ none

  reset-IsFresh : (p : Player) → IsFresh p (reset p)
  unfolding reset
  reset-IsFresh p = record {
    kept = (refl, refl, refl);
    free = (refl, refl, refl);
    calm = (refl, refl);
  }

  find-reset_there :
      (j : String) (p : Player) (ps : List Player)
      → find_player j ps ≡ some p
      → find_player j (map reset ps) ≡ some (reset p)
  unfolding find_player reset
  find-reset_there j p [] e = cc
  find-reset_there j p (q ∷ ps) e = elim (Bool-cases (q.id == j)) [
    | inl this ↦ ground arith
    | inr other ↦ ground (arith, find-reset_there j p ps)
  ]

  find-reset_missing :
      (j : String) (ps : List Player)
      → find_player j ps ≡ none
      → find_player j (map reset ps) ≡ none
  unfolding find_player reset
  find-reset_missing j [] e = refl
  find-reset_missing j (q ∷ ps) e = elim (Bool-cases (q.id == j)) [
    | inl this ↦ ground arith
    | inr other ↦ ground (arith, find-reset_missing j ps)
  ]

  reset_room-IsReset : (r : Room) → IsReset r (reset_room r)
  unfolding reset_room
  reset_room-IsReset r = record {
    waits = refl;
    same = (refl, refl, refl);
    stayed = λ j p e. (reset p, find-reset_there j p r.players e, reset-IsFresh p);
    gone = λ j e. find-reset_missing j r.players e;
  }

  RoomState-cases : (s : RoomState) → (s ≡ playing) ⊎ ((s ≡ waiting) ⊎ (s ≡ ended))
  RoomState-cases playing = inl refl
  RoomState-cases waiting = inr (inl refl)
  RoomState-cases ended = inr (inr refl)

module _ ⦃R : Runtime⦄ ⦃A : AccountStore⦄ where
  -- A game that is on is not left; a room that waits stays as it is, and one whose game is over is
  -- reset, and all are told.
  abbrev pub IsBack : ClientRef → Room → Server → Step → Type 0
  IsBack client r sv (sv', out) =
      ((r.state ≡ playing) × ((sv', out) ≡ fails client "게임이 아직 끝나지 않았습니다" sv))
      ⊎ (((r.state ≡ waiting)
            × (get_room r.code sv'.manager ≡ some r)
            × (out ≡ broadcast_room_info r))
          ⊎ ((r.state ≡ ended)
              × ((r' : Room) × (get_room r.code sv'.manager ≡ some r')
                  × IsReset r r'
                  × (out ≡ broadcast_room_info r'))))

  return_to_lobby-IsBack :
      (client : ClientRef) (r : Room) (sv : Server)
      → IsBack client r sv (return_to_lobby client r sv)
  unfolding return_to_lobby reset_room
  return_to_lobby-IsBack client r sv = elim (RoomState-cases r.state) [
    | inl on ↦ rw (on, return_to_lobby) (inl (refl, refl))
    | inr (inl waits) ↦
        rw (waits, return_to_lobby)
          (inr (inl (refl, get_room-store_room _ r.code sv.manager refl, refl)))
    | inr (inr over) ↦
        let r₁ : Room = record r { state = ended } in
        rw (over, return_to_lobby)
          (inr (
            inr (
              refl,
              (
                reset_room r₁,
                get_room-store_room (reset_room r₁) r.code sv.manager refl,
                reset_room-IsReset r₁,
                refl,
              ),
            )))
  ]

  -- If the client's player is in a room, `HandleReturnToLobby` answers by an error, and changes nothing
  -- but the random source, while the game is on. It leaves a room that waits as it is. After a game the
  -- room waits again with the same players, who keep their names and roles, and none of them is ready,
  -- arrested, invincible, boosted or slowed. In these two cases everybody in the room is told.
  pub handle_return_to_lobby-IsBack :
      (client : ClientRef) (raw : R.Raw) (r : Room) (sv sv₁ : Server)
      → own_room client sv ≡ (some r, sv₁)
      → IsBack client r sv₁ (handle_return_to_lobby client raw sv)
  unfolding handle_return_to_lobby
  handle_return_to_lobby-IsBack client raw r sv sv₁ own =
      rw (handle_return_to_lobby, own) (return_to_lobby-IsBack client r sv₁)
