-- ===== src/Handler/Leaving.antt =====
-- What is left when a player leaves, by `removePlayer` of internal/handler/lobby.go.
use gyeongdohalsaram_server.Base.{
  ◌≡◌, refl, sym, ap, subst, ◌∙◌, ◌≢◌, ◌⊎◌, inl, inr, Bool-cases, true, false, none, some, String,
  List, [], ◌∷◌, length, arith, ◌==◌, string_eq,
}
use gyeongdohalsaram_server.Runtime.{Runtime}
use gyeongdohalsaram_server.Game.Player.{Player}
use gyeongdohalsaram_server.Ws.Message.{ClientRef}
use gyeongdohalsaram_server.Room.Players.{find_player, delete_player, lookup}
use gyeongdohalsaram_server.Room.Players.Lookup.{lookup-erase_self}
use gyeongdohalsaram_server.Room.Defs.{Room, remove_player, is_empty}
use gyeongdohalsaram_server.Room.Manager.{get_room}
use gyeongdohalsaram_server.Handler.Accounts.{AccountStore}
use gyeongdohalsaram_server.Handler.Server.{
  Loop, Server, Step, client_id, get_player_id, unregister_player, broadcast_room_info,
}
use gyeongdohalsaram_server.Handler.Lobby.{own_room, leave_room, remove_client}
use gyeongdohalsaram_server.Room.Manager.Search.{get_room-store_room, get_room-remove_room}
use gyeongdohalsaram_server.Handler.Effects.{remove_client-Gone}

module _ ⦃R : Runtime⦄ where
  find-delete_self : (k : String) (ps : List Player) → find_player k (delete_player k ps) ≡ none
  unfolding find_player delete_player
  find-delete_self k [] = refl
  find-delete_self k (p ∷ ps) = elim (string_eq.dec p.id k) [
    | yes same ↦ ground (arith, find-delete_self k ps)
    | no other ↦ ground (arith, find-delete_self k ps)
  ]

  find-delete_other :
      (k j : String) (ps : List Player)
      → j ≢ k
      → find_player j (delete_player k ps) ≡ find_player j ps
  unfolding find_player delete_player
  find-delete_other k j [] n = refl
  find-delete_other k j (p ∷ ps) n = elim (string_eq.dec p.id k) [
    | yes same ↦ elim (string_eq.dec p.id j) [
      | yes e ↦ absurd (n (sym e ∙ same))
      | no n' ↦ ground (arith, find-delete_other k j ps n)
    ]
    | no other ↦ ground (arith, find-delete_other k j ps n)
  ]

  -- Nobody but this player is in the room.
  abbrev pub IsAlone : String → Room → Type 0
  IsAlone k r = (j : String) → j ≢ k → find_player j r.players ≡ none

  length_zero : (ps : List Player) → length ps ≡ 0 → ps ≡ []
  length_zero [] e = refl
  length_zero (p ∷ ps) e = absurd (omega (arith, e))

  is_empty-IsAlone :
      (k : String) (r : Room) (s : R.Seed) → is_empty (remove_player k r s).0 ≡ true → IsAlone k r
  unfolding is_empty remove_player find_player
  is_empty-IsAlone k r s e j n =
      let gone = length_zero (delete_player k r.players) (ground (arith, e)) in
      sym (find-delete_other k j r.players n) ∙ rw gone refl

module _ ⦃R : Runtime⦄ ⦃A : AccountStore⦄ where
  -- The last player takes the room along. Otherwise the room is without this player, keeps all others, and everybody in it is told.
  abbrev pub IsLeft : String → Room → List Loop → Step → Type 0
  IsLeft k r loops (sv, out) =
      (sv.loops ≡ loops)
      × ((IsAlone k r × (get_room r.code sv.manager ≡ none) × (out ≡ []))
          ⊎ ((r' : Room) × (get_room r.code sv.manager ≡ some r')
              × (find_player k r'.players ≡ none)
              × (lookup k r'.clients ≡ none)
              × ((j : String) → j ≢ k → find_player j r'.players ≡ find_player j r.players)
              × (is_empty r' ≡ false)
              × (out ≡ broadcast_room_info r')))

  leave_room-IsLeft :
      (k : String) (r : Room) (sv : Server) → IsLeft k r sv.loops (leave_room k (some r, sv))
  unfolding leave_room remove_player
  leave_room-IsLeft k r sv = elim (Bool-cases (is_empty (remove_player k r sv.seed).0)) [
    | inl nobody ↦
        rw (nobody, leave_room)
          (
            refl,
            inl (is_empty-IsAlone k r sv.seed nobody, get_room-remove_room r.code sv.manager, refl),
          )
    | inr others ↦
        rw (others, leave_room)
          (
            refl,
            inr (
              (remove_player k r sv.seed).0,
              get_room-store_room (remove_player k r sv.seed).0 r.code sv.manager refl,
              find-delete_self k r.players,
              lookup-erase_self k r.clients,
              λ j n. find-delete_other k j r.players n,
              others,
              refl,
            ),
          )
  ]

  unregister_player-IsLeft :
      (k id : String) (r : Room) (loops : List Loop) (x : Step)
      → IsLeft k r loops x
      → IsLeft k r loops (unregister_player id x.0, x.1)
  unfolding unregister_player
  unregister_player-IsLeft k id r loops (sv, out) h = h

  own_room-loops : (client : ClientRef) (sv : Server) → (own_room client sv).1.loops ≡ sv.loops
  unfolding own_room
  own_room-loops client sv = refl

  -- When a client leaves whose player is in a room, by a message or because its connection is lost, the
  -- connection has no player afterwards. If nobody else is in the room, the room is removed, and nothing
  -- is sent; otherwise it keeps all other players, who are some, without this one and its connection, and
  -- everybody in it is told. No game loop ends by this.
  pub remove_client-IsLeft :
      (client : ClientRef) (sv sv' : Server) (k : String) (r : Room)
      → get_player_id (client_id client sv) sv ≡ k
      → k ≢ ""
      → own_room client sv ≡ (some r, sv')
      → (get_player_id (client_id client sv) (remove_client client sv).0 ≡ "")
        × IsLeft k r sv.loops (remove_client client sv)
  unfolding remove_client
  remove_client-IsLeft client sv sv' k r e n found =
      let seated : (get_player_id (client_id client sv) sv == "") ≡ false = ground (arith, e, n) in
      (
        remove_client-Gone client sv,
        subst (λ loops. IsLeft k r loops (remove_client client sv))
            (sym (ap (λ x. x.1.loops) found) ∙ own_room-loops client sv)
            (rw (seated, found, e, remove_client)
              (unregister_player-IsLeft k (client_id client sv) r sv'.loops
                (leave_room k (some r, sv')) (leave_room-IsLeft k r sv'))),
      )
