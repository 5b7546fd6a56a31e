-- ===== src/Room/Live.antt =====
-- The rooms that the manager of internal/room keeps: valid, and with a player in them.
use native.Mathlib.Bridge.{le_prop}
use mathlib.Core.List.{Mem-prop, Pairwise-prop}
use gyeongdohalsaram_server.Base.{
  ◌<◌, ◌≡◌, refl, sym, ◌∙◌, subst, inl, inr, true, false, Bool-cases, String, List, [], ◌∷◌, arith,
  length, length-map, length-perm, length-Zip, leb, string_eq,
}
use gyeongdohalsaram_server.Runtime.{Runtime}
use gyeongdohalsaram_server.Game.Constants.{max_players}
use gyeongdohalsaram_server.Game.State.{WinResult}
use gyeongdohalsaram_server.Game.Player.{Player, Role, role_none, set_role, set_position, reset}
use gyeongdohalsaram_server.Game.Spawn.{Position}
use gyeongdohalsaram_server.Ws.Message.{ClientRef}
use gyeongdohalsaram_server.Room.Players.{modify_player, put_player}
use gyeongdohalsaram_server.Room.Defs.{
  Room, is_playing, add_player, remove_player, can_select_role, toggle_player_ready, is_empty,
  reset_room, set_positions, prepare_game,
}
use gyeongdohalsaram_server.Room.Tick.{advance}
use gyeongdohalsaram_server.Room.Tick.Same.{advance-Same}
use gyeongdohalsaram_server.Room.Invariant.{
  IsValid, add_player-IsValid, remove_player-IsValid, toggle_player_ready-IsValid,
  reset_room-IsValid, prepare_game-IsValid, advance-IsValid,
}
use gyeongdohalsaram_server.Room.Invariant.Roles.{set_role-IsValid}
use gyeongdohalsaram_server.Room.Ending.{stopped, stopped-IsValid}

module _ ⦃R : Runtime⦄ where
  abbrev pub IsLive : Room → Type 0
  IsLive r = IsValid r × (0 < length r.players)

  pub IsLive-prop : (r : Room) → IsProp (IsLive r)
  IsLive-prop r = hlevel (le_prop, Mem-prop, Pairwise-prop)

  pub length-modify_player :
      (k : String) (f : Player → Player) (ps : List Player)
      → length (modify_player k f ps) ≡ length ps
  unfolding modify_player
  length-modify_player k f [] = refl
  length-modify_player k f (p ∷ ps) = omega (arith, length-modify_player k f ps)

  length-set_positions :
      (positions : List (String × Position)) (ps : List Player)
      → length (set_positions positions ps) ≡ length ps
  unfolding set_positions
  length-set_positions [] ps = refl
  length-set_positions ((id, spot) ∷ rest) ps =
      length-set_positions rest _ ∙ length-modify_player id (set_position spot.x spot.y) ps

  length-advance : (r : Room) (s : R.Seed) → length (advance r s).0.players ≡ length r.players
  length-advance r s =
      length-Zip _ _ _ (advance-Same r s) ∙ length-perm (R.range_order_perm s r.players)

  put_player-some : (p : Player) (ps : List Player) → 0 < length (put_player p ps)
  unfolding put_player
  put_player-some p [] = omega arith
  put_player-some p (q ∷ ps) = ground arith

  -- A valid room has a player once one has been added to it.
  pub add_player-IsLive :
      (p : Player) (c : ClientRef) (r : Room)
      → p.role ≡ role_none
      → IsValid r
      → IsLive (add_player p c r).0
  unfolding add_player
  add_player-IsLive p c r role v = (
    add_player-IsValid p c r role v,
    elim (Bool-cases (leb max_players (length r.players))) [
      | inl full ↦ rw (full, add_player) (ground arith)
      | inr room ↦ rw (room, add_player) (put_player-some p r.players)
    ],
  )

  pub remove_player-IsLive :
      (k : String) (r : Room) (s : R.Seed)
      → is_empty (remove_player k r s).0 ≡ false
      → IsValid r
      → IsLive (remove_player k r s).0
  unfolding is_empty
  remove_player-IsLive k r s some_left v = (remove_player-IsValid k r s v, ground arith)

  pub toggle_player_ready-IsLive :
      (k : String) (r : Room) → IsLive r → IsLive (toggle_player_ready k r).0
  unfolding toggle_player_ready
  toggle_player_ready-IsLive k r v = (
    toggle_player_ready-IsValid k r v.0,
    subst (λ n. 0 < n) (sym (length-modify_player k _ r.players)) v.1,
  )

  pub reset_room-IsLive : (r : Room) → IsLive r → IsLive (reset_room r)
  unfolding reset_room
  reset_room-IsLive r v =
      (reset_room-IsValid r v.0, subst (λ n. 0 < n) (sym (length-map reset r.players)) v.1)

  pub prepare_game-IsLive : (r : Room) (s : R.Seed) → IsLive r → IsLive (prepare_game r s).0
  unfolding prepare_game
  prepare_game-IsLive r s v = (
    prepare_game-IsValid r s v.0,
    subst (λ n. 0 < n) (sym (length-set_positions _ r.players)) v.1,
  )

  pub set_role-IsLive :
      (k : String) (role : Role) (r : Room)
      → can_select_role role r ≡ true
      → IsLive r
      → IsLive (record r { players = modify_player k (set_role role) r.players })
  set_role-IsLive k role r free v = (
    set_role-IsValid k role r free v.0,
    subst (λ n. 0 < n) (sym (length-modify_player k (set_role role) r.players)) v.1,
  )

  pub advance-IsLive : (r : Room) (s : R.Seed) → IsLive r → IsLive (advance r s).0
  advance-IsLive r s v =
      (advance-IsValid r s v.0, subst (λ n. 0 < n) (sym (length-advance r s)) v.1)

  pub stopped-IsLive : (result : WinResult) (r : Room) → IsLive r → IsLive (stopped result r).0
  stopped-IsLive result r v = (
    stopped-IsValid result r v.0,
    elim (Bool-cases (is_playing r.state)) [ inl on ↦ rw on v.1 | inr off ↦ rw off v.1 ],
  )
