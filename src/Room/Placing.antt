-- ===== src/Room/Placing.antt =====
-- What `PrepareGame` of internal/room/room.go does with the players: a spawn position for each.
use mathlib.Core.List.{Perm}
use mathlib.Core.List.Perm
use gyeongdohalsaram_server.Base.{
  ◌≡◌, refl, sym, ◌∙◌, ◌≢◌, ◌⊎◌, inl, inr, none, some, String, List, [], ◌∷◌, arith, All, Any,
  All-perm, string_eq,
}
use gyeongdohalsaram_server.Runtime.{Runtime}
use gyeongdohalsaram_server.Game.Player.{Player, set_position}
use gyeongdohalsaram_server.Game.Spawn.{Position, spawn_loop, generate_spawn_positions}
use gyeongdohalsaram_server.Room.Players.{find_player}
use gyeongdohalsaram_server.Room.Players.Lookup.{find-modify_self, find-modify_other}
use gyeongdohalsaram_server.Room.Defs.{Room, set_positions, prepare_game}

module _ ⦃R : Runtime⦄ where
  -- One of the positions is this player's, and all else is as before.
  abbrev pub StandsAt : List (String × Position) → String → Player → Player → Type 0
  StandsAt positions j p q = Any (λ e. (e.0 ≡ j) × (q ≡ set_position e.1.x e.1.y p)) positions

  -- The map of positions has a position for the player, who stands there, or it has none.
  abbrev IsMoved : List (String × Position) → String → Player → List Player → Type 0
  IsMoved positions j p ps =
      ((find_player j ps ≡ some p) × All (λ e. e.0 ≢ j) positions)
      ⊎ ((q : Player) × (find_player j ps ≡ some q) × StandsAt positions j p q)

  set_positions-IsMoved :
      (positions : List (String × Position)) (j : String) (p : Player) (ps : List Player)
      → find_player j ps ≡ some p
      → IsMoved positions j p (set_positions positions ps)
  unfolding set_positions
  set_positions-IsMoved [] j p ps e = inl (e, tt)
  set_positions-IsMoved ((id, spot) ∷ rest) j p ps e = elim (string_eq.dec id j) [
    | yes same ↦
        let moved = find-modify_self j (set_position spot.x spot.y) ps p (λ q. refl) e in
        rw same (elim (set_positions-IsMoved rest j (set_position spot.x spot.y p) _ moved) [
          | inl (there, none_left) ↦ inr (set_position spot.x spot.y p, there, inl (refl, refl))
          | inr (q, there, stands) ↦ inr (q, there, inr stands)
        ])
    | no other ↦
        let kept =
          find-modify_other j id (set_position spot.x spot.y) ps (λ q. refl) (λ h. other (sym h)) in
        elim (set_positions-IsMoved rest j p _ (kept ∙ e)) [
          | inl (there, none_left) ↦ inl (there, (other, none_left))
          | inr (q, there, stands) ↦ inr (q, there, inr stands)
        ]
  ]

  -- A player with no position is none of those for whom positions were made.
  spawn_loop-absent :
      (j : String) (ps : List Player) (placed : List Position) (s : R.Seed)
      → All (λ e. e.0 ≢ j) (spawn_loop ps placed s).0
      → All (λ p. p.id ≢ j) ps
  unfolding spawn_loop
  spawn_loop-absent j [] placed s h = tt
  spawn_loop-absent j (p ∷ ps) placed s h = (h.0, spawn_loop-absent j ps _ _ h.1)

  find_player-absent :
      (j : String) (ps : List Player) → All (λ p. p.id ≢ j) ps → find_player j ps ≡ none
  unfolding find_player
  find_player-absent j [] h = refl
  find_player-absent j (p ∷ ps) h = elim (string_eq.dec p.id j) [
    | yes same ↦ absurd (h.0 same)
    | no other ↦ ground (arith, find_player-absent j ps h.1)
  ]

  -- In some order of the players of the first room, positions are made for them, and each stands at
  -- its own in the second room and is otherwise as before.
  abbrev pub IsPlaced : Room → Room → Type 0
  IsPlaced r r' =
      (order : List Player) × (s : R.Seed) × Perm order r.players
      × ((j : String) (p : Player)
          → find_player j r.players ≡ some p
          → (q : Player) × (find_player j r'.players ≡ some q)
            × StandsAt (generate_spawn_positions order s).0 j p q)

  pub prepare_game-IsPlaced : (r : Room) (s : R.Seed) → IsPlaced r (prepare_game r s).0
  unfolding prepare_game generate_spawn_positions
  prepare_game-IsPlaced r s =
      let (order, s₁) = R.range_order s r.players in
      let drawn = R.range_order_perm s r.players in
      (
        order,
        s₁,
        drawn,
        λ j p e. elim (set_positions-IsMoved (spawn_loop order [] s₁).0 j p r.players e) [
          | inl (there, none_left) ↦ absurd (
              cc (
                e,
                find_player-absent j r.players (
                    All-perm (λ p. p.id ≢ j) (λ p. hlevel) order r.players (Perm.symm drawn)
                      (spawn_loop-absent j order [] s₁ none_left)),
              ))
          | inr moved ↦ moved
        ],
      )
