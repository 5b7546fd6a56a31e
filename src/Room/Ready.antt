-- ===== src/Room/Ready.antt =====
-- When a room may start: `allReady` of internal/room/room.go.
use gyeongdohalsaram_server.Base.{
  ℕ, ◌+◌, ◌≤◌, ◌≡◌, ◌≢◌, ◌↔◌, true, List, [], ◌∷◌, arith, length, count_if, All, Any, if◌then◌else◌,
}
use gyeongdohalsaram_server.Runtime.{Runtime}
use gyeongdohalsaram_server.Game.Constants.{min_players}
use gyeongdohalsaram_server.Game.Player.{Player, role_none, police, thief, is_police, is_thief}
use gyeongdohalsaram_server.Room.Defs.{Room, all_ready_loop, all_ready}

module _ ⦃R : Runtime⦄ where
  abbrev pub IsReady : Player → Type 0
  IsReady p = (p.ready ≡ true) × (p.role ≢ role_none)

  loop_iff :
      (ps : List Player) (a b : ℕ)
      → (all_ready_loop ps a b ≡ true) ↔ (
          All IsReady ps
          × (1 ≤ a + count_if (λ p. is_police p.role) ps)
          × (1 ≤ b + count_if (λ p. is_thief p.role) ps))
  unfolding all_ready_loop
  loop_iff [] a b = ground arith
  loop_iff (p ∷ ps) a b = ground (
    arith,
    loop_iff ps (if is_police p.role then a + 1 else a) (if is_thief p.role then b + 1 else b),
  )

  officer_iff :
      (ps : List Player) → (1 ≤ count_if (λ p. is_police p.role) ps) ↔ Any (λ p. p.role ≡ police) ps
  officer_iff [] = ((λ h. absurd (omega arith)), (λ h. absurd h))
  officer_iff (p ∷ ps) = ground (arith, officer_iff ps)

  thief_iff :
      (ps : List Player) → (1 ≤ count_if (λ p. is_thief p.role) ps) ↔ Any (λ p. p.role ≡ thief) ps
  thief_iff [] = ((λ h. absurd (omega arith)), (λ h. absurd h))
  thief_iff (p ∷ ps) = ground (arith, thief_iff ps)

  -- `allReady` says yes exactly when there are enough players, each is ready and has a role, and
  -- there is an officer and a thief.
  pub all_ready_iff :
      (r : Room)
      → (all_ready r ≡ true) ↔ (
          (min_players ≤ length r.players)
          × All IsReady r.players
          × Any (λ p. p.role ≡ police) r.players
          × Any (λ p. p.role ≡ thief) r.players)
  unfolding all_ready
  all_ready_iff r =
      ground (arith, loop_iff r.players 0 0, officer_iff r.players, thief_iff r.players)
