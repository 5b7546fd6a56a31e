-- ===== src/Game/Logic/Winner.antt =====
-- What `CheckPoliceWin` and `CheckThiefWin` of internal/game/logic.go decide.
use gyeongdohalsaram_server.Base.{
  ℕ, ◌+◌, ◌≤◌, ◌<◌, ◌≡◌, ◌↔◌, ◌≢◌, Bool, true, false, List, [], ◌∷◌, arith, count_if, All, Any,
  ◌&&◌, not, if◌then◌else◌,
}
use gyeongdohalsaram_server.Runtime.{Runtime}
use gyeongdohalsaram_server.Game.Player.{Player, thief, arrested, is_thief, is_arrested}
use gyeongdohalsaram_server.Game.Logic.{
  count_thieves, check_police_win, any_thief_at_large, check_thief_win,
}

module _ ⦃R : Runtime⦄ where
  abbrev pub IsThief : Player → Type 0
  IsThief p = p.role ≡ thief

  abbrev pub IsCaught : Player → Type 0
  IsCaught p = IsThief p → p.state ≡ arrested

  abbrev IsAtLarge : Player → Type 0
  IsAtLarge p = (p.role ≡ thief) × (p.state ≢ arrested)

  count_thieves-add :
      (ps : List Player) (t a : ℕ)
      → ((count_thieves ps t a).0 ≡ t + count_if (λ p. is_thief p.role) ps)
        × ((count_thieves ps t a).1 ≡ a + count_if (λ p. is_thief p.role && is_arrested p) ps)
  unfolding count_thieves
  count_thieves-add [] t a = omega arith
  count_thieves-add (p ∷ ps) t a = ground (
    arith,
    count_thieves-add ps (if is_thief p.role then t + 1 else t)
        (if is_thief p.role && is_arrested p then a + 1 else a),
  )

  any_thief_at_large_iff : (ps : List Player) → (any_thief_at_large ps ≡ true) ↔ Any IsAtLarge ps
  unfolding any_thief_at_large
  any_thief_at_large_iff [] = ((λ h. cc), (λ h. absurd h))
  any_thief_at_large_iff (p ∷ ps) = ground (arith, any_thief_at_large_iff ps)

  counts-IsCaught :
      (ps : List Player)
      → (count_if (λ p. is_thief p.role && is_arrested p) ps ≤ count_if (λ p. is_thief p.role) ps)
        × ((count_if (λ p. is_thief p.role) ps
              ≡ count_if (λ p. is_thief p.role && is_arrested p) ps)
            ↔ All IsCaught ps)
        × ((0 < count_if (λ p. is_thief p.role) ps) ↔ Any IsThief ps)
  counts-IsCaught [] = ground arith
  counts-IsCaught (p ∷ ps) = ground (arith, counts-IsCaught ps)

  -- `CheckPoliceWin` answers yes exactly when there is a thief and every thief is arrested.
  pub check_police_win_iff :
      (ps : List Player) → (check_police_win ps ≡ true) ↔ (Any IsThief ps × All IsCaught ps)
  unfolding check_police_win
  check_police_win_iff ps = ground (arith, count_thieves-add ps 0 0, counts-IsCaught ps)

  at_large_none : (ps : List Player) → (any_thief_at_large ps ≡ false) ↔ All IsCaught ps
  unfolding any_thief_at_large
  at_large_none [] = ground arith
  at_large_none (p ∷ ps) = ground (arith, at_large_none ps)

  -- `CheckThiefWin` answers yes exactly when the time is up and some thief is not arrested. So while
  -- the game has a thief, it and `CheckPoliceWin` decide every game whose time is up, one of them alone.
  pub check_thief_win_iff :
      (ps : List Player) (expired : Bool)
      → ((check_thief_win ps expired ≡ true) ↔ ((expired ≡ true) × Any IsAtLarge ps))
        × (Any IsThief ps → check_thief_win ps true ≡ not (check_police_win ps))
  unfolding check_thief_win
  check_thief_win_iff ps expired = (
    ground (arith, any_thief_at_large_iff ps),
    λ h. ground (arith, check_police_win_iff ps, at_large_none ps, h),
  )
