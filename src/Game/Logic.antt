-- ===== src/Game/Logic.antt =====
-- internal/game/logic.go.
pub mod Winner
use gyeongdohalsaram_server.Base.{
  ℕ, ◌+◌, Bool, true, false, not, ◌&&◌, List, [], ◌∷◌, ltb, eqb, if◌then◌else◌,
}
use gyeongdohalsaram_server.Runtime.{Runtime}
use gyeongdohalsaram_server.Game.Player.{Player, is_thief, is_arrested}

module _ ⦃R : Runtime⦄ where
  -- The loop of `CheckPoliceWin`, over the two counters.
  unfoldable pub count_thieves : List Player → ℕ → ℕ → ℕ × ℕ
  count_thieves [] thief_count arrested_count = (thief_count, arrested_count)
  count_thieves (p ∷ ps) thief_count arrested_count =
      count_thieves ps (if is_thief p.role then thief_count + 1 else thief_count)
        (if is_thief p.role && is_arrested p then arrested_count + 1 else arrested_count)

  unfoldable pub check_police_win : List Player → Bool
  check_police_win players =
      let (thief_count, arrested_count) = count_thieves players 0 0 in
      ltb 0 thief_count && eqb thief_count arrested_count

  unfoldable pub any_thief_at_large : List Player → Bool
  any_thief_at_large [] = false
  any_thief_at_large (p ∷ ps) =
      if is_thief p.role && not (is_arrested p) then true else any_thief_at_large ps

  unfoldable pub check_thief_win : List Player → Bool → Bool
  check_thief_win players timer_expired =
      if not timer_expired then false else any_thief_at_large players
