-- ===== src/Tests/Rules.antt =====
-- The theorems on the rules of the game, at concrete inputs.
use mathlib.Core.List.{Mem, Perm}
use gyeongdohalsaram_server.Base.{
  ◌≡◌, refl, ◌↔◌, true, not, [], ◌∷◌, ◌++◌, map, pos, arith, All, Any,
}
use gyeongdohalsaram_server.Game.Player.{police, thief, free}
use gyeongdohalsaram_server.Game.Collision.{clamp_position, find_arrest_pairs, in_arrest_range}
use gyeongdohalsaram_server.Game.Collision.Bounds.{IsWithin, clamp_position_bounds}
use gyeongdohalsaram_server.Game.Collision.Pairs.{find_arrest_pairs_iff}
use gyeongdohalsaram_server.Game.Logic.{check_police_win, check_thief_win}
use gyeongdohalsaram_server.Game.Logic.Winner.{
  IsThief, IsCaught, check_police_win_iff, check_thief_win_iff,
}
use gyeongdohalsaram_server.Game.Item.{ItemManager, collect, check_pickup}
use gyeongdohalsaram_server.Game.Item.Pickup.{Collects, collect-Collects, check_pickup-perm}
use gyeongdohalsaram_server.Game.Booster.{booster}
use gyeongdohalsaram_server.Tests.Exact.{exact}
use gyeongdohalsaram_server.Tests.Sample.{ann, bob}

-- A corner off the map is put where the circle of a player fits.
clamp_position_bounds_example : IsWithin 50 3190 (clamp_position (10, 1) (9000, 1)).0
clamp_position_bounds_example = (clamp_position_bounds (10, 1) (9000, 1) refl refl).0

find_arrest_pairs_iff_example : Mem (ann, bob) (find_arrest_pairs (ann ∷ bob ∷ [])) ↔ (
    Mem ann (ann ∷ bob ∷ [])
    × (ann.role ≡ police)
    × Mem bob (ann ∷ bob ∷ [])
    × (bob.role ≡ thief)
    × (bob.state ≡ free)
    × (in_arrest_range ann bob ≡ true))
find_arrest_pairs_iff_example = find_arrest_pairs_iff (ann ∷ bob ∷ []) ann bob

check_police_win_iff_example :
    (check_police_win (ann ∷ bob ∷ []) ≡ true)
    ↔ (Any IsThief (ann ∷ bob ∷ []) × All IsCaught (ann ∷ bob ∷ []))
check_police_win_iff_example = check_police_win_iff (ann ∷ bob ∷ [])

check_thief_win_iff_example :
    check_thief_win (ann ∷ bob ∷ []) true ≡ not (check_police_win (ann ∷ bob ∷ []))
check_thief_win_iff_example = (check_thief_win_iff (ann ∷ bob ∷ []) true).1 (ground arith)

-- Two items on the map and one to come.
abbrev items : ItemManager
items = record {
  active =
      record { id = 1; x = (1000, 1); y = (1000, 1) }
      ∷ record { id = 3; x = (5, 1); y = (5, 1) }
      ∷ [];
  respawn_queue = pos 40_000_000 ∷ [];
  placed = [];
  next_id = 3;
}

collect-Collects_example :
    Collects booster
      (record { id = 1; x = (1000, 1); y = (1000, 1) })
      (ann ∷ bob ∷ [])
      (collect booster (record { id = 1; x = (1000, 1); y = (1000, 1) }) (ann ∷ bob ∷ []))
collect-Collects_example =
    collect-Collects booster (record { id = 1; x = (1000, 1); y = (1000, 1) }) (ann ∷ bob ∷ [])

check_pickup-perm_example : Perm (1 ∷ 3 ∷ []) (
    (check_pickup booster items (ann ∷ [])).0
    ++ map (λ i. i.id) (check_pickup booster items (ann ∷ [])).1.active)
check_pickup-perm_example = (check_pickup-perm booster items (ann ∷ [])).0
