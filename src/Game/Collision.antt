-- ===== src/Game/Collision.antt =====
-- internal/game/collision.go.
pub mod Bounds
pub mod Pairs
use gyeongdohalsaram_server.Base.{◌-◌, Bool, ◌&&◌, List, [], ◌∷◌, ◌++◌, if◌then◌else◌}
use gyeongdohalsaram_server.Runtime.{Runtime}
use gyeongdohalsaram_server.Game.Constants.{
  map_width, map_height, player_radius, arrest_range, jail_range,
}
use gyeongdohalsaram_server.Game.Player.{Player, is_police, is_thief, is_free}

module _ ⦃R : Runtime⦄ where
  -- One coordinate of `ClampPosition`.
  unfoldable pub clamp : R.Float → R.Float → R.Float → R.Float
  clamp lo hi v = if R.lt v lo then lo else if R.lt hi v then hi else v

  unfoldable pub clamp_position : R.Float → R.Float → R.Float × R.Float
  clamp_position x y = (
    clamp (R.lit player_radius 1) (R.lit (map_width - player_radius) 1) x,
    clamp (R.lit player_radius 1) (R.lit (map_height - player_radius) 1) y,
  )

  unfoldable pub distance : R.Float → R.Float → R.Float → R.Float → R.Float
  distance x1 y1 x2 y2 =
      let dx = R.sub x1 x2 in let dy = R.sub y1 y2 in R.sqrt (R.add (R.mul dx dx) (R.mul dy dy))

  unfoldable pub in_arrest_range : Player → Player → Bool
  in_arrest_range police thief =
      R.le (distance police.x police.y thief.x thief.y) (R.lit arrest_range 1)

  unfoldable pub in_jail_range : Player → R.Float → R.Float → Bool
  in_jail_range thief jail_x jail_y =
      R.le (distance thief.x thief.y jail_x jail_y) (R.lit jail_range 1)

  -- The two slices that the first loop of `FindArrestPairs` builds.
  unfoldable pub police_of : List Player → List Player
  police_of [] = []
  police_of (p ∷ ps) = let rest = police_of ps in if is_police p.role then p ∷ rest else rest

  unfoldable pub free_thieves_of : List Player → List Player
  free_thieves_of [] = []
  free_thieves_of (p ∷ ps) =
      let rest = free_thieves_of ps in if is_thief p.role && is_free p then p ∷ rest else rest

  unfoldable pub pairs_with : Player → List Player → List (Player × Player)
  pairs_with cop [] = []
  pairs_with cop (thief ∷ thieves) =
      let rest = pairs_with cop thieves in
      if in_arrest_range cop thief then (cop, thief) ∷ rest else rest

  unfoldable pub all_pairs : List Player → List Player → List (Player × Player)
  all_pairs [] thieves = []
  all_pairs (cop ∷ cops) thieves = pairs_with cop thieves ++ all_pairs cops thieves

  unfoldable pub find_arrest_pairs : List Player → List (Player × Player)
  find_arrest_pairs players = all_pairs (police_of players) (free_thieves_of players)

  unfoldable pub find_jail_rescue_candidates : List Player → R.Float → R.Float → List Player
  find_jail_rescue_candidates [] jail_x jail_y = []
  find_jail_rescue_candidates (p ∷ ps) jail_x jail_y =
      let rest = find_jail_rescue_candidates ps jail_x jail_y in
      if is_thief p.role && is_free p && in_jail_range p jail_x jail_y then p ∷ rest else rest
