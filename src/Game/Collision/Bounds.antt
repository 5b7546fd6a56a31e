-- ===== src/Game/Collision/Bounds.antt =====
-- Where `ClampPosition` of internal/game/collision.go puts a position.
use gyeongdohalsaram_server.Base.{ℕ, ◌-◌, ◌≤◌, ◌≡◌, true, false, arith}
use gyeongdohalsaram_server.Runtime.{Runtime}
use gyeongdohalsaram_server.Game.Constants.{map_width, map_height, player_radius}
use gyeongdohalsaram_server.Game.Collision.{clamp, clamp_position}

module _ ⦃R : Runtime⦄ where
  abbrev pub IsWithin : ℕ → ℕ → R.Float → Type 0
  IsWithin lo hi v = (R.le (R.lit lo 1) v ≡ true) × (R.le v (R.lit hi 1) ≡ true)

  clamp-IsWithin :
      (lo hi : ℕ) (v : R.Float)
      → lo ≤ hi
      → R.is_nan v ≡ false
      → IsWithin lo hi (clamp (R.lit lo 1) (R.lit hi 1) v)
  unfolding clamp
  clamp-IsWithin lo hi v h finite = ground (
    arith,
    R.lit_mono lo 1 lo 1 (omega arith) (omega arith) (omega arith),
    R.lit_mono lo 1 hi 1 (omega arith) (omega arith) (omega arith),
    R.lit_mono hi 1 hi 1 (omega arith) (omega arith) (omega arith),
    R.lit_finite lo 1 (omega arith),
    R.lit_finite hi 1 (omega arith),
    R.le_of_not_lt v (R.lit lo 1),
    R.le_of_not_lt (R.lit hi 1) v,
  )

  clamp_self : (lo hi v : R.Float) → R.lt v lo ≡ false → R.lt hi v ≡ false → clamp lo hi v ≡ v
  unfolding clamp
  clamp_self lo hi v a b = rw (a, b)

  -- A position with two numbers for coordinates is put where a player's circle lies on the map, at
  -- least 50 pixels from each edge, and one that is there already, with neither coordinate beyond its
  -- bound, stays as it is.
  pub clamp_position_bounds :
      (x y : R.Float)
      → R.is_nan x ≡ false
      → R.is_nan y ≡ false
      → IsWithin player_radius (map_width - player_radius) (clamp_position x y).0
        × IsWithin player_radius (map_height - player_radius) (clamp_position x y).1
        × (R.lt x (R.lit player_radius 1) ≡ false
            → R.lt (R.lit (map_width - player_radius) 1) x ≡ false
            → (clamp_position x y).0 ≡ x)
  unfolding clamp_position
  clamp_position_bounds x y hx hy = (
    clamp-IsWithin player_radius (map_width - player_radius) x (omega arith) hx,
    clamp-IsWithin player_radius (map_height - player_radius) y (omega arith) hy,
    λ a b. clamp_self _ _ x a b,
  )
