-- ===== src/Game/Spawn.antt =====
-- internal/game/spawn.go. `Position` also stands for the `placedObj` of map_objects.go.
pub mod Layout
use gyeongdohalsaram_server.Base.{
  ℕ, zero, suc, ◌/◌, Bool, true, false, String, List, [], ◌∷◌, ◌++◌, if◌then◌else◌,
}
use gyeongdohalsaram_server.Runtime.{Runtime}
use gyeongdohalsaram_server.Game.Constants.{map_width, map_height, min_spawn_distance}
use gyeongdohalsaram_server.Game.Player.{Player, is_police}
use gyeongdohalsaram_server.Game.Collision.{distance}

pub record Position ⦃R : Runtime⦄ : Type 0 where
  pub x : R.Float
  pub y : R.Float

module _ ⦃R : Runtime⦄ where
  abbrev pub jail_x : R.Float
  jail_x = R.lit (map_width / 2) 1

  abbrev pub jail_y : R.Float
  jail_y = R.lit 4608 1

  -- `lo + rand.Float64()*span`
  unfoldable pub random_between : R.Float → R.Float → R.Seed → R.Float × R.Seed
  random_between lo span s = let (u, s') = R.rand_float s in (R.add lo (R.mul u span), s')

  unfoldable pub random_position :
      R.Float → R.Float → R.Float → R.Float → R.Seed → Position × R.Seed
  random_position min_x span_x min_y span_y s =
      let (x, s₁) = random_between min_x span_x s in
      let (y, s₂) = random_between min_y span_y s₁ in (record { x = x; y = y }, s₂)

  -- Whether some position of the list is nearer to `(x, y)` than the limit.
  unfoldable pub too_close : R.Float → Position → List Position → Bool
  too_close limit pos [] = false
  too_close limit pos (p ∷ ps) =
      if R.lt (distance pos.x pos.y p.x p.y) limit then true else too_close limit pos ps

  unfoldable pub is_far_enough : Position → List Position → Bool
  is_far_enough pos [] = true
  is_far_enough pos (p ∷ ps) =
      if R.lt (distance pos.x pos.y p.x p.y) (R.lit min_spawn_distance 1)
      then false
      else is_far_enough pos ps

  -- The loop of `generatePosition`, over the attempts left, and the fallback behind it.
  unfoldable pub generate_loop :
      ℕ → R.Float → R.Float → R.Float → R.Float → List Position → R.Seed → Position × R.Seed
  generate_loop zero min_x span_x min_y span_y existing s =
      random_position min_x span_x min_y span_y s
  generate_loop (suc n) min_x span_x min_y span_y existing s =
      let (pos, s') = random_position min_x span_x min_y span_y s in
      let rest = generate_loop n min_x span_x min_y span_y existing s' in
      if is_far_enough pos existing then (pos, s') else rest

  unfoldable pub generate_position :
      R.Float → R.Float → R.Float → R.Float → List Position → R.Seed → Position × R.Seed
  generate_position min_x max_x min_y max_y existing s =
      let margin = R.lit min_spawn_distance 1 in
      let adj_min_x = R.add min_x margin in
      let adj_max_x = R.sub max_x margin in
      let adj_min_y = R.add min_y margin in
      let adj_max_y = R.sub max_y margin in
      generate_loop 100 adj_min_x (R.sub adj_max_x adj_min_x) adj_min_y (R.sub adj_max_y adj_min_y)
        existing s

  -- The half of the map in which a player spawns, as its lowest and highest y.
  unfoldable pub spawn_half : Player → R.Float × R.Float
  spawn_half p =
      if is_police p.role
      then (R.lit 0 1, R.lit (map_height / 2) 1)
      else (R.lit (map_height / 2) 1, R.lit map_height 1)

  unfoldable pub spawn_loop :
      List Player → List Position → R.Seed → List (String × Position) × R.Seed
  spawn_loop [] placed s = ([], s)
  spawn_loop (p ∷ ps) placed s =
      let (min_y, max_y) = spawn_half p in
      let (pos, s₁) = generate_position (R.lit 0 1) (R.lit map_width 1) min_y max_y placed s in
      let (rest, s₂) = spawn_loop ps (placed ++ (pos ∷ [])) s₁ in ((p.id, pos) ∷ rest, s₂)

  unfoldable pub generate_spawn_positions : List Player → R.Seed → List (String × Position) × R.Seed
  generate_spawn_positions players s = spawn_loop players [] s
