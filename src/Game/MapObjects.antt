-- ===== src/Game/MapObjects.antt =====
-- internal/game/map_objects.go.
pub mod Layout
use gyeongdohalsaram_server.Base.{
  ℕ, zero, suc, ◌+◌, ◌-◌, ◌/◌, Bool, true, List, [], ◌∷◌, ◌++◌, if◌then◌else◌,
}
use gyeongdohalsaram_server.Runtime.{Runtime}
use gyeongdohalsaram_server.Game.Constants.{
  map_width, map_height, tree_count, lake_count, jail_count, object_min_distance,
  object_spawn_radius,
}
use gyeongdohalsaram_server.Game.Collision.{distance}
use gyeongdohalsaram_server.Game.Spawn.{Position, random_position, too_close}

pub data ObjectType : Type 0 where
  tree lake jail : ObjectType

-- `objectSizes`
abbrev object_width : ObjectType → ℕ
object_width jail = 200
object_width lake = 400
object_width tree = 80

abbrev object_height : ObjectType → ℕ
object_height jail = 200
object_height lake = 300
object_height tree = 120

pub record MapObject ⦃R : Runtime⦄ : Type 0 where
  pub type : ObjectType
  pub x : R.Float
  pub y : R.Float

module _ ⦃R : Runtime⦄ where
  abbrev pub object_position : MapObject → Position
  object_position o = record { x = o.x; y = o.y }

  unfoldable pub random_spot : ObjectType → R.Seed → Position × R.Seed
  random_spot t s =
      let w = object_width t / 2 in
      let h = object_height t / 2 in
      random_position (R.lit w 1) (R.lit (map_width - (w + w)) 1) (R.lit h 1)
        (R.lit (map_height - (h + h)) 1) s

  -- The test of the map's centre.
  unfoldable pub near_center : ObjectType → R.Float → R.Float → Position → Bool
  near_center t center_x center_y pos =
      R.lt (distance pos.x pos.y center_x center_y)
        (R.lit (object_spawn_radius + object_width t / 2) 1)

  unfoldable pub place_loop :
      ℕ → ObjectType → List Position → R.Float → R.Float → R.Seed → (MapObject × Bool) × R.Seed
  place_loop zero t placed center_x center_y s =
      let (pos, s') = random_spot t s in ((record { type = t; x = pos.x; y = pos.y }, true), s')
  place_loop (suc n) t placed center_x center_y s =
      let (pos, s') = random_spot t s in
      let rest = place_loop n t placed center_x center_y s' in
      if near_center t center_x center_y pos
      then rest
      else if too_close (R.lit object_min_distance 1) pos placed
      then rest
      else ((record { type = t; x = pos.x; y = pos.y }, true), s')

  unfoldable pub place_object :
      ObjectType → List Position → R.Float → R.Float → R.Seed → (MapObject × Bool) × R.Seed
  place_object t placed center_x center_y s = place_loop 100 t placed center_x center_y s

  -- One of the three loops of `GenerateMapObjects`, over the rounds left.
  unfoldable pub place_many :
      ℕ
      → ObjectType
      → List MapObject × List Position × R.Seed
      → List MapObject × List Position × R.Seed
  place_many zero t acc = acc
  place_many (suc n) t (objects, placed, s) =
      let ((obj, placed_ok), s') =
        place_object t placed (R.lit (map_width / 2) 1) (R.lit (map_height / 2) 1) s in
      place_many n t (
        if placed_ok
        then (objects ++ (obj ∷ []), placed ++ (object_position obj ∷ []), s')
        else (objects, placed, s'))

  unfoldable pub generate_map_objects : R.Seed → List MapObject × R.Seed
  generate_map_objects s =
      let acc = place_many jail_count jail ([], [], s) in
      let acc = place_many lake_count lake acc in
      let (objects, placed, s') = place_many tree_count tree acc in (objects, s')
