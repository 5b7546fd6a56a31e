-- ===== src/Game/Item.antt =====
-- What internal/game/booster.go and internal/game/stumble_stone.go have in common: the two files
-- hold the same code, with other constants and another effect on the player. `Kind` holds what
-- differs. The id of an item stands for the text "boost_<id>" or "stone_<id>".
pub mod Population
pub mod Pickup
pub mod Ids
use mathlib.Core.Option
use gyeongdohalsaram_server.Base.{
  ℕ, zero, suc, ◌+◌, ◌-◌, ◌/◌, Option, none, some, List, [], ◌∷◌, ◌++◌, map, ℤ, pos, ◌-ℤ◌, leb_ℤ,
  length, replicate, if◌then◌else◌,
}
use gyeongdohalsaram_server.Runtime.{Runtime}
use gyeongdohalsaram_server.Game.Constants.{
  map_width, map_height, object_min_distance, object_spawn_radius,
}
use gyeongdohalsaram_server.Game.Player.{Player, is_arrested}
use gyeongdohalsaram_server.Game.Collision.{distance}
use gyeongdohalsaram_server.Game.Spawn.{Position, random_position, too_close}
use gyeongdohalsaram_server.Game.MapObjects.{MapObject, object_position}

pub record Item ⦃R : Runtime⦄ : Type 0 where
  pub id : ℕ
  pub x : R.Float
  pub y : R.Float

pub record ItemManager ⦃R : Runtime⦄ : Type 0 where
  pub active : List Item
  pub respawn_queue : List ℤ
  pub placed : List Position
  pub next_id : ℕ

pub record Kind ⦃R : Runtime⦄ : Type 0 where
  pub limit : ℕ
  pub pickup_range : ℕ
  pub respawn_time : ℤ
  pub effect : Player → Player

module _ ⦃R : Runtime⦄ where
  abbrev item_position : Item → Position
  item_position i = record { x = i.x; y = i.y }

  -- The loop over the attempts left. `spot` is the position of the attempt before, which stays if
  -- every attempt fails.
  unfoldable pub find_spot : ℕ → List Position → Position → R.Seed → Position × R.Seed
  find_spot zero occupied spot s = (spot, s)
  find_spot (suc n) occupied spot s =
      let (spot', s') =
        random_position (R.lit 40 1) (R.lit (map_width - 80) 1) (R.lit 40 1)
          (R.lit (map_height - 80) 1) s in
      let rest = find_spot n occupied spot' s' in
      if R.lt (distance spot'.x spot'.y (R.lit (map_width / 2) 1) (R.lit (map_height / 2) 1))
        (R.lit object_spawn_radius 1)
      then rest
      else if too_close (R.lit (object_min_distance / 2) 1) spot' occupied
      then rest
      else (spot', s')

  unfoldable pub spawn_item : ItemManager → R.Seed → ItemManager × R.Seed
  spawn_item m s =
      let id = m.next_id + 1 in
      let occupied = m.placed ++ map item_position m.active in
      let (spot, s') = find_spot 100 occupied (record { x = R.lit 0 1; y = R.lit 0 1 }) s in
      (
        record m {
          active = m.active ++ (record { id = id; x = spot.x; y = spot.y } ∷ []);
          next_id = id;
        },
        s',
      )

  unfoldable pub spawn_many : ℕ → ItemManager → R.Seed → ItemManager × R.Seed
  spawn_many zero m s = (m, s)
  spawn_many (suc n) m s = let (m', s') = spawn_item m s in spawn_many n m' s'

  unfoldable pub new_manager : Kind → List MapObject → R.Seed → ItemManager × R.Seed
  new_manager k objects s =
      spawn_many k.limit
        (record {
          active = [];
          respawn_queue = [];
          placed = map object_position objects;
          next_id = 0;
        })
        s

  abbrev keep_timer : ℤ → List ℤ × ItemManager × R.Seed → List ℤ × ItemManager × R.Seed
  keep_timer t (ts, m, s) = (t ∷ ts, m, s)

  -- The loop of `Update` over the queue: the timers that remain, and the manager.
  unfoldable pub run_timers : List ℤ → ℤ → ItemManager → R.Seed → List ℤ × ItemManager × R.Seed
  run_timers [] dt m s = ([], m, s)
  run_timers (t ∷ ts) dt m s =
      let left = t -ℤ dt in
      let respawned = (let (m', s') = spawn_item m s in run_timers ts dt m' s') in
      let kept = keep_timer left (run_timers ts dt m s) in
      if leb_ℤ left (pos 0) then respawned else kept

  unfoldable pub update : ℤ → ItemManager → R.Seed → ItemManager × R.Seed
  update dt m s =
      let (remaining, m', s') = run_timers m.respawn_queue dt m s in
      (record m' { respawn_queue = remaining }, s')

module _ ⦃R : Runtime⦄ (k : Kind) where
  -- The inner loop of `CheckPickup`: the players, if one of them collects the item.
  unfoldable pub collect : Item → List Player → Option (List Player)
  collect i [] = none
  collect i (p ∷ ps) =
      let rest = Option.map (λ qs. p ∷ qs) (collect i ps) in
      if is_arrested p
      then rest
      else if R.le (distance p.x p.y i.x i.y) (R.lit k.pickup_range 1)
      then some (k.effect p ∷ ps)
      else rest

  -- The outer loop: the ids picked, the items that remain, and the players.
  unfoldable pub pickup_loop : List Item → List Player → List ℕ × List Item × List Player
  pickup_loop [] ps = ([], [], ps)
  pickup_loop (i ∷ is) ps = elim (collect i ps) [
    | none ↦ let (picked, remaining, ps') = pickup_loop is ps in (picked, i ∷ remaining, ps')
    | some qs ↦ let (picked, remaining, ps') = pickup_loop is qs in (i.id ∷ picked, remaining, ps')
  ]

  unfoldable pub check_pickup : ItemManager → List Player → List ℕ × ItemManager × List Player
  check_pickup m ps =
      let (picked, remaining, ps') = pickup_loop m.active ps in
      (
        picked,
        record m {
          active = remaining;
          respawn_queue = m.respawn_queue ++ replicate (length picked) k.respawn_time;
        },
        ps',
      )
