-- ===== src/Game/Item/Ids.antt =====
-- The ids of the items on the map.
use gyeongdohalsaram_server.Base.{
  ℕ, zero, suc, ◌≤◌, ◌<◌, inl, inr, List, [], ◌∷◌, ◌++◌, arith, ℤ, Option-cases,
}
use gyeongdohalsaram_server.Runtime.{Runtime}
use gyeongdohalsaram_server.Game.Player.{Player}
use gyeongdohalsaram_server.Game.MapObjects.{MapObject}
use gyeongdohalsaram_server.Game.Item.{
  Item, ItemManager, Kind, spawn_item, spawn_many, new_manager, run_timers, update, collect,
  pickup_loop, check_pickup,
}

module _ ⦃R : Runtime⦄ where
  -- The ids rise strictly along the list, above one number and up to another.
  abbrev IdsRise : ℕ → List Item → ℕ → Type 0
  IdsRise lo [] hi = lo ≤ hi
  IdsRise lo (i ∷ is) hi = (lo < i.id) × IdsRise i.id is hi

  abbrev pub IsNumbered : ItemManager → Type 0
  IsNumbered m = IdsRise 0 m.active m.next_id

  IdsRise-append :
      (lo hi : ℕ) (is : List Item) (i : Item)
      → IdsRise lo is hi
      → hi < i.id
      → IdsRise lo (is ++ (i ∷ [])) i.id
  IdsRise-append lo hi [] i h k = omega arith
  IdsRise-append lo hi (j ∷ is) i h k = (h.0, IdsRise-append j.id hi is i h.1 k)

  IdsRise-mono : (lo lo' hi : ℕ) (is : List Item) → lo' ≤ lo → IdsRise lo is hi → IdsRise lo' is hi
  IdsRise-mono lo lo' hi [] h k = omega arith
  IdsRise-mono lo lo' hi (j ∷ is) h k = (omega arith, k.1)

  spawn_item-IsNumbered :
      (m : ItemManager) (s : R.Seed) → IsNumbered m → IsNumbered (spawn_item m s).0
  unfolding spawn_item
  spawn_item-IsNumbered m s h = IdsRise-append 0 m.next_id m.active _ h (omega arith)

  spawn_many-IsNumbered :
      (n : ℕ) (m : ItemManager) (s : R.Seed) → IsNumbered m → IsNumbered (spawn_many n m s).0
  unfolding spawn_many
  spawn_many-IsNumbered zero m s h = h
  spawn_many-IsNumbered (suc n) m s h =
      let (m', s') = spawn_item m s in spawn_many-IsNumbered n m' s' (spawn_item-IsNumbered m s h)

  run_timers-IsNumbered :
      (ts : List ℤ) (dt : ℤ) (m : ItemManager) (s : R.Seed)
      → IsNumbered m
      → IsNumbered (run_timers ts dt m s).1
  unfolding run_timers
  run_timers-IsNumbered [] dt m s h = h
  run_timers-IsNumbered (t ∷ ts) dt m s h =
      let (m', s') = spawn_item m s in
      ground (
        arith,
        run_timers-IsNumbered ts dt m' s' (spawn_item-IsNumbered m s h),
        run_timers-IsNumbered ts dt m s h,
      )

  pickup_loop-IdsRise :
      (k : Kind) (lo hi : ℕ) (is : List Item) (ps : List Player)
      → IdsRise lo is hi
      → IdsRise lo (pickup_loop k is ps).1 hi
  unfolding pickup_loop
  pickup_loop-IdsRise k lo hi [] ps h = h
  pickup_loop-IdsRise k lo hi (i ∷ is) ps h = elim (Option-cases (collect k i ps)) [
    | inl e ↦ rw (e, pickup_loop) (h.0, pickup_loop-IdsRise k i.id hi is ps h.1)
    | inr (qs, e) ↦
        rw (e, pickup_loop)
          (IdsRise-mono i.id lo hi (pickup_loop k is qs).1 (omega arith)
            (pickup_loop-IdsRise k i.id hi is qs h.1))
  ]

  -- The items of a new manager are numbered in order, and `Update` and `CheckPickup` keep it so: at
  -- any time the ids on the map are distinct, and none is larger than the number of items made so far.
  pub items-IsNumbered :
      (k : Kind)
      → ((objects : List MapObject) (s : R.Seed) → IsNumbered (new_manager k objects s).0)
        × ((dt : ℤ) (m : ItemManager) (s : R.Seed) → IsNumbered m → IsNumbered (update dt m s).0)
        × ((m : ItemManager) (ps : List Player) → IsNumbered m → IsNumbered (check_pickup k m ps).1)
  unfolding new_manager update check_pickup
  items-IsNumbered k = (
    λ objects s. spawn_many-IsNumbered k.limit _ s (omega arith),
    λ dt m s h. run_timers-IsNumbered m.respawn_queue dt m s h,
    λ m ps h. pickup_loop-IdsRise k 0 m.next_id m.active ps h,
  )
