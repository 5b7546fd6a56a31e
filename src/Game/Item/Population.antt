-- ===== src/Game/Item/Population.antt =====
-- How many items there are, and their ids.
use gyeongdohalsaram_server.Base.{
  ℕ, zero, suc, ◌+◌, ◌≡◌, refl, ap, inl, inr, List, [], ◌∷◌, arith, ℤ, length, length-append,
  length-replicate, replicate, Option-cases,
}
use gyeongdohalsaram_server.Runtime.{Runtime}
use gyeongdohalsaram_server.Game.Player.{Player}
use gyeongdohalsaram_server.Game.MapObjects.{MapObject}
use gyeongdohalsaram_server.Game.Item.{
  Item, ItemManager, Kind, spawn_item, spawn_many, new_manager, run_timers, update, collect,
  pickup_loop, check_pickup,
}

-- The items on the map and those that will come back.
abbrev pub population : ⦃R : Runtime⦄ → ItemManager → ℕ
population m = length m.active + length m.respawn_queue

module _ ⦃R : Runtime⦄ where
  length-spawn_item :
      (m : ItemManager) (s : R.Seed)
      → (length (spawn_item m s).0.active ≡ length m.active + 1)
        × ((spawn_item m s).0.respawn_queue ≡ m.respawn_queue)
  unfolding spawn_item
  length-spawn_item m s = (length-append m.active _, refl)

  spawn_many-population :
      (n : ℕ) (m : ItemManager) (s : R.Seed) → population (spawn_many n m s).0 ≡ population m + n
  unfolding spawn_many
  spawn_many-population zero m s = omega arith
  spawn_many-population (suc n) m s =
      let (m', s') = spawn_item m s in
      omega (
        arith,
        spawn_many-population n m' s',
        (length-spawn_item m s).0,
        ap length (length-spawn_item m s).1,
      )

  run_timers-population :
      (ts : List ℤ) (dt : ℤ) (m : ItemManager) (s : R.Seed)
      → length (run_timers ts dt m s).0 + length (run_timers ts dt m s).1.active
        ≡ length ts + length m.active
  unfolding run_timers
  run_timers-population [] dt m s = omega arith
  run_timers-population (t ∷ ts) dt m s =
      let (m', s') = spawn_item m s in
      ground (
        arith,
        run_timers-population ts dt m' s',
        run_timers-population ts dt m s,
        (length-spawn_item m s).0,
      )

  pickup_loop-length :
      (k : Kind) (is : List Item) (ps : List Player)
      → length (pickup_loop k is ps).0 + length (pickup_loop k is ps).1 ≡ length is
  unfolding pickup_loop
  pickup_loop-length k [] ps = omega arith
  pickup_loop-length k (i ∷ is) ps = elim (Option-cases (collect k i ps)) [
    | inl e ↦ rw (e, pickup_loop) (omega (arith, pickup_loop-length k is ps))
    | inr (qs, e) ↦ rw (e, pickup_loop) (omega (arith, pickup_loop-length k is qs))
  ]

  population-update :
      (dt : ℤ) (m : ItemManager) (s : R.Seed) → population (update dt m s).0 ≡ population m
  unfolding update
  population-update dt m s = omega (arith, run_timers-population m.respawn_queue dt m s)

  population-check_pickup :
      (k : Kind) (m : ItemManager) (ps : List Player)
      → population (check_pickup k m ps).1 ≡ population m
  unfolding check_pickup
  population-check_pickup k m ps = omega (
    arith,
    pickup_loop-length k m.active ps,
    length-append m.respawn_queue (replicate (length (pickup_loop k m.active ps).0) k.respawn_time),
    length-replicate {0} (length (pickup_loop k m.active ps).0) k.respawn_time,
  )

  -- A new manager has as many items as its kind allows, all on the map. `Update` and `CheckPickup`
  -- leave the number of the items on the map and those waiting to respawn as it is, so at any time of
  -- a game it is that limit.
  pub items-population :
      (k : Kind)
      → ((objects : List MapObject) (s : R.Seed) → population (new_manager k objects s).0 ≡ k.limit)
        × ((dt : ℤ) (m : ItemManager) (s : R.Seed) → population (update dt m s).0 ≡ population m)
        × ((m : ItemManager) (ps : List Player) → population (check_pickup k m ps).1 ≡ population m)
  unfolding new_manager
  items-population k = (
    λ objects s. omega (arith, spawn_many-population k.limit _ s),
    population-update,
    population-check_pickup k,
  )
