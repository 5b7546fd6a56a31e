-- ===== src/Game/MapObjects/Layout.antt =====
-- What `GenerateMapObjects` of internal/game/map_objects.go puts on the map.
use mathlib.Core.List.{map-append, append_assoc, append-nil}
use gyeongdohalsaram_server.Base.{
  ℕ, zero, suc, ◌≡◌, refl, sym, ◌∙◌, ◌⊎◌, inl, inr, true, false, Bool-cases, List, [], ◌∷◌, ◌++◌,
  map, arith, replicate, All, ◌↔◌, ◌/◌, ◌<◌,
}
use gyeongdohalsaram_server.Runtime.{Runtime}
use gyeongdohalsaram_server.Game.Constants.{
  map_width, map_height, tree_count, lake_count, jail_count, object_min_distance,
}
use gyeongdohalsaram_server.Game.Collision.{distance}
use gyeongdohalsaram_server.Game.Spawn.{Position, too_close}
use gyeongdohalsaram_server.Game.MapObjects.{
  ObjectType, tree, lake, jail, MapObject, object_position, random_spot, near_center, place_loop,
  place_object, place_many, generate_map_objects,
}

module _ ⦃R : Runtime⦄ where
  abbrev pub types : List MapObject → List ObjectType
  types os = map (λ o. o.type) os

  place_loop_lem :
      (n : ℕ) (t : ObjectType) (placed : List Position) (cx cy : R.Float) (s : R.Seed)
      → ((place_loop n t placed cx cy s).0.1 ≡ true)
        × ((place_loop n t placed cx cy s).0.0.type ≡ t)
  unfolding place_loop
  place_loop_lem zero t placed cx cy s = (refl, refl)
  place_loop_lem (suc n) t placed cx cy s =
      ground (arith, place_loop_lem n t placed cx cy (random_spot t s).1)

  place_many-types :
      (n : ℕ) (t : ObjectType) (os : List MapObject) (placed : List Position) (s : R.Seed)
      → types (place_many n t (os, placed, s)).0 ≡ types os ++ replicate n t
  unfolding place_many place_object
  place_many-types zero t os placed s = sym (append-nil (types os))
  place_many-types (suc n) t os placed s =
      let x = place_loop 100 t placed (R.lit (map_width / 2) 1) (R.lit (map_height / 2) 1) s in
      let (ok, type) =
        place_loop_lem 100 t placed (R.lit (map_width / 2) 1) (R.lit (map_height / 2) 1) s in
      rw (ok, place_many)
        (place_many-types n t (os ++ (x.0.0 ∷ [])) (placed ++ (object_position x.0.0 ∷ [])) x.1
          ∙ rw
              (
                map-append (λ (o : MapObject). o.type) os (x.0.0 ∷ []),
                type,
                append_assoc (types os) (t ∷ []) (replicate n t),
              )
              refl)

  -- `GenerateMapObjects` makes one jail, two lakes and ten trees, in this order.
  pub generate_map_objects-types :
      (s : R.Seed)
      → types (generate_map_objects s).0
        ≡ replicate jail_count jail ++ (replicate lake_count lake ++ replicate tree_count tree)
  unfolding generate_map_objects
  generate_map_objects-types s =
      let (os₁, placed₁, s₁) = place_many jail_count jail ([], [], s) in
      let (os₂, placed₂, s₂) = place_many lake_count lake (os₁, placed₁, s₁) in
      place_many-types tree_count tree os₂ placed₂ s₂
      ∙ rw
          (
            place_many-types lake_count lake os₁ placed₁ s₁,
            place_many-types jail_count jail [] [] s,
          )
          refl

  -- The spot of an attempt, by how many attempts failed before it.
  abbrev spot_after : ObjectType → ℕ → R.Seed → Position
  spot_after t zero s = (random_spot t s).0
  spot_after t (suc n) s = spot_after t n (random_spot t s).1

  -- Far enough from the centre and from every object so far.
  abbrev IsClear : ObjectType → List Position → R.Float → R.Float → Position → Type 0
  IsClear t placed cx cy p =
      (near_center t cx cy p ≡ false)
      × All (λ q. R.lt (distance p.x p.y q.x q.y) (R.lit object_min_distance 1) ≡ false) placed

  too_close_iff :
      (limit : R.Float) (p : Position) (placed : List Position)
      → (too_close limit p placed ≡ false)
        ↔ All (λ q. R.lt (distance p.x p.y q.x q.y) limit ≡ false) placed
  unfolding too_close
  too_close_iff limit p [] = ((λ h. tt), (λ h. refl))
  too_close_iff limit p (q ∷ placed) = ground (arith, too_close_iff limit p placed)

  abbrev NoClear : ℕ → ObjectType → List Position → R.Float → R.Float → R.Seed → Type 0
  NoClear n t placed cx cy s = (i : ℕ) → i < n → ¬ IsClear t placed cx cy (spot_after t i s)

  more_blocked :
      (n : ℕ) (t : ObjectType) (placed : List Position) (cx cy : R.Float) (s : R.Seed)
      → (¬ IsClear t placed cx cy (random_spot t s).0)
      → NoClear n t placed cx cy (random_spot t s).1
      → NoClear (suc n) t placed cx cy s
  more_blocked n t placed cx cy s this rest zero lt = this
  more_blocked n t placed cx cy s this rest (suc i) lt = rest i (omega arith)

  abbrev pub Placed :
      ℕ → ObjectType → List Position → R.Float → R.Float → R.Seed → MapObject → Type 0
  Placed n t placed cx cy s o =
      IsClear t placed cx cy (object_position o) ⊎ NoClear n t placed cx cy s

  blocked-Placed :
      (n : ℕ) (t : ObjectType) (placed : List Position) (cx cy : R.Float) (s : R.Seed)
      (o : MapObject)
      → (¬ IsClear t placed cx cy (random_spot t s).0)
      → Placed n t placed cx cy (random_spot t s).1 o
      → Placed (suc n) t placed cx cy s o
  blocked-Placed n t placed cx cy s o this (inl clear) = inl clear
  blocked-Placed n t placed cx cy s o this (inr rest) =
      inr (more_blocked n t placed cx cy s this rest)

  place_loop-Placed :
      (n : ℕ) (t : ObjectType) (placed : List Position) (cx cy : R.Float) (s : R.Seed)
      → Placed n t placed cx cy s (place_loop n t placed cx cy s).0.0
  unfolding place_loop
  place_loop-Placed zero t placed cx cy s = inr (λ i lt. absurd (omega arith))
  place_loop-Placed (suc n) t placed cx cy s =
      let p = (random_spot t s).0 in
      let ih = place_loop-Placed n t placed cx cy (random_spot t s).1 in
      elim (Bool-cases (near_center t cx cy p)) [
        | inl near ↦
            rw (near, place_loop)
              (blocked-Placed n t placed cx cy s
                (place_loop n t placed cx cy (random_spot t s).1).0.0 (λ h. ground (arith, h.0)) ih)
        | inr far ↦ elim (Bool-cases (too_close (R.lit object_min_distance 1) p placed)) [
          | inl close ↦
              rw (far, close, place_loop)
                (blocked-Placed n t placed cx cy s
                  (place_loop n t placed cx cy (random_spot t s).1).0.0
                  (λ h.
                    ground (arith, (too_close_iff (R.lit object_min_distance 1) p placed).1 h.1))
                  ih)
          | inr clear ↦ rw (far, clear, place_loop) (inl (far, (too_close_iff _ p placed).0 clear))
        ]
      ]

  -- `placeObject` puts an object far enough from the centre of the map and from the objects so far,
  -- unless a hundred spots in a row are too near; and it always puts one.
  pub place_object-Placed :
      (t : ObjectType) (placed : List Position) (cx cy : R.Float) (s : R.Seed)
      → ((place_object t placed cx cy s).0.1 ≡ true)
        × ((place_object t placed cx cy s).0.0.type ≡ t)
        × Placed 100 t placed cx cy s (place_object t placed cx cy s).0.0
  unfolding place_object
  place_object-Placed t placed cx cy s =
      let (ok, type) = place_loop_lem 100 t placed cx cy s in
      (ok, type, place_loop-Placed 100 t placed cx cy s)
