-- ===== src/Game/Spawn/Layout.antt =====
-- What `GenerateSpawnPositions` of internal/game/spawn.go gives.
use gyeongdohalsaram_server.Base.{
  ℕ, zero, suc, ◌<◌, ◌≡◌, refl, ap, ◌↔◌, ◌⊎◌, inl, inr, true, false, Bool-cases, List, [], ◌∷◌, map,
  arith, All,
}
use gyeongdohalsaram_server.Runtime.{Runtime}
use gyeongdohalsaram_server.Game.Constants.{min_spawn_distance}
use gyeongdohalsaram_server.Game.Player.{Player}
use gyeongdohalsaram_server.Game.Collision.{distance}
use gyeongdohalsaram_server.Game.Spawn.{
  Position, random_position, is_far_enough, generate_loop, generate_position, spawn_loop,
  generate_spawn_positions,
}

module _ ⦃R : Runtime⦄ where
  spawn_loop-ids :
      (ps : List Player) (placed : List Position) (s : R.Seed)
      → map (λ e. e.0) (spawn_loop ps placed s).0 ≡ map (λ p. p.id) ps
  unfolding spawn_loop
  spawn_loop-ids [] placed s = refl
  spawn_loop-ids (p ∷ ps) placed s = ap (λ l. p.id ∷ l) (spawn_loop-ids ps _ _)

  -- `GenerateSpawnPositions` gives each player one position, in the order of the players.
  pub generate_spawn_positions-ids :
      (ps : List Player) (s : R.Seed)
      → map (λ e. e.0) (generate_spawn_positions ps s).0 ≡ map (λ p. p.id) ps
  unfolding generate_spawn_positions
  generate_spawn_positions-ids ps s = spawn_loop-ids ps [] s

  -- The position of an attempt, by how many attempts failed before it.
  abbrev position_after : R.Float → R.Float → R.Float → R.Float → ℕ → R.Seed → Position
  position_after min_x span_x min_y span_y zero s = (random_position min_x span_x min_y span_y s).0
  position_after min_x span_x min_y span_y (suc n) s =
      position_after min_x span_x min_y span_y n (random_position min_x span_x min_y span_y s).1

  -- At least the smallest distance from every position so far.
  abbrev IsApart : List Position → Position → Type 0
  IsApart placed p =
      All (λ q. R.lt (distance p.x p.y q.x q.y) (R.lit min_spawn_distance 1) ≡ false) placed

  is_far_enough_iff :
      (p : Position) (placed : List Position) → (is_far_enough p placed ≡ true) ↔ IsApart placed p
  unfolding is_far_enough
  is_far_enough_iff p [] = ((λ h. tt), (λ h. refl))
  is_far_enough_iff p (q ∷ placed) = ground (arith, is_far_enough_iff p placed)

  -- `generate_loop` either finds a position apart from the others, or none of the attempts was.
  abbrev pub Spawned :
      ℕ → R.Float → R.Float → R.Float → R.Float → List Position → R.Seed → Position → Type 0
  Spawned n min_x span_x min_y span_y placed s p =
      IsApart placed p
      ⊎ ((i : ℕ) → i < n → ¬ IsApart placed (position_after min_x span_x min_y span_y i s))

  crowded-Spawned :
      (n : ℕ) (min_x span_x min_y span_y : R.Float) (placed : List Position) (s : R.Seed)
      (p : Position)
      → (¬ IsApart placed (random_position min_x span_x min_y span_y s).0)
      → Spawned n min_x span_x min_y span_y placed (random_position min_x span_x min_y span_y s).1 p
      → Spawned (suc n) min_x span_x min_y span_y placed s p
  crowded-Spawned n min_x span_x min_y span_y placed s p this (inl apart) = inl apart
  crowded-Spawned n min_x span_x min_y span_y placed s p this (inr rest) =
      inr (elim [ zero ↦ λ lt. this | suc i ↦ λ lt. rest i (omega arith) ])

  generate_loop-Spawned :
      (n : ℕ) (min_x span_x min_y span_y : R.Float) (placed : List Position) (s : R.Seed)
      → Spawned n min_x span_x min_y span_y placed s
          (generate_loop n min_x span_x min_y span_y placed s).0
  unfolding generate_loop
  generate_loop-Spawned zero min_x span_x min_y span_y placed s = inr (λ i lt. absurd (omega arith))
  generate_loop-Spawned (suc n) min_x span_x min_y span_y placed s =
      let (p, s') = random_position min_x span_x min_y span_y s in
      let ih = generate_loop-Spawned n min_x span_x min_y span_y placed s' in
      elim (Bool-cases (is_far_enough p placed)) [
        | inl apart ↦ rw (apart, generate_loop) (inl ((is_far_enough_iff p placed).0 apart))
        | inr crowded ↦
            rw (crowded, generate_loop)
              (crowded-Spawned n min_x span_x min_y span_y placed s _
                (λ h. ground (arith, (is_far_enough_iff p placed).1 h)) ih)
      ]

  -- `generatePosition` gives a position at least the smallest distance from the others, unless a
  -- hundred positions in a row are nearer to one of them.
  pub generate_position-Spawned :
      (min_x max_x min_y max_y : R.Float) (placed : List Position) (s : R.Seed)
      → let margin = R.lit min_spawn_distance 1 in
        Spawned 100
          (R.add min_x margin)
          (R.sub (R.sub max_x margin) (R.add min_x margin))
          (R.add min_y margin)
          (R.sub (R.sub max_y margin) (R.add min_y margin))
          placed
          s
          (generate_position min_x max_x min_y max_y placed s).0
  unfolding generate_position
  generate_position-Spawned min_x max_x min_y max_y placed s =
      generate_loop-Spawned 100 _ _ _ _ placed s
