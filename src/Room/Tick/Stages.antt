-- ===== src/Room/Tick/Stages.antt =====
-- A relation between a player before and after that holds of the parts of a stage of the tick holds
-- of the stage.
use gyeongdohalsaram_server.Base.{
  ◌≡◌, refl, inl, inr, Bool-cases, Option, none, some, String, List, [], ◌∷◌, map, Zip, Zip-refl,
  Zip-map, Zip-mono, Zip-trans,
}
use gyeongdohalsaram_server.Runtime.{Runtime}
use gyeongdohalsaram_server.Game.Constants.{tick_interval}
use gyeongdohalsaram_server.Game.Player.{Player}
use gyeongdohalsaram_server.Game.Item.{ItemManager, Kind, check_pickup}
use gyeongdohalsaram_server.Game.Item.Pickup.{Touched, pickup_loop-Touched}
use gyeongdohalsaram_server.Game.Booster.{
  booster, boost, update_boosters, check_booster_pickup, update_boost, update_player_boosts,
}
use gyeongdohalsaram_server.Game.StumbleStone.{
  stone, slow, update_stones, check_stone_pickup, update_slow, update_player_slows,
}
use gyeongdohalsaram_server.Room.Players.{modify_player}
use gyeongdohalsaram_server.Room.Players.Laws.{Zip-modify_player}
use gyeongdohalsaram_server.Room.Defs.{Room}
use gyeongdohalsaram_server.Room.Tick.{
  dt, expire_invincibility, run_items, run_boosters, run_stones, release_if_arrested, rescue_due,
  run_rescue, run_rescues,
}

module _ ⦃R : Runtime⦄ (P : Player → Player → Type 0) (same : (p : Player) → P p p)
    (compose : (p q r : Player) → P p q → P q r → P p r) where
  Zip-compose : (ps qs rs : List Player) → Zip P ps qs → Zip P qs rs → Zip P ps rs
  Zip-compose = Zip-trans P P P compose

  module _ (gauge : (p : Player) (g : R.Float) → P p (record p { rescue_gauge = g }))
      (freed : (p : Player) → P p (release_if_arrested p)) where
    run_rescue-Zip : (id : String) (ps : List Player) → Zip P ps (run_rescue id ps)
    unfolding run_rescue
    run_rescue-Zip id ps =
        let grow : Player → Player = λ p. record p { rescue_gauge = R.add p.rescue_gauge dt } in
        let zero_gauge : Player → Player = λ p. record p { rescue_gauge = R.lit 0 1 } in
        let ps' = modify_player id grow ps in
        let grown : Zip P ps ps' = Zip-modify_player P id grow same (λ p. gauge p _) ps in
        elim (Bool-cases (rescue_due id ps')) [
          | inl due ↦
              rw (due, run_rescue)
                (Zip-compose ps ps' _ grown (
                  Zip-compose ps' (map release_if_arrested ps') _
                    (Zip-map P release_if_arrested freed ps')
                    (Zip-modify_player P id zero_gauge same (λ p. gauge p _)
                      (map release_if_arrested ps'))))
          | inr early ↦ rw (early, run_rescue) grown
        ]

    pub run_rescues-Zip : (thieves ps : List Player) → Zip P ps (run_rescues thieves ps)
    unfolding run_rescues
    run_rescues-Zip [] ps = Zip-refl P same ps
    run_rescues-Zip (thief ∷ thieves) ps =
        Zip-compose ps (run_rescue thief.id ps) _ (run_rescue-Zip thief.id ps)
          (run_rescues-Zip thieves (run_rescue thief.id ps))

  pickup-Zip :
      (k : Kind)
      → ((p : Player) → (k.effect p).state ≡ p.state)
      → ((p : Player) → k.effect (k.effect p) ≡ k.effect p)
      → ((p : Player) → P p (k.effect p))
      → (m : ItemManager) (ps : List Player) → Zip P ps (check_pickup k m ps).2
  unfolding check_pickup
  pickup-Zip k state settles effect m ps =
      Zip-mono (Touched k) P
        (λ p q t. elim t [ inl e ↦ rw e (same p) | inr (_, e) ↦ rw e (effect p) ]) ps _
        (pickup_loop-Touched k state settles m.active ps)

  run_boosters-Zip :
      ((p : Player) → P p (boost p))
      → (o : Option ItemManager) (ps : List Player) (s : R.Seed) → Zip P ps (run_boosters o ps s).1
  unfolding run_boosters check_booster_pickup
  run_boosters-Zip effect none ps s = Zip-refl P same ps
  run_boosters-Zip effect (some m) ps s =
      pickup-Zip booster (λ p. refl) (λ p. refl) effect (update_boosters tick_interval m s).0 ps

  run_stones-Zip :
      ((p : Player) → P p (slow p))
      → (o : Option ItemManager) (ps : List Player) (s : R.Seed) → Zip P ps (run_stones o ps s).1
  unfolding run_stones check_stone_pickup
  run_stones-Zip effect none ps s = Zip-refl P same ps
  run_stones-Zip effect (some m) ps s =
      pickup-Zip stone (λ p. refl) (λ p. refl) effect (update_stones tick_interval m s).0 ps

  -- The stages between the expiry of invincibility and the captures, each by its effect on one player.
  pub run_items_after-Zip :
      ((p : Player) → P p (update_boost tick_interval p))
      → ((p : Player) → P p (update_slow tick_interval p))
      → ((p : Player) → P p (boost p))
      → ((p : Player) → P p (slow p))
      → (r : Room) (s : R.Seed)
      → Zip P (map expire_invincibility (R.range_order s r.players).0) (run_items r s).0.players
  unfolding run_items update_player_boosts update_player_slows
  run_items_after-Zip fade_boost fade_slow boosted slowed r s =
      let (listed, s₁) = R.range_order s r.players in
      let ps₀ = map expire_invincibility listed in
      let ps₁ = map (update_boost tick_interval) ps₀ in
      let (boosters, ps₂, s₂) = run_boosters r.boosters ps₁ s₁ in
      let ps₃ = map (update_slow tick_interval) ps₂ in
      Zip-compose ps₀ ps₁ _ (Zip-map P (update_boost tick_interval) fade_boost ps₀) (
        Zip-compose ps₁ ps₂ _ (run_boosters-Zip boosted r.boosters ps₁ s₁) (
          Zip-compose ps₂ ps₃ _ (Zip-map P (update_slow tick_interval) fade_slow ps₂)
            (run_stones-Zip slowed r.stumble_stones ps₃ s₂)))
