-- ===== src/Game/Item/Pickup.antt =====
-- Who collects an item, and what that does to the players.
use mathlib.Core.List.{Perm, perm_middle}
use mathlib.Core.List.Perm
use mathlib.Core.Option
use gyeongdohalsaram_server.Base.{
  ◌≡◌, subst, refl, sym, ap, ◌≢◌, ◌⊎◌, inl, inr, true, false, Option, none, some, List, [], ◌∷◌,
  ◌++◌, map, arith, All, Zip, Zip-refl, Zip-trans, Option-cases, Bool-cases, length, replicate, ◌∙◌,
}
use gyeongdohalsaram_server.Runtime.{Runtime}
use gyeongdohalsaram_server.Game.Player.{Player, arrested, is_arrested}
use gyeongdohalsaram_server.Game.Collision.{distance}
use gyeongdohalsaram_server.Game.Item.{Item, ItemManager, Kind, collect, pickup_loop, check_pickup}

module _ ⦃R : Runtime⦄ (k : Kind) where
  abbrev CanReach : Item → Player → Type 0
  CanReach i p =
      (p.state ≢ arrested) × (R.le (distance p.x p.y i.x i.y) (R.lit k.pickup_range 1) ≡ true)

  -- Either no player can reach the item and nobody collects it, or the first player of the list who
  -- can does: the effect comes on that player alone.
  abbrev pub Collects : Item → List Player → Option (List Player) → Type 0
  Collects i ps r =
      (All (λ p. ¬ CanReach i p) ps × (r ≡ none))
      ⊎ ((before : List Player) × (p : Player) × (after : List Player) × (ps
            ≡ before ++ (p ∷ after))
          × All (λ q. ¬ CanReach i q) before
          × CanReach i p
          × (r ≡ some (before ++ (k.effect p ∷ after))))

  Collects-cons :
      (i : Item) (p : Player) (ps : List Player)
      → ¬ CanReach i p
      → Collects i ps (collect k i ps)
      → Collects i (p ∷ ps) (Option.map (λ qs. p ∷ qs) (collect k i ps))
  Collects-cons i p ps far (inl (all_far, e)) = inl ((far, all_far), rw e)
  Collects-cons i p ps far (inr (before, q, after, split, all_far, near, e)) =
      inr (p ∷ before, q, after, ap (λ qs. p ∷ qs) split, (far, all_far), near, rw e)

  collect_nil : (i : Item) → collect k i [] ≡ none
  unfolding collect
  collect_nil i = refl

  collect_far :
      (i : Item) (p : Player) (ps : List Player)
      → (is_arrested p ≡ true) ⊎ (R.le (distance p.x p.y i.x i.y) (R.lit k.pickup_range 1) ≡ false)
      → collect k i (p ∷ ps) ≡ Option.map (λ qs. p ∷ qs) (collect k i ps)
  unfolding collect
  collect_far i p ps h = ground arith

  collect_near :
      (i : Item) (p : Player) (ps : List Player)
      → is_arrested p ≡ false
      → R.le (distance p.x p.y i.x i.y) (R.lit k.pickup_range 1) ≡ true
      → collect k i (p ∷ ps) ≡ some (k.effect p ∷ ps)
  unfolding collect
  collect_near i p ps a h = rw (a, h)

  pub collect-Collects : (i : Item) (ps : List Player) → Collects i ps (collect k i ps)
  collect-Collects i [] = inl (tt, collect_nil i)
  collect-Collects i (p ∷ ps) = elim (Bool-cases (is_arrested p)) [
    | inl held ↦
        subst (Collects i (p ∷ ps)) (sym (collect_far i p ps (inl held)))
          (Collects-cons i p ps (λ (out, _). out (ground arith)) (collect-Collects i ps))
    | inr loose ↦ elim (Bool-cases (R.le (distance p.x p.y i.x i.y) (R.lit k.pickup_range 1))) [
      | inl near ↦
          inr ([], p, ps, refl, tt, ((λ e. ground arith), near), collect_near i p ps loose near)
      | inr far ↦
          subst (Collects i (p ∷ ps)) (sym (collect_far i p ps (inr far)))
            (Collects-cons i p ps (λ (_, near). ground arith) (collect-Collects i ps))
    ]
  ]

  -- A player before and after: untouched, or not arrested and under the effect.
  abbrev pub Touched : Player → Player → Type 0
  Touched p q = (q ≡ p) ⊎ ((p.state ≢ arrested) × (q ≡ k.effect p))

  collect-Touched : (i : Item) (ps qs : List Player) → collect k i ps ≡ some qs → Zip Touched ps qs
  unfolding collect
  collect-Touched i [] qs e = cc
  collect-Touched i (p ∷ ps) [] e = ground (arith, collect-Touched i ps [])
  collect-Touched i (p ∷ ps) (q ∷ qs) e =
      ground (arith, collect-Touched i ps qs, Zip-refl Touched (λ x. inl refl) ps)

  module _ (keeps_state : (p : Player) → (k.effect p).state ≡ p.state)
      (settles : (p : Player) → k.effect (k.effect p) ≡ k.effect p) where
    Touched-trans : (p q r : Player) → Touched p q → Touched q r → Touched p r
    Touched-trans p q r (inl a) (inl b) = inl (b ∙ a)
    Touched-trans p q r (inl a) (inr (f, b)) = rw (← a) (inr (f, b))
    Touched-trans p q r (inr (f, a)) (inl b) = inr (f, b ∙ a)
    Touched-trans p q r (inr (f, a)) (inr (g, b)) = inr (f, b ∙ ap k.effect a ∙ settles p)

    pub pickup_loop-Touched :
        (is : List Item) (ps : List Player) → Zip Touched ps (pickup_loop k is ps).2
    unfolding pickup_loop
    pickup_loop-Touched [] ps = Zip-refl Touched (λ p. inl refl) ps
    pickup_loop-Touched (i ∷ is) ps = elim (Option-cases (collect k i ps)) [
      | inl e ↦ rw (e, pickup_loop) (pickup_loop-Touched is ps)
      | inr (qs, e) ↦
          rw (e, pickup_loop)
            (Zip-trans Touched Touched Touched Touched-trans ps qs _ (collect-Touched i ps qs e)
              (pickup_loop-Touched is qs))
    ]

  pickup_loop-perm :
      (is : List Item) (ps : List Player)
      → Perm
          (map (λ i. i.id) is)
          ((pickup_loop k is ps).0 ++ map (λ i. i.id) (pickup_loop k is ps).1)
  unfolding pickup_loop
  pickup_loop-perm [] ps = Perm.nil
  pickup_loop-perm (i ∷ is) ps = elim (Option-cases (collect k i ps)) [
    | inl e ↦
        rw (e, pickup_loop)
          (Perm.trans (Perm.cons i.id (pickup_loop-perm is ps)) (Perm.symm (perm_middle _ _)))
    | inr (qs, e) ↦ rw (e, pickup_loop) (Perm.cons i.id (pickup_loop-perm is qs))
  ]

  -- `CheckPickup` loses no item and makes none up: the ids that it returns and those of the items
  -- that stay are together the ids that were on the map, and for each id returned one respawn timer
  -- is queued behind those that were there.
  pub check_pickup-perm :
      (m : ItemManager) (ps : List Player)
      → Perm
          (map (λ i. i.id) m.active)
          ((check_pickup k m ps).0 ++ map (λ i. i.id) (check_pickup k m ps).1.active)
        × ((check_pickup k m ps).1.respawn_queue
            ≡ m.respawn_queue ++ replicate (length (check_pickup k m ps).0) k.respawn_time)
  unfolding check_pickup
  check_pickup-perm m ps = (pickup_loop-perm m.active ps, refl)
