-- ===== src/Room/Tick/Turn.antt =====
-- How the state of a player changes in a tick of `gameLoop`.
use mathlib.Core.Logic.Or
use mathlib.Core.List.{
  Mem, Nodup, mem-cons, mem-cons_self, mem-cons_of_mem, mem-map_of_mem, not-mem-nil, Nodup-cons,
}
use mathlib.Core.List.Perm
use gyeongdohalsaram_server.Base.{
  ◌≡◌, ◌≢◌, refl, sym, ap, subst, ◌∙◌, ◌⊎◌, inl, true, String, List, [], ◌∷◌, map, arith, ◌-ℤ◌,
  ltb_ℤ, -ℤ_parts, All, Zip, Zip-refl, Zip-map, Zip-trans, map-Zip,
}
use gyeongdohalsaram_server.Runtime.{Runtime}
use gyeongdohalsaram_server.Game.Constants.{tick_interval, invincible_time}
use gyeongdohalsaram_server.Game.Player.{Player, thief, free, arrested, invincible, arrest, release}
use gyeongdohalsaram_server.Game.Collision.{find_arrest_pairs, find_jail_rescue_candidates}
use gyeongdohalsaram_server.Game.Collision.Pairs.{find_arrest_pairs_iff}
use gyeongdohalsaram_server.Game.Spawn.{jail_x, jail_y}
use gyeongdohalsaram_server.Game.Booster.{update_boost}
use gyeongdohalsaram_server.Game.StumbleStone.{update_slow}
use gyeongdohalsaram_server.Room.Players.{modify_player}
use gyeongdohalsaram_server.Room.Players.Laws.{ids}
use gyeongdohalsaram_server.Room.Defs.{Room}
use gyeongdohalsaram_server.Room.Tick.{
  expire_invincibility, chase, run_arrests, release_if_arrested, run_rescues, reset_rescue_gauge,
  run_captures, run_items, advance,
}
use gyeongdohalsaram_server.Room.Tick.Stages.{run_rescues-Zip, run_items_after-Zip}
use gyeongdohalsaram_server.Room.Tick.Same.{run_items-Same}

module _ ⦃R : Runtime⦄ where
  abbrev Keeps : Player → Player → Type 0
  Keeps p q =
      (q.id ≡ p.id)
      × (q.role ≡ p.role)
      × (q.state ≡ p.state)
      × (q.invincible_timer ≡ p.invincible_timer)

  Keeps-refl : (p : Player) → Keeps p p
  Keeps-refl p = (refl, refl, refl, refl)

  Keeps-trans : (p q r : Player) → Keeps p q → Keeps q r → Keeps p r
  Keeps-trans p q r h k = (k.0 ∙ h.0, k.1 ∙ h.1, k.2 ∙ h.2, k.3 ∙ h.3)

  -- The thief whom the arrests of the tick have caught.
  abbrev Caught : Player → Player → Type 0
  Caught p q =
      (q.id ≡ p.id)
      × (q.role ≡ p.role)
      × (q.invincible_timer ≡ p.invincible_timer)
      × ((q.state ≡ p.state) ⊎ ((p.role ≡ thief) × (p.state ≡ free) × (q.state ≡ arrested)))

  abbrev Freed : Player → Player → Type 0
  Freed p q =
      (q.role ≡ p.role)
      × (((q.state ≡ p.state) × (q.invincible_timer ≡ p.invincible_timer))
          ⊎ ((p.role ≡ thief)
              × (p.state ≡ arrested)
              × (q.state ≡ invincible)
              × (q.invincible_timer ≡ invincible_time)))

  Freed-trans : (p q r : Player) → Freed p q → Freed q r → Freed p r
  Freed-trans p q r h k = ground arith

  boost-Keeps : (p : Player) → Keeps p (update_boost tick_interval p)
  unfolding update_boost
  boost-Keeps p = ground arith

  slow-Keeps : (p : Player) → Keeps p (update_slow tick_interval p)
  unfolding update_slow
  slow-Keeps p = ground arith

  release-Freed : (p : Player) → Freed p (release_if_arrested p)
  unfolding release_if_arrested release
  release-Freed p = ground arith

  reset_gauge-Keeps :
      (rescuing : List Player) (p : Player) → Keeps p (reset_rescue_gauge rescuing p)
  unfolding reset_rescue_gauge
  reset_gauge-Keeps rescuing p = ground arith

  -- A free thief is told from the other players by the id.
  abbrev IsPrey : Player → Type 0
  IsPrey p = (p.role ≡ thief) × (p.state ≡ free)

  chase-Caught : (p q : Player) → IsPrey p → Caught p q → Caught p (chase q)
  unfolding chase arrest
  chase-Caught p q prey h = ground arith

  modify-Caught :
      (id : String) (ps qs : List Player)
      → All (λ p. p.id ≡ id → IsPrey p) ps
      → Zip Caught ps qs
      → Zip Caught ps (modify_player id chase qs)
  unfolding modify_player
  modify-Caught id [] [] prey h = tt
  modify-Caught id (p ∷ ps) (q ∷ qs) prey h =
      (ground (arith, chase-Caught p q), modify-Caught id ps qs prey.1 h.1)
  modify-Caught id [] (_ ∷ _) prey h = absurd h
  modify-Caught id (_ ∷ _) [] prey h = absurd h

  run_arrests-Caught :
      (pairs : List (Player × Player)) (ps qs : List Player)
      → All (λ pair. All (λ p. p.id ≡ pair.1.id → IsPrey p) ps) pairs
      → Zip Caught ps qs
      → Zip Caught ps (run_arrests pairs qs)
  unfolding run_arrests
  run_arrests-Caught [] ps qs prey h = h
  run_arrests-Caught ((cop, t) ∷ pairs) ps qs prey h =
      run_arrests-Caught pairs ps (modify_player t.id chase qs) prey.1
        (modify-Caught t.id ps qs prey.0 h)

  IsPrey-prop : (p : Player) → IsProp (IsPrey p)
  IsPrey-prop p = hlevel

  All-of_mem : {P : Player → Type 0} (ps : List Player) → ((p : Player) → Mem p ps → P p) → All P ps
  All-of_mem [] h = tt
  All-of_mem (p ∷ ps) h = (h p mem-cons_self, All-of_mem ps (λ q m. h q (mem-cons_of_mem p m)))

  All-of_mem_pairs :
      {P : Player × Player → Type 0} (l : List (Player × Player))
      → ((z : Player × Player) → Mem z l → P z)
      → All P l
  All-of_mem_pairs [] h = tt
  All-of_mem_pairs (z ∷ l) h =
      (h z mem-cons_self, All-of_mem_pairs l (λ y m. h y (mem-cons_of_mem z m)))

  -- Ids being distinct, a player with the id of a free thief is that free thief.
  IsPrey-by_id :
      (ps : List Player) (t p : Player)
      → Nodup (ids ps)
      → Mem t ps
      → IsPrey t
      → Mem p ps
      → p.id ≡ t.id
      → IsPrey p
  IsPrey-by_id [] t p d mt prey mp e = absurd (not-mem-nil mt)
  IsPrey-by_id (x ∷ ps) t p d mt prey mp e =
      let (fresh, d') = Nodup-cons.0 d in
      Or.elim (IsPrey-prop p) (mem-cons.0 mt)
        (λ t_first.
          Or.elim (IsPrey-prop p) (mem-cons.0 mp) (λ p_first. rw p_first (rw t_first at prey))
            (λ later. absurd (
              fresh (
                subst (λ z. Mem z (ids ps)) (e ∙ ap (λ z. z.id) t_first)
                  (mem-map_of_mem (λ z. z.id) later)))))
        (λ t_later.
          Or.elim (IsPrey-prop p) (mem-cons.0 mp)
            (λ p_first. absurd (
              fresh (
                subst (λ z. Mem z (ids ps)) (sym e ∙ ap (λ z. z.id) p_first)
                  (mem-map_of_mem (λ z. z.id) t_later))))
            (λ p_later. IsPrey-by_id ps t p d' t_later prey p_later e))

  arrests-Caught :
      (ps : List Player) → Nodup (ids ps) → Zip Caught ps (run_arrests (find_arrest_pairs ps) ps)
  arrests-Caught ps d =
      run_arrests-Caught (find_arrest_pairs ps) ps ps
        (All-of_mem_pairs (find_arrest_pairs ps) (λ (c, t) m.
          let (_, _, mt, role, state, _) = (find_arrest_pairs_iff ps c t).0 m in
          All-of_mem ps (λ p mp e. IsPrey-by_id ps t p d mt (role, state) mp e)))
        (Zip-refl Caught (λ p. (refl, refl, refl, inl refl)) ps)

  -- What the captures do to a player.
  abbrev Captured : Player → Player → Type 0
  Captured p q =
      (q.role ≡ p.role)
      × (((q.state ≡ p.state) × (q.invincible_timer ≡ p.invincible_timer))
          ⊎ ((p.role ≡ thief) × (p.state ≡ free) × (q.state ≡ arrested))
          ⊎ ((p.role ≡ thief)
              × ((p.state ≡ free) ⊎ (p.state ≡ arrested))
              × (q.state ≡ invincible)
              × (q.invincible_timer ≡ invincible_time)))

  Captured-of_parts : (p q r : Player) → Caught p q → Freed q r → Captured p r
  Captured-of_parts p q r h k = ground arith

  Captured-Keeps : (p q r : Player) → Captured p q → Keeps q r → Captured p r
  Captured-Keeps p q r h k = ground arith

  run_captures-Captured : (ps : List Player) → Nodup (ids ps) → Zip Captured ps (run_captures ps)
  unfolding run_captures
  run_captures-Captured ps d =
      let ps₁ = run_arrests (find_arrest_pairs ps) ps in
      let candidates = find_jail_rescue_candidates ps₁ jail_x jail_y in
      let ps₂ = run_rescues candidates ps₁ in
      Zip-trans Captured Keeps Captured Captured-Keeps ps ps₂ _
        (Zip-trans Caught Freed Captured Captured-of_parts ps ps₁ ps₂ (arrests-Caught ps d) (
          run_rescues-Zip Freed (λ p. (refl, inl (refl, refl))) Freed-trans
            (λ p g. (refl, inl (refl, refl))) release-Freed candidates ps₁))
        (Zip-map Keeps (reset_rescue_gauge candidates) (reset_gauge-Keeps candidates) ps₂)

  -- How a tick may change the state of a player.
  pub record Turn (p q : Player) : Type 0 where
    -- Only a thief is ever arrested or released.
    pub others : p.role ≢ thief → (q.state ≡ p.state) ⊎ ((p.state ≡ invincible) × (q.state ≡ free))
    -- An arrested player stays arrested, or is released with the whole time of invincibility.
    pub held :
        p.state ≡ arrested
        → (q.state ≡ arrested) ⊎ ((q.state ≡ invincible) × (q.invincible_timer ≡ invincible_time))
    -- A player whose invincibility lasts beyond the tick keeps it, with a tick less to go.
    shielded :
        p.state ≡ invincible
        → ltb_ℤ tick_interval p.invincible_timer ≡ true
        → (q.state ≡ invincible) × (q.invincible_timer ≡ p.invincible_timer -ℤ tick_interval)
    -- A free player stays free, is arrested, or is arrested and released in one tick.
    pub loose :
        p.state ≡ free
        → (q.state ≡ free)
          ⊎ (q.state ≡ arrested)
          ⊎ ((q.state ≡ invincible) × (q.invincible_timer ≡ invincible_time))

  Turn-of_parts : (p q r : Player) → Keeps (expire_invincibility p) q → Captured q r → Turn p r
  unfolding expire_invincibility
  Turn-of_parts p q r h k = record {
    others = λ n. ground arith;
    held = λ e. ground arith;
    shielded = λ e late. ground (arith, -ℤ_parts p.invincible_timer tick_interval);
    loose = λ e. ground arith;
  }

  Zip-unmap :
      (P : Player → Player → Type 0) (f : Player → Player) (ps qs : List Player)
      → Zip P (map f ps) qs
      → Zip (λ p q. P (f p) q) ps qs
  Zip-unmap P f [] [] h = tt
  Zip-unmap P f (p ∷ ps) (q ∷ qs) h = (h.0, Zip-unmap P f ps qs h.1)
  Zip-unmap P f [] (_ ∷ _) h = absurd h
  Zip-unmap P f (_ ∷ _) [] h = absurd h

  -- In a room whose players have distinct ids, the players after a tick are those before it, in the
  -- order in which the tick ranged over them, and the state of each has changed as `Turn` allows.
  pub advance-Turn :
      (r : Room) (s : R.Seed)
      → Nodup (ids r.players)
      → Zip Turn (R.range_order s r.players).0 (advance r s).0.players
  unfolding advance
  advance-Turn r s d =
      let listed = (R.range_order s r.players).0 in
      let ps = (run_items r s).0.players in
      let d' : Nodup (ids ps) =
        rw (map-Zip {0, 0} _ (λ p. p.id) (λ p q h. h.0) listed ps (run_items-Same r s))
          (Perm.nodup (Perm.symm (Perm.map (λ p. p.id) (R.range_order_perm s r.players))) d) in
      Zip-trans (λ p q. Keeps (expire_invincibility p) q) Captured Turn Turn-of_parts listed ps _
        (Zip-unmap Keeps expire_invincibility listed ps (
          run_items_after-Zip Keeps Keeps-refl Keeps-trans boost-Keeps slow-Keeps Keeps-refl
            Keeps-refl r s))
        (run_captures-Captured ps d')
