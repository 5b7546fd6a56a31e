-- ===== src/Game/Collision/Pairs.antt =====
-- Which pairs `FindArrestPairs`, and which thieves `FindJailRescueCandidates`, of
-- internal/game/collision.go find.
use mathlib.Core.Bool.{Bool-discrete}
use mathlib.Core.Logic.Or
use mathlib.Core.List.{
  Mem, Mem-prop, mem-cons, mem-append, mem-append_left, mem-append_right, not-mem-nil,
  mem-cons_self, mem-cons_of_mem, filter, mem-filter,
}
use gyeongdohalsaram_server.Base.{
  ◌≡◌, refl, ap, ◌↔◌, inl, inr, true, ◌&&◌, List, [], ◌∷◌, arith, Bool-cases,
}
use gyeongdohalsaram_server.Runtime.{Runtime}
use gyeongdohalsaram_server.Game.Player.{
  Player, Role, police, thief, free, is_police, is_thief, is_free,
}
use gyeongdohalsaram_server.Game.Collision.{
  in_arrest_range, police_of, free_thieves_of, pairs_with, all_pairs, find_arrest_pairs,
  in_jail_range, find_jail_rescue_candidates,
}

module _ ⦃R : Runtime⦄ where
  police_of-filter :
      (ps : List Player) → police_of ps ≡ filter (λ p. Bool-discrete (is_police p.role) true) ps
  unfolding police_of
  police_of-filter [] = refl
  police_of-filter (p ∷ ps) = ground (arith, police_of-filter ps)

  free_thieves_of-filter :
      (ps : List Player)
      → free_thieves_of ps ≡ filter (λ p. Bool-discrete (is_thief p.role && is_free p) true) ps
  unfolding free_thieves_of
  free_thieves_of-filter [] = refl
  free_thieves_of-filter (p ∷ ps) = ground (arith, free_thieves_of-filter ps)

  role_police : (r : Role) → (is_police r ≡ true) ↔ (r ≡ police)
  role_police r = ground arith

  free_thief :
      (p : Player) → (is_thief p.role && is_free p ≡ true) ↔ ((p.role ≡ thief) × (p.state ≡ free))
  free_thief p = ground arith

  mem-police_of :
      (ps : List Player) {p : Player} → Mem p (police_of ps) ↔ (Mem p ps × (p.role ≡ police))
  mem-police_of ps {p} = rw (police_of-filter ps) (
    λ m. let (a, b) = (mem-filter _).0 m in (a, (role_police p.role).0 b),
    λ (a, b). (mem-filter _).1 (a, (role_police p.role).1 b),
  )

  mem-free_thieves_of :
      (ps : List Player) {p : Player}
      → Mem p (free_thieves_of ps) ↔ (Mem p ps × (p.role ≡ thief) × (p.state ≡ free))
  mem-free_thieves_of ps {p} = rw (free_thieves_of-filter ps) (
    λ m. let (a, b) = (mem-filter _).0 m in (a, ((free_thief p).0 b).0, ((free_thief p).0 b).1),
    λ (a, b, c). (mem-filter _).1 (a, (free_thief p).1 (b, c)),
  )

  pairs_with_sound :
      (cop : Player) (ts : List Player) {c t : Player}
      → Mem (c, t) (pairs_with cop ts)
      → Mem c (cop ∷ []) × Mem t ts × (in_arrest_range c t ≡ true)
  unfolding pairs_with
  pairs_with_sound cop [] m = absurd (not-mem-nil m)
  pairs_with_sound cop (x ∷ ts) {c} {t} m = elim (Bool-cases (in_arrest_range cop x)) [
    | inl e ↦
        Or.elim (hlevel Mem-prop) (mem-cons.0 (rw (e, pairs_with) at m))
          (λ q.
            rw (ap (λ (z : Player × Player). z.0) q, ap (λ (z : Player × Player). z.1) q)
              (mem-cons_self, mem-cons_self, e))
          (λ m'. let (a, b, h) = pairs_with_sound cop ts m' in (a, mem-cons_of_mem x b, h))
    | inr e ↦
        let (a, b, h) = pairs_with_sound cop ts (rw (e, pairs_with) at m) in
        (a, mem-cons_of_mem x b, h)
  ]

  pairs_with_complete :
      (c : Player) (ts : List Player) {t : Player}
      → Mem t ts
      → in_arrest_range c t ≡ true
      → Mem (c, t) (pairs_with c ts)
  unfolding pairs_with
  pairs_with_complete c [] m h = absurd (not-mem-nil m)
  pairs_with_complete c (x ∷ ts) {t} m h = elim (Bool-cases (in_arrest_range c x)) [
    | inl e ↦
        rw (e, pairs_with)
          (Or.elim Mem-prop (mem-cons.0 m) (λ q. rw q mem-cons_self)
            (λ m'. mem-cons_of_mem _ (pairs_with_complete c ts m' h)))
    | inr e ↦
        rw (e, pairs_with)
          (Or.elim Mem-prop (mem-cons.0 m) (λ q. cc (ap (in_arrest_range c) q))
            (λ m'. pairs_with_complete c ts m' h))
  ]

  all_pairs_iff :
      (cops ts : List Player) {c t : Player}
      → Mem (c, t) (all_pairs cops ts) ↔ (Mem c cops × Mem t ts × (in_arrest_range c t ≡ true))
  unfolding all_pairs
  all_pairs_iff [] ts = (λ m. absurd (not-mem-nil m), λ (m, _, _). absurd (not-mem-nil m))
  all_pairs_iff (x ∷ cops) ts {c} {t} = (
    λ m.
        Or.elim (hlevel Mem-prop) (mem-append.0 m)
          (λ l.
            let (a, b, h) = pairs_with_sound x ts l in
            (
              Or.elim Mem-prop (mem-cons.0 a) (λ q. rw q mem-cons_self)
                  (λ n. absurd (not-mem-nil n)),
              b,
              h,
            ))
          (λ r. let (a, b, h) = (all_pairs_iff cops ts).0 r in (mem-cons_of_mem x a, b, h)),
    λ (a, b, h).
        Or.elim Mem-prop (mem-cons.0 a)
          (λ q. rw q (
            mem-append_left (all_pairs cops ts)
              (pairs_with_complete x ts b (rw (ap (λ z. in_arrest_range z t) q) at h))))
          (λ n. mem-append_right (pairs_with x ts) ((all_pairs_iff cops ts).1 (n, b, h))),
  )

  -- `FindArrestPairs` finds a pair exactly when the first is a police officer and the second a free
  -- thief among the players, at most the arrest range apart.
  pub find_arrest_pairs_iff :
      (ps : List Player) (c t : Player)
      → Mem (c, t) (find_arrest_pairs ps) ↔ (
          Mem c ps
          × (c.role ≡ police)
          × Mem t ps
          × (t.role ≡ thief)
          × (t.state ≡ free)
          × (in_arrest_range c t ≡ true))
  unfolding find_arrest_pairs
  find_arrest_pairs_iff ps c t = (
    λ m.
        let (a, b, h) = (all_pairs_iff (police_of ps) (free_thieves_of ps)).0 m in
        let (a₁, a₂) = (mem-police_of ps).0 a in
        let (b₁, b₂, b₃) = (mem-free_thieves_of ps).0 b in (a₁, a₂, b₁, b₂, b₃, h),
    λ (a₁, a₂, b₁, b₂, b₃, h).
        (all_pairs_iff (police_of ps) (free_thieves_of ps)).1
          ((mem-police_of ps).1 (a₁, a₂), (mem-free_thieves_of ps).1 (b₁, b₂, b₃), h),
  )

  candidates-filter :
      (ps : List Player) (x y : R.Float)
      → find_jail_rescue_candidates ps x y
        ≡ filter (λ p. Bool-discrete (is_thief p.role && is_free p && in_jail_range p x y) true) ps
  unfolding find_jail_rescue_candidates
  candidates-filter [] x y = refl
  candidates-filter (p ∷ ps) x y = ground (arith, candidates-filter ps x y)

  -- `FindJailRescueCandidates` finds exactly the free thieves within the rescue range of the jail.
  pub find_jail_rescue_candidates_iff :
      (ps : List Player) (x y : R.Float) (t : Player)
      → Mem t (find_jail_rescue_candidates ps x y)
        ↔ (Mem t ps × (t.role ≡ thief) × (t.state ≡ free) × (in_jail_range t x y ≡ true))
  find_jail_rescue_candidates_iff ps x y t = rw (candidates-filter ps x y) (
    λ m. let (a, b) = (mem-filter _).0 m in (a, ground arith, ground arith, ground arith),
    λ (a, b, c, d). (mem-filter _).1 (a, ground arith),
  )
