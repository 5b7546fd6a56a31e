-- ===== src/Room/Rounds/Whole.antt =====
-- The two steps of a round, with nothing between them, are a tick.
use mathlib.Core.List.{Mem, Nodup, Nodup-cons, mem-cons_self, mem-cons_of_mem}
use gyeongdohalsaram_server.Base.{◌≡◌, refl, sym, subst, List, [], ◌∷◌, map, string_eq, arith}
use gyeongdohalsaram_server.Runtime.{Runtime}
use gyeongdohalsaram_server.Game.Player.{Player}
use gyeongdohalsaram_server.Room.Players.{find_player}
use gyeongdohalsaram_server.Room.Players.Laws.{ids}
use gyeongdohalsaram_server.Room.Defs.{Room}
use gyeongdohalsaram_server.Room.Tick.{advance, verdict, tick}
use gyeongdohalsaram_server.Room.Rounds.{begin_round, current_player, round_verdict, end_round}
use gyeongdohalsaram_server.Room.Invariant.{IsValid, advance-IsValid}

module _ ⦃R : Runtime⦄ where
  -- A player in front of the list is not found in place of another.
  current_other :
      (p : Player) (ps : List Player) (q : Player)
      → (p.id ≡ q.id → ⊥)
      → current_player (p ∷ ps) q ≡ current_player ps q
  unfolding current_player find_player
  current_other p ps q differ = ground arith

  current_fresh :
      (p : Player) (ps qs : List Player)
      → (Mem p.id (ids qs) → ⊥)
      → map (current_player (p ∷ ps)) qs ≡ map (current_player ps) qs
  current_fresh p ps [] fresh = refl
  current_fresh p ps (q ∷ qs) fresh =
      rw
        (
          current_other p ps q
              (λ e. fresh (subst (λ k. Mem k (ids (q ∷ qs))) (sym e) mem-cons_self)),
          current_fresh p ps qs (λ m. fresh (mem-cons_of_mem q.id m)),
        )
        refl

  current_self : (p : Player) (ps : List Player) → current_player (p ∷ ps) p ≡ p
  unfolding current_player find_player
  current_self p ps = ground arith

  current_same : (ps : List Player) → Nodup (ids ps) → map (current_player ps) ps ≡ ps
  current_same [] d = refl
  current_same (p ∷ ps) d =
      let (fresh, d') = Nodup-cons.0 d in
      rw (current_self p ps, current_fresh p ps ps fresh, current_same ps d') refl

  round_verdict-verdict :
      (r : Room) (s : R.Seed)
      → Nodup (ids (advance r s).0.players)
      → round_verdict (begin_round r s).1 (advance r s).0 ≡ verdict (advance r s).0
  unfolding round_verdict begin_round verdict
  round_verdict-verdict r s d = rw (current_same (advance r s).0.players d) refl

  -- In a valid room a round whose second step follows at once on the first is a tick.
  pub end_round-tick :
      (r : Room) (s : R.Seed)
      → IsValid r
      → end_round (begin_round r s).1 (begin_round r s).0 (begin_round r s).2 ≡ tick r s
  unfolding end_round tick begin_round
  end_round-tick r s v =
      rw (round_verdict-verdict r s (advance-IsValid r s v).distinct, end_round) refl
