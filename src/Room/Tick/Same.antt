-- ===== src/Room/Tick/Same.antt =====
-- What a tick of `gameLoop` leaves alone of each player.
use gyeongdohalsaram_server.Base.{
  ◌≡◌, refl, ◌∙◌, List, [], ◌∷◌, map, arith, Zip, Zip-refl, Zip-map, Zip-trans,
}
use gyeongdohalsaram_server.Runtime.{Runtime}
use gyeongdohalsaram_server.Game.Constants.{tick_interval}
use gyeongdohalsaram_server.Game.Player.{Player, arrest, release}
use gyeongdohalsaram_server.Game.Collision.{find_arrest_pairs, find_jail_rescue_candidates}
use gyeongdohalsaram_server.Game.Spawn.{jail_x, jail_y}
use gyeongdohalsaram_server.Game.Booster.{update_boost}
use gyeongdohalsaram_server.Game.StumbleStone.{update_slow}
use gyeongdohalsaram_server.Room.Players.{modify_player}
use gyeongdohalsaram_server.Room.Players.Laws.{Zip-modify_player}
use gyeongdohalsaram_server.Room.Defs.{Room}
use gyeongdohalsaram_server.Room.Tick.Stages.{run_rescues-Zip, run_items_after-Zip}
use gyeongdohalsaram_server.Room.Tick.{
  expire_invincibility, chase, run_arrests, release_if_arrested, run_rescues, reset_rescue_gauge,
  run_captures, run_items, advance,
}

module _ ⦃R : Runtime⦄ where
  abbrev pub Same : Player → Player → Type 0
  Same p q =
      (q.id ≡ p.id)
      × (q.nickname ≡ p.nickname)
      × (q.role ≡ p.role)
      × (q.x ≡ p.x)
      × (q.y ≡ p.y)
      × (q.ready ≡ p.ready)
      × (q.last_move_time ≡ p.last_move_time)

  Same-refl : (p : Player) → Same p p
  Same-refl p = (refl, refl, refl, refl, refl, refl, refl)

  Same-trans : (p q r : Player) → Same p q → Same q r → Same p r
  Same-trans p q r h k =
      (k.0 ∙ h.0, k.1 ∙ h.1, k.2 ∙ h.2, k.3 ∙ h.3, k.4 ∙ h.4, k.5 ∙ h.5, k.6 ∙ h.6)

  abbrev AllSame : List Player → List Player → Type 0
  AllSame = Zip Same

  AllSame-trans : (ps qs rs : List Player) → AllSame ps qs → AllSame qs rs → AllSame ps rs
  AllSame-trans = Zip-trans Same Same Same Same-trans

  expire-Same : (p : Player) → Same p (expire_invincibility p)
  unfolding expire_invincibility
  expire-Same p = ground arith

  boosts-Same : (p : Player) → Same p (update_boost tick_interval p)
  unfolding update_boost
  boosts-Same p = ground arith

  slows-Same : (p : Player) → Same p (update_slow tick_interval p)
  unfolding update_slow
  slows-Same p = ground arith

  chase-Same : (p : Player) → Same p (chase p)
  unfolding chase arrest
  chase-Same p = ground arith

  release-Same : (p : Player) → Same p (release_if_arrested p)
  unfolding release_if_arrested release
  release-Same p = ground arith

  reset_gauge-Same : (rescuing : List Player) (p : Player) → Same p (reset_rescue_gauge rescuing p)
  unfolding reset_rescue_gauge
  reset_gauge-Same rescuing p = ground arith

  run_arrests-Same :
      (pairs : List (Player × Player)) (ps : List Player) → AllSame ps (run_arrests pairs ps)
  unfolding run_arrests
  run_arrests-Same [] ps = Zip-refl Same Same-refl ps
  run_arrests-Same ((cop, thief) ∷ pairs) ps =
      AllSame-trans ps (modify_player thief.id chase ps) _
        (Zip-modify_player Same thief.id chase Same-refl chase-Same ps)
        (run_arrests-Same pairs (modify_player thief.id chase ps))

  run_rescues-Same : (thieves ps : List Player) → AllSame ps (run_rescues thieves ps)
  run_rescues-Same = run_rescues-Zip Same Same-refl Same-trans (λ p g. Same-refl p) release-Same

  run_captures-Same : (ps : List Player) → AllSame ps (run_captures ps)
  unfolding run_captures
  run_captures-Same ps =
      let ps₁ = run_arrests (find_arrest_pairs ps) ps in
      let candidates = find_jail_rescue_candidates ps₁ jail_x jail_y in
      let ps₂ = run_rescues candidates ps₁ in
      AllSame-trans ps ps₂ _
        (AllSame-trans ps ps₁ ps₂ (run_arrests-Same (find_arrest_pairs ps) ps)
          (run_rescues-Same candidates ps₁))
        (Zip-map Same (reset_rescue_gauge candidates) (reset_gauge-Same candidates) ps₂)

  pub run_items-Same :
      (r : Room) (s : R.Seed) → AllSame (R.range_order s r.players).0 (run_items r s).0.players
  run_items-Same r s =
      AllSame-trans _ (map expire_invincibility (R.range_order s r.players).0) _
        (Zip-map Same expire_invincibility expire-Same (R.range_order s r.players).0)
        (run_items_after-Zip Same Same-refl Same-trans boosts-Same slows-Same Same-refl Same-refl r
          s)

  -- A tick moves nobody, and changes nobody's id, nickname, role, readiness or time of the last move.
  pub advance-Same :
      (r : Room) (s : R.Seed) → AllSame (R.range_order s r.players).0 (advance r s).0.players
  unfolding advance
  advance-Same r s =
      let (r', s') = run_items r s in
      AllSame-trans _ r'.players _ (run_items-Same r s) (run_captures-Same r'.players)
