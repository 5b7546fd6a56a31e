-- ===== src/Room/Invariant/Roles.antt =====
-- A player's choice of a role keeps a room valid.
use mathlib.Core.List.{Mem, Nodup, Nodup-cons, mem-cons_self, mem-cons_of_mem}
use gyeongdohalsaram_server.Base.{
  ℕ, ◌+◌, ◌≤◌, ◌<◌, ◌≡◌, refl, sym, subst, true, String, List, [], ◌∷◌, arith, Zip, map-Zip,
  length-Zip, string_eq, if◌then◌else◌,
}
use gyeongdohalsaram_server.Runtime.{Runtime}
use gyeongdohalsaram_server.Game.Constants.{max_players}
use gyeongdohalsaram_server.Game.Player.{Player, Role, is_police, set_role}
use gyeongdohalsaram_server.Room.Players.{modify_player}
use gyeongdohalsaram_server.Room.Players.Laws.{ids, Zip-modify_player}
use gyeongdohalsaram_server.Room.Defs.{Room, police_count, can_select_role}
use gyeongdohalsaram_server.Room.Invariant.{IsValid}

module _ ⦃R : Runtime⦄ where
  seat_count_absent :
      (k : String) (role : Role) (ps : List Player)
      → (¬ Mem k (ids ps))
      → police_count (modify_player k (set_role role) ps) ≡ police_count ps
  unfolding modify_player
  seat_count_absent k role [] n = refl
  seat_count_absent k role (p ∷ ps) n = ground (
    arith,
    seat_count_absent k role ps (λ m. n (mem-cons_of_mem p.id m)),
    λ (e : k ≡ p.id). n (subst (λ z. Mem z (ids (p ∷ ps))) (sym e) mem-cons_self),
  )

  -- One player at most takes the new role, since the ids are distinct.
  police_count-set_role :
      (k : String) (role : Role) (ps : List Player)
      → Nodup (ids ps)
      → police_count (modify_player k (set_role role) ps)
        ≤ police_count ps + (if is_police role then 1 else 0)
  unfolding modify_player
  police_count-set_role k role [] d = omega arith
  police_count-set_role k role (p ∷ ps) d = elim (string_eq.dec p.id k) [
    | yes e ↦
        ground
          (arith, seat_count_absent k role ps (subst (λ z. ¬ Mem z (ids ps)) e (Nodup-cons.0 d).0))
    | no n ↦ ground (arith, police_count-set_role k role ps (Nodup-cons.0 d).1)
  ]

  -- A player takes a role that `CanSelectRole` allows.
  pub set_role-IsValid :
      (k : String) (role : Role) (r : Room)
      → can_select_role role r ≡ true
      → IsValid r
      → IsValid (record r { players = modify_player k (set_role role) r.players })
  unfolding can_select_role
  set_role-IsValid k role r allowed v = record {
    small = subst (λ (n : ℕ). n ≤ max_players) (sym (length-Zip _ r.players _ seats)) v.small;
    policed = ground (arith, police_count-set_role k role r.players v.distinct, v.policed);
    distinct = rw same_ids v.distinct;
    hosted =
        λ h. rw same_ids (v.hosted (subst (λ (n : ℕ). 0 < n) (length-Zip _ r.players _ seats) h));
    connected = rw same_ids v.connected;
    armed = v.armed;
  }
    where
      seats : Zip (λ p q. q.id ≡ p.id) r.players (modify_player k (set_role role) r.players)
      seats =
          Zip-modify_player (λ p q. q.id ≡ p.id) k (set_role role) (λ p. refl) (λ p. refl) r.players

      same_ids : ids (modify_player k (set_role role) r.players) ≡ ids r.players
      same_ids = map-Zip {0, 0} (λ p q. q.id ≡ p.id) (λ p. p.id) (λ p q h. h) r.players _ seats
