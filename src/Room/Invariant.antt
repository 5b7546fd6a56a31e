-- ===== src/Room/Invariant.antt =====
-- What holds of a room between any two of its methods.
pub mod Roles
use mathlib.Core.List.{Mem, Nodup, Nodup-nil, Nodup-cons, Perm, mem-cons_self, mem-cons_of_mem}
use mathlib.Core.List.Perm
use gyeongdohalsaram_server.Base.{
  ℕ, ◌+◌, ◌≤◌, ◌<◌, ◌≡◌, refl, sym, ap, subst, ◌∙◌, inl, inr, Bool, true, false, ◌&&◌, Bool-cases,
  String, List, [], ◌∷◌, arith, length, count_if-perm, length-perm, Zip, Zip-refl, Zip-map,
  Zip-mono, Zip-trans, map-Zip, length-Zip, count_if-Zip, ltb, leb, eqb, ◌==◌, string_eq,
  if◌then◌else◌,
}
use gyeongdohalsaram_server.Runtime.{Runtime}
use gyeongdohalsaram_server.Game.Constants.{max_players, max_police}
use gyeongdohalsaram_server.Game.State.{playing}
use gyeongdohalsaram_server.Game.Player.{
  Player, Role, role_none, is_police, set_role, set_position, reset,
}
use gyeongdohalsaram_server.Game.Spawn.{Position, generate_spawn_positions}
use gyeongdohalsaram_server.Ws.Message.{ClientRef}
use gyeongdohalsaram_server.Room.Players.{put_player, delete_player, modify_player, insert}
use gyeongdohalsaram_server.Room.Players.Laws.{
  ids, keys, keys-insert, keys-erase, ids-put_player, ids-delete_player, mem-put_key_self,
  mem-put_key, perm-put_key, Nodup-put_key, mem-remove_key, perm-remove_key, Nodup-remove_key,
  length-put_player, length-delete_player, police-put_player, police-delete_player,
  Zip-modify_player,
}
use gyeongdohalsaram_server.Room.Defs.{
  Room, open_channel, new_room, add_player, next_host, remove_player, police_count, can_select_role,
  set_player_ready, toggle_player_ready, reset_room, set_positions, prepare_game,
}
use gyeongdohalsaram_server.Room.Tick.{advance, run_items}
use gyeongdohalsaram_server.Room.Tick.Same.{advance-Same}

pub record IsValid ⦃R : Runtime⦄ (r : Room) : Type 0 where
  pub small : length r.players ≤ max_players
  pub policed : police_count r.players ≤ max_police
  pub distinct : Nodup (ids r.players)
  pub hosted : 0 < length r.players → Mem r.host_id (ids r.players)
  pub connected : Perm (keys r.clients) (ids r.players)
  pub armed : r.state ≡ playing → r.stop_ch ≡ open_channel

module _ ⦃R : Runtime⦄ where
  pub new_room-IsValid : (code : String) → IsValid (new_room code)
  unfolding new_room
  new_room-IsValid code = record {
    small = omega arith;
    policed = omega arith;
    distinct = Nodup-nil;
    hosted = λ h. absurd (omega arith);
    connected = Perm.nil;
    armed = λ e. cc;
  }

  joined-IsValid :
      (p : Player) (c : ClientRef) (r : Room)
      → p.role ≡ role_none
      → leb max_players (length r.players) ≡ false
      → IsValid r
      → IsValid (record r {
        players = put_player p r.players;
        clients = insert p.id c r.clients;
        host_id = if eqb (length (put_player p r.players)) 1 then p.id else r.host_id;
      })
  joined-IsValid p c r role room v = record {
    small = ground (arith, length-put_player p r.players);
    policed = omega (arith, police-put_player p r.players role, v.policed);
    distinct = rw (ids-put_player p r.players) (Nodup-put_key p.id (ids r.players) v.distinct);
    hosted = λ h. elim (Bool-cases (eqb (length (put_player p r.players)) 1)) [
      | inl alone ↦ rw (alone, ids-put_player p r.players) (mem-put_key_self p.id (ids r.players))
      | inr crowd ↦
          rw (crowd, ids-put_player p r.players)
            (mem-put_key p.id r.host_id (ids r.players)
              (v.hosted (ground (arith, length-put_player p r.players))))
    ];
    connected =
        rw (keys-insert p.id c r.clients, ids-put_player p r.players)
          (perm-put_key p.id v.connected);
    armed = v.armed;
  }

  -- `AddPlayer` of a player with no role keeps the room valid, also when it is full.
  pub add_player-IsValid :
      (p : Player) (c : ClientRef) (r : Room)
      → p.role ≡ role_none
      → IsValid r
      → IsValid (add_player p c r).0
  unfolding add_player
  add_player-IsValid p c r role v = elim (Bool-cases (leb max_players (length r.players))) [
    | inl full ↦ rw (full, add_player) v
    | inr room ↦ rw (room, add_player) (joined-IsValid p c r role room v)
  ]

  next_host-mem :
      (ps : List Player) (host : String) → 0 < length ps → Mem (next_host ps host) (ids ps)
  unfolding next_host
  next_host-mem [] host h = absurd (omega arith)
  next_host-mem (p ∷ ps) host h = mem-cons_self

  -- `RemovePlayer` keeps the room valid: if the host leaves, the new host is one of those who stay.
  pub remove_player-IsValid :
      (k : String) (r : Room) (s : R.Seed) → IsValid r → IsValid (remove_player k r s).0
  unfolding remove_player
  remove_player-IsValid k r s v = record {
    small = omega (arith, length-delete_player k r.players, v.small);
    policed = omega (arith, police-delete_player k r.players, v.policed);
    distinct = rw (ids-delete_player k r.players) (Nodup-remove_key k (ids r.players) v.distinct);
    hosted = λ h. host h;
    connected =
        rw (keys-erase k r.clients, ids-delete_player k r.players) (perm-remove_key k v.connected);
    armed = v.armed;
  }
    where
      players : List Player
      players = delete_player k r.players

      ordered : List Player
      ordered = (R.range_order s players).0

      some_left : 0 < length players → 0 < length r.players
      some_left h = omega (arith, length-delete_player k r.players)

      host :
          0 < length players
          → Mem
              (if r.host_id == k && ltb 0 (length players)
                then next_host ordered r.host_id
                else r.host_id)
              (ids players)
      host h = elim (string_eq.dec r.host_id k) [
        | yes left ↦ ground (
          arith,
          (Perm.mem_iff (Perm.map (λ p. p.id) (R.range_order_perm s players))).0 (
              next_host-mem ordered r.host_id
                (subst (λ n. 0 < n) (sym (length-perm (R.range_order_perm s players))) h)),
        )
        | no stays ↦ ground (
          arith,
          subst (Mem r.host_id) (sym (ids-delete_player k r.players))
              ((mem-remove_key k r.host_id (ids r.players)).1 (v.hosted (some_left h), stays)),
        )
      ]

  abbrev pub SameSeat : Player → Player → Type 0
  SameSeat p q = (q.id ≡ p.id) × (q.role ≡ p.role)

  -- A method that keeps the players, in another order and with other states, and the connections.
  pub reseated-IsValid :
      (r r' : Room) (ps : List Player)
      → Perm ps r.players
      → Zip SameSeat ps r'.players
      → r'.host_id ≡ r.host_id
      → r'.clients ≡ r.clients
      → (r'.state ≡ playing → r'.stop_ch ≡ open_channel)
      → IsValid r
      → IsValid r'
  reseated-IsValid r r' ps order seats host clients armed v = record {
    small = omega (arith, length-Zip SameSeat ps r'.players seats, length-perm order, v.small);
    policed = omega (
      arith,
      count_if-Zip SameSeat (λ p. is_police p.role) (λ p q h. ap is_police h.1) ps r'.players seats,
      count_if-perm (λ p. is_police p.role) order,
      v.policed,
    );
    distinct = rw same_ids (Perm.nodup (Perm.symm ids_order) v.distinct);
    hosted = λ h.
        rw (host, same_ids)
          ((Perm.mem_iff ids_order).1
            (v.hosted (omega (arith, length-Zip SameSeat ps r'.players seats, length-perm order))));
    connected = rw (clients, same_ids) (Perm.trans v.connected (Perm.symm ids_order));
    armed = armed;
  }
    where
      same_ids : ids r'.players ≡ ids ps
      same_ids = map-Zip {0, 0} SameSeat (λ p. p.id) (λ p q h. h.0) ps r'.players seats

      ids_order : Perm (ids ps) (ids r.players)
      ids_order = Perm.map (λ p. p.id) order

  seat : (p : Player) → SameSeat p p
  seat p = (refl, refl)

  seat_trans : (p q r : Player) → SameSeat p q → SameSeat q r → SameSeat p r
  seat_trans p q r h k = (k.0 ∙ h.0, k.1 ∙ h.1)

  set_player_ready-IsValid :
      (k : String) (ready : Bool) (r : Room) → IsValid r → IsValid (set_player_ready k ready r).0
  unfolding set_player_ready
  set_player_ready-IsValid k ready r v =
      reseated-IsValid r _ r.players Perm.rfl
        (Zip-modify_player SameSeat k _ seat (λ p. (refl, refl)) r.players) refl refl v.armed v

  pub toggle_player_ready-IsValid :
      (k : String) (r : Room) → IsValid r → IsValid (toggle_player_ready k r).0
  unfolding toggle_player_ready
  toggle_player_ready-IsValid k r v =
      reseated-IsValid r _ r.players Perm.rfl
        (Zip-modify_player SameSeat k _ seat (λ p. (refl, refl)) r.players) refl refl v.armed v

  pub reset_room-IsValid : (r : Room) → IsValid r → IsValid (reset_room r)
  unfolding reset_room reset
  reset_room-IsValid r v =
      reseated-IsValid r _ r.players Perm.rfl (Zip-map SameSeat reset (λ p. (refl, refl)) r.players)
        refl refl (λ e. cc) v

  pub set_positions-seats :
      (positions : List (String × Position)) (ps : List Player)
      → Zip SameSeat ps (set_positions positions ps)
  unfolding set_positions
  set_positions-seats [] ps = Zip-refl SameSeat seat ps
  set_positions-seats ((id, spot) ∷ rest) ps =
      Zip-trans SameSeat SameSeat SameSeat seat_trans ps
        (modify_player id (set_position spot.x spot.y) ps) _
        (Zip-modify_player SameSeat id _ seat (λ p. (refl, refl)) ps)
        (set_positions-seats rest (modify_player id (set_position spot.x spot.y) ps))

  pub prepare_game-IsValid : (r : Room) (s : R.Seed) → IsValid r → IsValid (prepare_game r s).0
  unfolding prepare_game
  prepare_game-IsValid r s v =
      let (players, s₁) = R.range_order s r.players in
      reseated-IsValid r _ r.players Perm.rfl
        (set_positions-seats (generate_spawn_positions players s₁).0 r.players) refl refl
        (λ _. refl) v

  pub advance-IsValid : (r : Room) (s : R.Seed) → IsValid r → IsValid (advance r s).0
  unfolding advance run_items
  advance-IsValid r s v =
      reseated-IsValid r (advance r s).0 (R.range_order s r.players).0
        (R.range_order_perm s r.players)
        (Zip-mono _ SameSeat (λ p q h. (h.0, h.2)) (R.range_order s r.players).0
          (advance r s).0.players (advance-Same r s))
        refl refl v.armed v
