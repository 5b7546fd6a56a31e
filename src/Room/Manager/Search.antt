-- ===== src/Room/Manager/Search.antt =====
-- The rooms of a manager, looked up, written back, removed and listed.
use mathlib.Core.List.{Perm}
use mathlib.Core.HLevel.{hedberg}
use gyeongdohalsaram_server.Base.{
  ℕ, zero, suc, ltb, length, ◌≡◌, refl, sym, subst, inl, inr, Bool, Bool-cases, Option, none, some,
  String, List, [], ◌∷◌, arith, All, All-perm, string_eq,
}
use gyeongdohalsaram_server.Runtime.{Runtime}
use gyeongdohalsaram_server.Room.Players.{lookup, insert, erase}
use gyeongdohalsaram_server.Room.Defs.{Room}
use gyeongdohalsaram_server.Room.Live.{IsLive, IsLive-prop}
use gyeongdohalsaram_server.Room.Players.Lookup.{lookup-insert_self, lookup-erase_self}
use gyeongdohalsaram_server.Room.Manager.{
  get_room, store_room, remove_room, Manager, rooms_if, room_at, first_with_player,
  find_room_by_player_id, find_available_room, is_available, is_preferred, has_player,
}
use gyeongdohalsaram_server.Game.Player.{Role}

module _ ⦃R : Runtime⦄ where
  -- An entry of the map: the room is valid and has a player, and it stands under its own code.
  abbrev pub Entry : String × Room → Type 0
  Entry e = (e.1.code ≡ e.0) × IsLive e.1

  Entry-prop : (e : String × Room) → IsProp (Entry e)
  Entry-prop e = hlevel (IsLive-prop, hedberg string_eq.dec)

  pub Listed-insert :
      (k : String) (r : Room) (rs : List (String × Room))
      → r.code ≡ k
      → IsLive r
      → All Entry rs
      → All Entry (insert k r rs)
  unfolding insert
  Listed-insert k r [] e v h = ((e, v), tt)
  Listed-insert k r ((j, x) ∷ rs) e v h = elim (string_eq.dec j k) [
    | yes same ↦ ground (arith, h.1, e, v)
    | no other ↦ ground (arith, h.0, Listed-insert k r rs e v h.1)
  ]

  -- A new room is put on the map before its first player is put in it.
  pub Listed-insert_twice :
      (k : String) (r r' : Room) (rs : List (String × Room))
      → r'.code ≡ k
      → IsLive r'
      → All Entry rs
      → All Entry (insert k r' (insert k r rs))
  unfolding insert
  Listed-insert_twice k r r' [] e v h = elim (string_eq.dec k k) [
    | yes same ↦ ground (arith, e, v)
    | no other ↦ absurd (other refl)
  ]
  Listed-insert_twice k r r' ((j, x) ∷ rs) e v h = elim (string_eq.dec j k) [
    | yes same ↦ elim (string_eq.dec k k) [
      | yes again ↦ ground (arith, h.1, e, v)
      | no other ↦ absurd (other refl)
    ]
    | no other ↦ ground (arith, h.0, Listed-insert_twice k r r' rs e v h.1)
  ]

  pub Listed-erase :
      (k : String) (rs : List (String × Room)) → All Entry rs → All Entry (erase k rs)
  unfolding erase
  Listed-erase k [] h = tt
  Listed-erase k ((j, x) ∷ rs) h = elim (string_eq.dec j k) [
    | yes same ↦ ground (arith, Listed-erase k rs h.1)
    | no other ↦ ground (arith, h.0, Listed-erase k rs h.1)
  ]

  Listed-perm : (rs rs' : List (String × Room)) → Perm rs' rs → All Entry rs → All Entry rs'
  Listed-perm rs rs' p h = All-perm Entry Entry-prop rs rs' p h

  -- A room that was found is valid, and has a player.
  abbrev pub Found : Option Room → Type 0
  Found none = Unit
  Found (some r) = IsLive r

  pub lookup-Found : (k : String) (rs : List (String × Room)) → All Entry rs → Found (lookup k rs)
  unfolding lookup
  lookup-Found k [] h = tt
  lookup-Found k ((j, x) ∷ rs) h = elim (string_eq.dec j k) [
    | yes same ↦ ground (arith, h.0.1)
    | no other ↦ ground (arith, lookup-Found k rs h.1)
  ]

  first_with_player-Found :
      (k : String) (rs : List (String × Room)) → All Entry rs → Found (first_with_player k rs)
  unfolding first_with_player
  first_with_player-Found k [] h = tt
  first_with_player-Found k ((j, x) ∷ rs) h = elim (Bool-cases (has_player k x)) [
    | inl here ↦ rw here h.0.1
    | inr later ↦ rw later (first_with_player-Found k rs h.1)
  ]

  rooms_if-All :
      (test : Room → Bool) (rs : List (String × Room))
      → All Entry rs
      → All IsLive (rooms_if test rs)
  unfolding rooms_if
  rooms_if-All test [] h = tt
  rooms_if-All test ((j, x) ∷ rs) h = elim (Bool-cases (test x)) [
    | inl here ↦ rw here (h.0.1, rooms_if-All test rs h.1)
    | inr later ↦ rw later (rooms_if-All test rs h.1)
  ]

  room_at-Found : (rs : List Room) (i : ℕ) → All IsLive rs → Found (room_at rs i)
  unfolding room_at
  room_at-Found [] i h = tt
  room_at-Found (r ∷ rs) zero h = h.0
  room_at-Found (r ∷ rs) (suc i) h = room_at-Found rs i h.1

  pub find_room-Found :
      (k : String) (m : Manager) (s : R.Seed)
      → All Entry m.rooms
      → Found (find_room_by_player_id k m s).0
  unfolding find_room_by_player_id
  find_room-Found k m s h =
      first_with_player-Found k (R.range_order s m.rooms).0
        (Listed-perm m.rooms (R.range_order s m.rooms).0 (R.range_order_perm s m.rooms) h)

  pub find_available-Found :
      (role : Role) (m : Manager) (s : R.Seed)
      → All Entry m.rooms
      → Found (find_available_room role m s).0
  unfolding find_available_room
  find_available-Found role m s h =
      elim (Bool-cases (ltb 0 (length (rooms_if (is_preferred role) listed)))) [
        | inl some_left ↦
            rw some_left (room_at-Found _ _ (rooms_if-All (is_preferred role) listed all))
        | inr none_left ↦
            rw none_left (elim (Bool-cases (ltb 0 (length (rooms_if is_available listed)))) [
              | inl free ↦ rw free (room_at-Found _ _ (rooms_if-All is_available listed all))
              | inr full ↦ rw full tt
            ])
      ]
    where
      listed : List (String × Room)
      listed = (R.range_order s m.rooms).0

      all : All Entry listed
      all = Listed-perm m.rooms listed (R.range_order_perm s m.rooms) h

  pub get_room-store_room :
      (r : Room) (code : String) (m : Manager)
      → r.code ≡ code
      → get_room code (store_room r m) ≡ some r
  unfolding get_room store_room
  get_room-store_room r code m e =
      subst (λ k. lookup code (insert k r m.rooms) ≡ some r) (sym e)
        (lookup-insert_self code r m.rooms)

  pub get_room-remove_room :
      (code : String) (m : Manager) → get_room code (remove_room code m) ≡ none
  unfolding get_room remove_room
  get_room-remove_room code m = lookup-erase_self code m.rooms
