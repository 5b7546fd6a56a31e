-- ===== src/Room/Manager/Choice.antt =====
-- Which room `FindAvailableRoom` and `FindRoomByPlayerID` of internal/room/manager.go give.
use mathlib.Core.List.{Mem, Perm, Mem-prop, mem-map_of_mem}
use mathlib.Core.List.Perm
use gyeongdohalsaram_server.Base.{
  ℕ, zero, suc, ltb, length, ◌<◌, ◌≡◌, refl, ◌⊎◌, inl, inr, Bool, true, false, Bool-cases, Option,
  none, some, String, List, [], ◌∷◌, map, arith, All, All-perm, mem-All,
}
use gyeongdohalsaram_server.Runtime.{Runtime}
use gyeongdohalsaram_server.Game.Player.{Role}
use gyeongdohalsaram_server.Room.Defs.{Room}
use gyeongdohalsaram_server.Room.Manager.{
  Manager, rooms_if, room_at, first_with_player, find_room_by_player_id, find_available_room,
  is_available, is_preferred, has_player,
}

module _ ⦃R : Runtime⦄ where
  abbrev rooms_of : Manager → List Room
  rooms_of m = map (λ e. e.1) m.rooms

  -- No room of the manager passes the test.
  abbrev NoRoom : (Room → Bool) → Manager → Type 0
  NoRoom test m = All (λ e. test e.1 ≡ false) m.rooms

  rooms_if-All :
      (test : Room → Bool) (P : Room → Type 0) (rs : List (String × Room))
      → All (λ e. P e.1) rs
      → All (λ r. P r × (test r ≡ true)) (rooms_if test rs)
  unfolding rooms_if
  rooms_if-All test P [] h = tt
  rooms_if-All test P ((j, x) ∷ rs) h = elim (Bool-cases (test x)) [
    | inl here ↦ rw here ((h.0, here), rooms_if-All test P rs h.1)
    | inr later ↦ rw later (rooms_if-All test P rs h.1)
  ]

  rooms_if-none :
      (test : Room → Bool) (rs : List (String × Room))
      → ltb 0 (length (rooms_if test rs)) ≡ false
      → All (λ e. test e.1 ≡ false) rs
  unfolding rooms_if
  rooms_if-none test [] h = tt
  rooms_if-none test ((j, x) ∷ rs) h = elim (Bool-cases (test x)) [
    | inl here ↦ ground arith
    | inr later ↦ (later, rooms_if-none test rs (ground arith))
  ]

  room_at-some :
      (P : Room → Type 0) (rs : List Room) (i : ℕ)
      → All P rs
      → i < length rs
      → (r : Room) × (room_at rs i ≡ some r) × P r
  unfolding room_at
  room_at-some P [] i h lt = absurd (omega arith)
  room_at-some P (r ∷ rs) zero h lt = (r, refl, h.0)
  room_at-some P (r ∷ rs) (suc i) h lt = room_at-some P rs i h.1 (omega arith)

  -- The answer of `FindAvailableRoom`: a room of the manager that waits and has space, and for a
  -- player who prefers a role one where that role is open, if there is one; `none` if no room is
  -- available.
  abbrev pub IsChosen : Role → Manager → Option Room → Type 0
  IsChosen role m none = NoRoom is_available m
  IsChosen role m (some r) =
      Mem r (rooms_of m)
      × (is_available r ≡ true)
      × ((is_preferred role r ≡ true) ⊎ NoRoom (is_preferred role) m)

  listed_rooms :
      (m : Manager) (rs : List (String × Room))
      → Perm rs m.rooms
      → All (λ e. Mem e.1 (rooms_of m)) rs
  listed_rooms m rs p =
      All-perm _ (λ e. Mem-prop) m.rooms rs p
        (mem-All _ m.rooms (λ e h. mem-map_of_mem (λ (e : String × Room). e.1) h))

  none_listed :
      (test : Room → Bool) (m : Manager) (rs : List (String × Room))
      → Perm rs m.rooms
      → All (λ e. test e.1 ≡ false) rs
      → NoRoom test m
  none_listed test m rs p h = All-perm _ (λ e. hlevel) rs m.rooms (Perm.symm p) h

  preferred-IsAvailable :
      (role : Role) (r : Room) → is_preferred role r ≡ true → is_available r ≡ true
  unfolding is_preferred
  preferred-IsAvailable role r h = ground arith

  chosen :
      (test : Room → Bool) (m : Manager) (rs : List (String × Room)) (s : R.Seed)
      → Perm rs m.rooms
      → ltb 0 (length (rooms_if test rs)) ≡ true
      → (r : Room) × (room_at (rooms_if test rs) (R.rand_intn (length (rooms_if test rs)) s).0
          ≡ some r)
        × (Mem r (rooms_of m) × (test r ≡ true))
  chosen test m rs s p h =
      room_at-some (λ r. Mem r (rooms_of m) × (test r ≡ true)) (rooms_if test rs) _
        (rooms_if-All test (λ r. Mem r (rooms_of m)) rs (listed_rooms m rs p))
        (R.rand_intn_lt (length (rooms_if test rs)) s (ground arith))

  -- `FindAvailableRoom` gives a room of the manager that is available, and with the preferred role
  -- open if any such room there is. It gives none only if no room is available.
  pub find_available_room-IsChosen :
      (role : Role) (m : Manager) (s : R.Seed) → IsChosen role m (find_available_room role m s).0
  unfolding find_available_room
  find_available_room-IsChosen role m s =
      let p = R.range_order_perm s m.rooms in
      elim (Bool-cases (ltb 0 (length (rooms_if (is_preferred role) listed)))) [
        | inl some_left ↦
            let (r, e, (mem, good)) =
              chosen (is_preferred role) m listed (R.range_order s m.rooms).1 p some_left in
            rw (some_left, e) (mem, preferred-IsAvailable role r good, inl good)
        | inr none_left ↦
            rw none_left (elim (Bool-cases (ltb 0 (length (rooms_if is_available listed)))) [
              | inl free ↦
                  let (r, e, (mem, good)) =
                    chosen is_available m listed (R.range_order s m.rooms).1 p free in
                  rw (free, e)
                    (mem, good, inr (none_listed _ m listed p (rooms_if-none _ listed none_left)))
              | inr full ↦ rw full (none_listed _ m listed p (rooms_if-none _ listed full))
            ])
      ]
    where
      listed : List (String × Room)
      listed = (R.range_order s m.rooms).0

  -- The answer of `FindRoomByPlayerID`.
  abbrev pub IsRoomOf : String → Manager → Option Room → Type 0
  IsRoomOf id m none = NoRoom (has_player id) m
  IsRoomOf id m (some r) = Mem r (rooms_of m) × (has_player id r ≡ true)

  abbrev IsFirst : String → List (String × Room) → (Room → Type 0) → Option Room → Type 0
  IsFirst id rs P none = All (λ e. has_player id e.1 ≡ false) rs
  IsFirst id rs P (some r) = P r × (has_player id r ≡ true)

  later-IsFirst :
      (id : String) (e : String × Room) (rs : List (String × Room)) (P : Room → Type 0)
      (x : Option Room)
      → has_player id e.1 ≡ false
      → IsFirst id rs P x
      → IsFirst id (e ∷ rs) P x
  later-IsFirst id e rs P none absent h = (absent, h)
  later-IsFirst id e rs P (some r) absent h = h

  first_with_player-IsFirst :
      (id : String) (rs : List (String × Room)) (P : Room → Type 0)
      → All (λ e. P e.1) rs
      → IsFirst id rs P (first_with_player id rs)
  unfolding first_with_player
  first_with_player-IsFirst id [] P h = tt
  first_with_player-IsFirst id ((j, x) ∷ rs) P h = elim (Bool-cases (has_player id x)) [
    | inl here ↦ rw here (h.0, here)
    | inr later ↦
        rw later (later-IsFirst id (j, x) rs P _ later (first_with_player-IsFirst id rs P h.1))
  ]

  first-IsRoomOf :
      (id : String) (m : Manager) (rs : List (String × Room)) (x : Option Room)
      → Perm rs m.rooms
      → IsFirst id rs (λ r. Mem r (rooms_of m)) x
      → IsRoomOf id m x
  first-IsRoomOf id m rs none p h = none_listed _ m rs p h
  first-IsRoomOf id m rs (some r) p h = h

  -- `FindRoomByPlayerID` gives a room of the manager that the player is in, and none only if the
  -- player is in no room, in whatever order the rooms are visited.
  pub find_room_by_player_id-IsRoomOf :
      (id : String) (m : Manager) (s : R.Seed) → IsRoomOf id m (find_room_by_player_id id m s).0
  unfolding find_room_by_player_id
  find_room_by_player_id-IsRoomOf id m s =
      let p = R.range_order_perm s m.rooms in
      first-IsRoomOf id m (R.range_order s m.rooms).0 _ p
        (first_with_player-IsFirst id (R.range_order s m.rooms).0 _ (listed_rooms m _ p))
