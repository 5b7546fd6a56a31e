-- ===== src/Room/Manager.antt =====
-- internal/room/manager.go. The map of rooms is an association list from a code to its room; a method
-- that hands out a pointer hands out the room, which `store_room` writes back.
pub mod Search
pub mod Choice
use gyeongdohalsaram_server.Base.{
  ℕ, zero, suc, Bool, true, false, ◌&&◌, ◌||◌, Option, none, some, String, List, [], ◌∷◌, map, ltb,
  length, if◌then◌else◌,
}
use gyeongdohalsaram_server.Runtime.{Runtime}
use gyeongdohalsaram_server.Game.Constants.{max_players}
use gyeongdohalsaram_server.Game.State.{RoomState, waiting}
use gyeongdohalsaram_server.Game.Player.{Role, is_role_none}
use gyeongdohalsaram_server.Room.Players.{lookup, insert, erase, find_player}
use gyeongdohalsaram_server.Room.Defs.{Room, new_room, can_select_role}
use gyeongdohalsaram_server.Room.Codes.{generate_code}

pub record Manager ⦃R : Runtime⦄ : Type 0 where
  pub rooms : List (String × Room)

module _ ⦃R : Runtime⦄ where
  abbrev pub empty_manager : Manager
  empty_manager = record { rooms = [] }

  unfoldable pub create_room : Manager → R.Seed → Room × Manager × R.Seed
  create_room m s =
      let (code, s') = generate_code (map (λ e. e.0) m.rooms) s in
      (new_room code, record { rooms = insert code (new_room code) m.rooms }, s')

  unfoldable pub get_room : String → Manager → Option Room
  get_room code m = lookup code m.rooms

  unfoldable pub remove_room : String → Manager → Manager
  remove_room code m = record { rooms = erase code m.rooms }

  -- What is written through the pointer to a room.
  unfoldable pub store_room : Room → Manager → Manager
  store_room r m = record { rooms = insert r.code r m.rooms }

  abbrev room_count : Manager → ℕ
  room_count m = length m.rooms

  abbrev is_waiting : RoomState → Bool
  is_waiting waiting = true
  is_waiting _ = false

  -- The tests of one round of the loop of `FindAvailableRoom`.
  unfoldable pub is_available : Room → Bool
  is_available r = is_waiting r.state && ltb (length r.players) max_players

  unfoldable pub is_preferred : Role → Room → Bool
  is_preferred role r = is_available r && (is_role_none role || can_select_role role r)

  -- The slice of the rooms that pass a test.
  unfoldable pub rooms_if : (Room → Bool) → List (String × Room) → List Room
  rooms_if test [] = []
  rooms_if test ((_, r) ∷ rs) = let rest = rooms_if test rs in if test r then r ∷ rest else rest

  unfoldable pub room_at : List Room → ℕ → Option Room
  room_at [] i = none
  room_at (r ∷ rs) zero = some r
  room_at (r ∷ rs) (suc i) = room_at rs i

  unfoldable pub find_available_room : Role → Manager → R.Seed → Option Room × R.Seed
  find_available_room role m s =
      let (listed, s₁) = R.range_order s m.rooms in
      let available = rooms_if is_available listed in
      let preferred = rooms_if (is_preferred role) listed in
      if ltb 0 (length preferred)
      then (let (i, s₂) = R.rand_intn (length preferred) s₁ in (room_at preferred i, s₂))
      else if ltb 0 (length available)
      then (let (i, s₂) = R.rand_intn (length available) s₁ in (room_at available i, s₂))
      else (none, s₁)

  abbrev pub has_player : String → Room → Bool
  has_player player_id r = elim (find_player player_id r.players) [ none ↦ false | some _ ↦ true ]

  unfoldable pub first_with_player : String → List (String × Room) → Option Room
  first_with_player player_id [] = none
  first_with_player player_id ((_, r) ∷ rs) =
      if has_player player_id r then some r else first_with_player player_id rs

  unfoldable pub find_room_by_player_id : String → Manager → R.Seed → Option Room × R.Seed
  find_room_by_player_id player_id m s =
      let (listed, s') = R.range_order s m.rooms in (first_with_player player_id listed, s')
