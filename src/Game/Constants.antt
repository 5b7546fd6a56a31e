-- ===== src/Game/Constants.antt =====
-- internal/game/constants.go. Lengths in pixels are numbers, which `lit` takes to float64; a duration
-- is in nanoseconds.
use gyeongdohalsaram_server.Base.{ℕ, ℤ, pos}

abbrev pub map_width : ℕ
map_width = 3240

abbrev pub map_height : ℕ
map_height = 5760

abbrev pub min_players : ℕ
min_players = 2

abbrev pub max_players : ℕ
max_players = 8

abbrev pub max_police : ℕ
max_police = 2

abbrev pub move_speed : ℕ
move_speed = 400

abbrev pub player_radius : ℕ
player_radius = 50

abbrev pub arrest_range : ℕ
arrest_range = 100

abbrev pub jail_range : ℕ
jail_range = 150

abbrev pub invincible_time : ℤ
invincible_time = pos 3_000_000_000

abbrev pub game_duration : ℤ
game_duration = pos 180_000_000_000

-- A twentieth of a second.
abbrev pub tick_interval : ℤ
tick_interval = pos 50_000_000

abbrev pub min_spawn_distance : ℕ
min_spawn_distance = 200

abbrev pub tree_count : ℕ
tree_count = 10

abbrev pub lake_count : ℕ
lake_count = 2

abbrev pub jail_count : ℕ
jail_count = 1

abbrev pub object_min_distance : ℕ
object_min_distance = 300

abbrev pub object_spawn_radius : ℕ
object_spawn_radius = 300

abbrev pub max_boosters : ℕ
max_boosters = 4

abbrev pub booster_pickup_range : ℕ
booster_pickup_range = 60

abbrev pub booster_duration : ℤ
booster_duration = pos 5_000_000_000

abbrev pub booster_respawn_time : ℤ
booster_respawn_time = pos 8_000_000_000

abbrev pub max_stumble_stones : ℕ
max_stumble_stones = 3

abbrev pub stumble_stone_pickup_range : ℕ
stumble_stone_pickup_range = 60

abbrev pub stumble_slow_duration : ℤ
stumble_slow_duration = pos 3_000_000_000

abbrev pub stumble_respawn_time : ℤ
stumble_respawn_time = pos 10_000_000_000
