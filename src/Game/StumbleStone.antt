-- ===== src/Game/StumbleStone.antt =====
-- internal/game/stumble_stone.go: the items that slow a player down.
use gyeongdohalsaram_server.Base.{ℕ, true, false, List, map, ℤ, pos, ◌-ℤ◌, leb_ℤ, if◌then◌else◌}
use gyeongdohalsaram_server.Runtime.{Runtime}
use gyeongdohalsaram_server.Game.Constants.{
  max_stumble_stones, stumble_stone_pickup_range, stumble_slow_duration, stumble_respawn_time,
}
use gyeongdohalsaram_server.Game.Player.{Player}
use gyeongdohalsaram_server.Game.MapObjects.{MapObject}
use gyeongdohalsaram_server.Game.Item.{
  Kind, ItemManager, spawn_item, new_manager, update, check_pickup,
}

module _ ⦃R : Runtime⦄ where
  abbrev pub slow : Player → Player
  slow p = record p { slowed = true; slow_timer = stumble_slow_duration }

  abbrev pub stone : Kind
  stone = record {
    limit = max_stumble_stones;
    pickup_range = stumble_stone_pickup_range;
    respawn_time = stumble_respawn_time;
    effect = slow;
  }

  unfoldable pub new_stone_manager : List MapObject → R.Seed → ItemManager × R.Seed
  new_stone_manager = new_manager stone

  unfoldable pub spawn_stone : ItemManager → R.Seed → ItemManager × R.Seed
  spawn_stone = spawn_item

  unfoldable pub update_stones : ℤ → ItemManager → R.Seed → ItemManager × R.Seed
  update_stones = update

  unfoldable pub check_stone_pickup : ItemManager → List Player → List ℕ × ItemManager × List Player
  check_stone_pickup = check_pickup stone

  unfoldable pub update_slow : ℤ → Player → Player
  update_slow dt p =
      if p.slowed
      then (let left = p.slow_timer -ℤ dt in
          if leb_ℤ left (pos 0)
          then record p { slowed = false; slow_timer = pos 0 }
          else record p { slow_timer = left })
      else p

  unfoldable pub update_player_slows : ℤ → List Player → List Player
  update_player_slows dt = map (update_slow dt)
