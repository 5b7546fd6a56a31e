-- ===== src/Game/Booster.antt =====
-- internal/game/booster.go: the items that speed a player up.
use gyeongdohalsaram_server.Base.{ℕ, true, false, List, map, ℤ, pos, ◌-ℤ◌, leb_ℤ, if◌then◌else◌}
use gyeongdohalsaram_server.Runtime.{Runtime}
use gyeongdohalsaram_server.Game.Constants.{
  max_boosters, booster_pickup_range, booster_duration, booster_respawn_time,
}
use gyeongdohalsaram_server.Game.Player.{Player}
use gyeongdohalsaram_server.Game.MapObjects.{MapObject}
use gyeongdohalsaram_server.Game.Item.{
  Kind, ItemManager, spawn_item, new_manager, update, check_pickup,
}

module _ ⦃R : Runtime⦄ where
  abbrev pub boost : Player → Player
  boost p = record p { boosted = true; boost_timer = booster_duration }

  abbrev pub booster : Kind
  booster = record {
    limit = max_boosters;
    pickup_range = booster_pickup_range;
    respawn_time = booster_respawn_time;
    effect = boost;
  }

  unfoldable pub new_booster_manager : List MapObject → R.Seed → ItemManager × R.Seed
  new_booster_manager = new_manager booster

  unfoldable pub spawn_booster : ItemManager → R.Seed → ItemManager × R.Seed
  spawn_booster = spawn_item

  unfoldable pub update_boosters : ℤ → ItemManager → R.Seed → ItemManager × R.Seed
  update_boosters = update

  unfoldable pub check_booster_pickup :
      ItemManager → List Player → List ℕ × ItemManager × List Player
  check_booster_pickup = check_pickup booster

  unfoldable pub update_boost : ℤ → Player → Player
  update_boost dt p =
      if p.boosted
      then (let left = p.boost_timer -ℤ dt in
          if leb_ℤ left (pos 0)
          then record p { boosted = false; boost_timer = pos 0 }
          else record p { boost_timer = left })
      else p

  unfoldable pub update_player_boosts : ℤ → List Player → List Player
  update_player_boosts dt = map (update_boost dt)
