-- ===== src/Room/Tick.antt =====
-- `gameLoop` of internal/room/room.go. The loop's list of pointers is the map itself, put in the order
-- of the range that builds it: what the loop writes through a pointer is written in the map.
pub mod Stages
pub mod Same
pub mod Turn
use gyeongdohalsaram_server.Base.{
  ℕ, zero, suc, Bool, true, false, not, ◌&&◌, ◌||◌, Option, none, some, String, List, [], ◌∷◌, ◌++◌,
  map, ℤ, pos, ◌-ℤ◌, leb_ℤ, ◌==◌, string_eq, if◌then◌else◌,
}
use gyeongdohalsaram_server.Runtime.{Runtime}
use gyeongdohalsaram_server.Game.Constants.{tick_interval}
use gyeongdohalsaram_server.Game.State.{WinResult, win_police, win_thief}
use gyeongdohalsaram_server.Game.Player.{
  Player, free, role_string, player_state_string, is_thief, is_free, is_arrested, is_invincible,
  arrest, release,
}
use gyeongdohalsaram_server.Game.Collision.{find_arrest_pairs, find_jail_rescue_candidates}
use gyeongdohalsaram_server.Game.Logic.{check_police_win}
use gyeongdohalsaram_server.Game.Spawn.{jail_x, jail_y}
use gyeongdohalsaram_server.Game.Item.{Item, ItemManager}
use gyeongdohalsaram_server.Game.Booster.{
  update_boosters, check_booster_pickup, update_player_boosts,
}
use gyeongdohalsaram_server.Game.StumbleStone.{
  update_stones, check_stone_pickup, update_player_slows,
}
use gyeongdohalsaram_server.Ws.Message.{
  type_game_state, PlayerStateEntry, Message, Outbox, new_message, game_state_message,
}
use gyeongdohalsaram_server.Room.Players.{modify_player}
use gyeongdohalsaram_server.Room.Defs.{
  Room, StopChannel, closed_channel, broadcast_message, stop_game,
}

module _ ⦃R : Runtime⦄ where
  -- `game.TickInterval.Seconds()`
  abbrev pub dt : R.Float
  dt = R.lit 5 100

  abbrev arrest_duration : R.Float
  arrest_duration = R.lit 15 10

  abbrev rescue_duration : R.Float
  rescue_duration = R.lit 2 1

  unfoldable pub expire_invincibility : Player → Player
  expire_invincibility p =
      if is_invincible p
      then (let left = p.invincible_timer -ℤ tick_interval in
          if leb_ℤ left (pos 0)
          then record p { state = free; invincible_timer = pos 0 }
          else record p { invincible_timer = left })
      else p

  -- The managers of a room may be nil.
  unfoldable pub run_boosters :
      Option ItemManager → List Player → R.Seed → Option ItemManager × List Player × R.Seed
  run_boosters none ps s = (none, ps, s)
  run_boosters (some m) ps s =
      let (m₁, s') = update_boosters tick_interval m s in
      let (picked, m₂, ps') = check_booster_pickup m₁ ps in (some m₂, ps', s')

  unfoldable pub run_stones :
      Option ItemManager → List Player → R.Seed → Option ItemManager × List Player × R.Seed
  run_stones none ps s = (none, ps, s)
  run_stones (some m) ps s =
      let (m₁, s') = update_stones tick_interval m s in
      let (picked, m₂, ps') = check_stone_pickup m₁ ps in (some m₂, ps', s')

  -- One round of the loop over the arrest pairs, on the thief of the pair.
  unfoldable pub chase : Player → Player
  chase thief =
      let gauge = R.add thief.arrest_gauge dt in
      let thief' = record thief { arrest_gauge = gauge } in
      if R.le arrest_duration gauge then arrest thief' else thief'

  unfoldable pub run_arrests : List (Player × Player) → List Player → List Player
  run_arrests [] ps = ps
  run_arrests ((cop, thief) ∷ pairs) ps = run_arrests pairs (modify_player thief.id chase ps)

  unfoldable pub release_if_arrested : Player → Player
  release_if_arrested p = if is_thief p.role && is_arrested p then release p else p

  -- `thief.RescueGauge >= game.RescueDuration`, for the thief with this id.
  unfoldable pub rescue_due : String → List Player → Bool
  rescue_due id [] = false
  rescue_due id (p ∷ ps) =
      if p.id == id then R.le rescue_duration p.rescue_gauge else rescue_due id ps

  unfoldable pub run_rescue : String → List Player → List Player
  run_rescue id ps =
      let ps' = modify_player id (λ p. record p { rescue_gauge = R.add p.rescue_gauge dt }) ps in
      if rescue_due id ps'
      then modify_player id (λ p. record p { rescue_gauge = R.lit 0 1 })
          (map release_if_arrested ps')
      else ps'

  unfoldable pub run_rescues : List Player → List Player → List Player
  run_rescues [] ps = ps
  run_rescues (thief ∷ thieves) ps = run_rescues thieves (run_rescue thief.id ps)

  -- `rescuingThieves[id]`
  unfoldable pub among : String → List Player → Bool
  among id [] = false
  among id (p ∷ ps) = p.id == id || among id ps

  unfoldable pub reset_rescue_gauge : List Player → Player → Player
  reset_rescue_gauge rescuing p =
      if is_thief p.role && is_free p && not (among p.id rescuing)
      then record p { rescue_gauge = R.lit 0 1 }
      else p

  unfoldable pub state_entry : Player → PlayerStateEntry
  state_entry p = record {
    id = p.id;
    x = p.x;
    y = p.y;
    state = player_state_string p.state;
    role = role_string p.role;
    arrest_gauge = p.arrest_gauge;
    rescue_gauge = p.rescue_gauge;
    boosted = p.boosted;
    slowed = p.slowed;
  }

  -- What the tick does to the players after the items: arrests, rescues, and the gauges.
  unfoldable pub run_captures : List Player → List Player
  run_captures ps =
      let ps₁ = run_arrests (find_arrest_pairs ps) ps in
      let candidates = find_jail_rescue_candidates ps₁ jail_x jail_y in
      let ps₂ = run_rescues candidates ps₁ in map (reset_rescue_gauge candidates) ps₂

  abbrev active_of : Option ItemManager → List Item
  active_of none = []
  active_of (some m) = m.active

  unfoldable pub remaining_seconds : ℤ → R.Float
  remaining_seconds t = if R.lt (R.seconds t) (R.lit 0 1) then R.lit 0 1 else R.seconds t

  -- The part of a tick under the lock: up to the stumble stones, and then the whole.
  unfoldable pub run_items : Room → R.Seed → Room × R.Seed
  run_items r s =
      let (listed, s₁) = R.range_order s r.players in
      let ps₁ = update_player_boosts tick_interval (map expire_invincibility listed) in
      let (boosters, ps₂, s₂) = run_boosters r.boosters ps₁ s₁ in
      let ps₃ = update_player_slows tick_interval ps₂ in
      let (stones, ps₄, s₃) = run_stones r.stumble_stones ps₃ s₂ in
      (
        record r {
          remaining_time = r.remaining_time -ℤ tick_interval;
          players = ps₄;
          boosters = boosters;
          stumble_stones = stones;
        },
        s₃,
      )

  unfoldable pub advance : Room → R.Seed → Room × R.Seed
  advance r s =
      let (r', s') = run_items r s in (record r' { players = run_captures r'.players }, s')

  unfoldable pub game_state : Room → Message
  game_state r = new_message type_game_state (
      game_state_message (remaining_seconds r.remaining_time) (map state_entry r.players)
        (active_of r.boosters) (active_of r.stumble_stones))

  -- What ends the game after a tick: `none` while it goes on.
  unfoldable pub verdict : Room → Option WinResult
  verdict r =
      if check_police_win r.players
      then some win_police
      else if leb_ℤ r.remaining_time (pos 0)
      then some win_thief
      else none

  -- How a round of the loop ends: the loop goes on, it returns, or the server panics.
  pub data Round : Type 0 where
    goes_on : Room → Outbox → R.Seed → Round
    returns : Room → Outbox → R.Seed → Round
    panics : Round

  unfoldable pub tick : Room → R.Seed → Round
  tick r s =
      let (r', s') = advance r s in
      let out = broadcast_message r' (game_state r') in
      elim (verdict r') [
        | none ↦ goes_on r' out s'
        | some result ↦ elim (stop_game result r') [
          | none ↦ panics
          | some (r'', over) ↦ returns r'' (out ++ over) s'
        ]
      ]

  abbrev pub is_closed : StopChannel → Bool
  is_closed closed_channel = true
  is_closed _ = false

  -- The loop on fuel; it ends at once if the channel is closed. A round that goes on when the fuel is
  -- out is the result.
  unfoldable pub game_loop : ℕ → Room → R.Seed → Outbox → Round
  game_loop zero r s out = goes_on r out s
  game_loop (suc n) r s out = elim (is_closed r.stop_ch) [
    | true ↦ returns r out s
    | false ↦ elim (tick r s) [
      | goes_on r' more s' ↦ game_loop n r' s' (out ++ more)
      | returns r' more s' ↦ returns r' (out ++ more) s'
      | panics ↦ panics
    ]
  ]
