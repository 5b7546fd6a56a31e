-- ===== src/Room/Ending.antt =====
-- How a game ends: `StopGame` and a tick of `gameLoop` of internal/room/room.go.
pub mod Loop
pub mod Judged
use gyeongdohalsaram_server.Base.{
  ℕ, zero, suc, ◌*◌, ◌≤◌, ◌<◌, ◌≡◌, refl, ◌∙◌, ◌⊎◌, inl, inr, true, false, Bool-cases, none, some,
  Option-cases, [], ◌++◌, arith, pos, ◌-ℤ◌, leb_ℤ, if◌then◌else◌,
}
use gyeongdohalsaram_server.Runtime.{Runtime}
use gyeongdohalsaram_server.Game.Constants.{tick_interval}
use gyeongdohalsaram_server.Game.State.{playing, ended, WinResult, win_string}
use gyeongdohalsaram_server.Game.Logic.{check_police_win}
use gyeongdohalsaram_server.Ws.Message.{type_game_over, Outbox, new_message, game_over_message}
use gyeongdohalsaram_server.Room.Defs.{
  Room, open_channel, closed_channel, is_playing, prepare_game, stop_game, close_channel,
  broadcast_message,
}
use gyeongdohalsaram_server.Room.Tick.{
  Round, goes_on, returns, panics, tick, advance, run_items, verdict, game_state, game_loop,
}
use gyeongdohalsaram_server.Room.Invariant.{IsValid, advance-IsValid, prepare_game-IsValid}

module _ ⦃R : Runtime⦄ where
  -- The room after `StopGame`, and what is sent.
  abbrev pub stopped : WinResult → Room → Room × Outbox
  stopped result r =
      if is_playing r.state
      then (
        record r { state = ended; stop_ch = closed_channel },
        broadcast_message r (new_message type_game_over (game_over_message (win_string result))),
      )
      else (r, [])

  stop_game_playing :
      (result : WinResult) (r : Room)
      → r.state ≡ playing
      → r.stop_ch ≡ open_channel
      → stop_game result r ≡ some (stopped result r)
  unfolding stop_game close_channel broadcast_message
  stop_game_playing result r on open_ch = rw (on, open_ch, stop_game)

  stop_game_idle :
      (result : WinResult) (r : Room)
      → is_playing r.state ≡ false
      → stop_game result r ≡ some (r, [])
  unfolding stop_game
  stop_game_idle result r off = rw off

  pub stop_game_lem :
      (result : WinResult) (r : Room) → IsValid r → stop_game result r ≡ some (stopped result r)
  stop_game_lem result r v = elim (Bool-cases (is_playing r.state)) [
    | inl on ↦ let e : r.state ≡ playing = ground arith in stop_game_playing result r e (v.armed e)
    | inr off ↦ rw off (stop_game_idle result r off)
  ]

  pub stopped-IsValid : (result : WinResult) (r : Room) → IsValid r → IsValid (stopped result r).0
  stopped-IsValid result r v = elim (Bool-cases (is_playing r.state)) [
    | inl on ↦ rw on (record {
      small = v.small;
      policed = v.policed;
      distinct = v.distinct;
      hosted = v.hosted;
      connected = v.connected;
      armed = λ e. cc;
    })
    | inr off ↦ rw off v
  ]

  stopped_idle : (result : WinResult) (r : Room) → is_playing (stopped result r).0.state ≡ false
  stopped_idle result r = elim (Bool-cases (is_playing r.state)) [
    | inl on ↦ rw on
    | inr off ↦ rw off off
  ]

  -- `StopGame` of a valid room does not panic. It ends a game that is on, closes the channel of its
  -- loop and sends everybody in the room who wins; any other room it leaves alone, and nothing is
  -- sent. The room stays valid, and a second call does nothing.
  pub stop_game-stopped :
      (result : WinResult) (r : Room)
      → IsValid r
      → (stop_game result r ≡ some (stopped result r))
        × IsValid (stopped result r).0
        × ((later : WinResult)
            → stop_game later (stopped result r).0 ≡ some ((stopped result r).0, []))
  stop_game-stopped result r v = (
    stop_game_lem result r v,
    stopped-IsValid result r v,
    λ later. stop_game_idle later (stopped result r).0 (stopped_idle result r),
  )

  -- What a tick comes to, by the verdict on the room after it.
  abbrev pub Outcome : Room → R.Seed → Round → Type 0
  Outcome r s (goes_on r' out s') =
      (verdict r' ≡ none)
      × (r' ≡ (advance r s).0)
      × (s' ≡ (advance r s).1)
      × (out ≡ broadcast_message r' (game_state r'))
  Outcome r s (returns r' out s') =
      (result : WinResult) × (verdict (advance r s).0 ≡ some result)
      × (r' ≡ (stopped result (advance r s).0).0)
      × (s' ≡ (advance r s).1)
      × (out
          ≡ broadcast_message (advance r s).0 (game_state (advance r s).0)
            ++ (stopped result (advance r s).0).1)
  Outcome r s panics = ⊥

  -- A tick of a valid room does not panic. It sends the state of the game to everybody in the room;
  -- the loop goes on if there is no verdict on the new room, and otherwise the game is stopped with
  -- that result.
  pub tick-Outcome : (r : Room) (s : R.Seed) → IsValid r → Outcome r s (tick r s)
  unfolding tick
  tick-Outcome r s v = elim (Option-cases (verdict (advance r s).0)) [
    | inl e ↦ rw (e, tick) (e, refl, refl, refl)
    | inr (result, e) ↦
        rw (e, stop_game_lem result (advance r s).0 (advance-IsValid r s v), tick)
          (result, e, refl, refl, refl)
  ]
