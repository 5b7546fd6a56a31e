-- ===== src/Room/Ending/Loop.antt =====
-- The game loop of internal/room/room.go ends.
use gyeongdohalsaram_server.Base.{
  ℕ, zero, suc, ◌*◌, ◌≤◌, ◌<◌, ◌≡◌, refl, ◌∙◌, ◌⊎◌, true, false, none, some, [], ◌++◌, arith, pos,
  ◌-ℤ◌, leb_ℤ,
}
use gyeongdohalsaram_server.Runtime.{Runtime}
use gyeongdohalsaram_server.Game.Constants.{tick_interval}
use gyeongdohalsaram_server.Game.State.{playing, ended, WinResult}
use gyeongdohalsaram_server.Game.Logic.{check_police_win}
use gyeongdohalsaram_server.Ws.Message.{Outbox}
use gyeongdohalsaram_server.Room.Defs.{Room, open_channel, closed_channel, prepare_game}
use gyeongdohalsaram_server.Room.Tick.{
  Round, goes_on, returns, panics, tick, advance, run_items, verdict, game_loop,
}
use gyeongdohalsaram_server.Room.Invariant.{IsValid, advance-IsValid, prepare_game-IsValid}
use gyeongdohalsaram_server.Room.Ending.{stopped, stopped-IsValid, Outcome, tick-Outcome}

module _ ⦃R : Runtime⦄ where
  advance_time :
      (r : Room) (s : R.Seed)
      → ((advance r s).0.remaining_time ≡ r.remaining_time -ℤ tick_interval)
        × ((advance r s).0.state ≡ r.state)
        × ((advance r s).0.stop_ch ≡ r.stop_ch)
  unfolding advance run_items
  advance_time r s = (refl, refl, refl)

  pub verdict-none : (r : Room) → verdict r ≡ none → leb_ℤ r.remaining_time (pos 0) ≡ false
  unfolding verdict
  verdict-none r e = ground arith

  -- A game that is on, with so many ticks to go.
  pub record TicksLeft (n : ℕ) (r : Room) : Type 0 where
    pub valid : IsValid r
    pub on : r.state ≡ playing
    pub left : r.remaining_time ≡ pos (n * 50_000_000)

  pub advance-TicksLeft :
      (n : ℕ) (r : Room) (s : R.Seed) → TicksLeft (suc n) r → TicksLeft n (advance r s).0
  unfolding ◌-ℤ◌
  advance-TicksLeft n r s t = record {
    valid = advance-IsValid r s t.valid;
    on = (advance_time r s).1 ∙ t.on;
    left = (advance_time r s).0 ∙ rw t.left (ground arith);
  }

  -- The loop returned with the game ended: by an arrest of all thieves, or by time.
  abbrev pub Ends : Round → Type 0
  Ends x =
      (r : Room) × (out : Outbox) × (s : R.Seed) × (x ≡ returns r out s)
      × IsValid r
      × (r.state ≡ ended)
      × (r.stop_ch ≡ closed_channel)
      × ((check_police_win r.players ≡ true) ⊎ (leb_ℤ r.remaining_time (pos 0) ≡ true))

  pub verdict-some :
      (r : Room) (result : WinResult)
      → verdict r ≡ some result
      → (check_police_win r.players ≡ true) ⊎ (leb_ℤ r.remaining_time (pos 0) ≡ true)
  unfolding verdict
  verdict-some r result e = ground arith

  game_loop_open :
      (n : ℕ) (r : Room) (s : R.Seed) (out : Outbox) {x : Round}
      → r.stop_ch ≡ open_channel
      → tick r s ≡ x
      → game_loop (suc n) r s out ≡ elim x [
        | goes_on r' more s' ↦ game_loop n r' s' (out ++ more)
        | returns r' more s' ↦ returns r' (out ++ more) s'
        | panics ↦ panics
      ]
  unfolding game_loop
  game_loop_open n r s out e h = rw (e, h, game_loop)

  pub stopped_ended :
      (result : WinResult) (r : Room)
      → r.state ≡ playing
      → ((stopped result r).0.state ≡ ended)
        × ((stopped result r).0.stop_ch ≡ closed_channel)
        × ((stopped result r).0.players ≡ r.players)
        × ((stopped result r).0.remaining_time ≡ r.remaining_time)
  stopped_ended result r on = rw on (refl, refl, refl, refl)

  game_loop_step :
      (fuel n : ℕ) (r : Room) (s : R.Seed) (out : Outbox) (x : Round)
      → TicksLeft (suc n) r
      → Outcome r s x
      → tick r s ≡ x
      → ((r' : Room) (s' : R.Seed) (out' : Outbox)
          → 0 < n
          → TicksLeft n r'
          → Ends (game_loop fuel r' s' out'))
      → Ends (game_loop (suc fuel) r s out)
  game_loop_step fuel n r s out (goes_on r' more s') t (go, er, es, eo) e ih =
      rw (game_loop_open fuel r s out (t.valid.armed t.on) e) (
        ih r' s' (out ++ more) (more_left (verdict-none r' go)) (rw er (advance-TicksLeft n r s t)))
    where
      more_left : leb_ℤ r'.remaining_time (pos 0) ≡ false → 0 < n
      more_left h =
          let e : r'.remaining_time ≡ pos (n * 50_000_000) =
            rw er (advance-TicksLeft n r s t).left in
          ground arith
  game_loop_step fuel n r s out (returns r' more s') t (result, won, er, es, eo) e ih =
      let after = (advance r s).0 in
      let (st, ch, ps, time) = stopped_ended result after (advance-TicksLeft n r s t).on in
      (
        r',
        out ++ more,
        s',
        game_loop_open fuel r s out (t.valid.armed t.on) e,
        rw er (stopped-IsValid result after (advance-IsValid r s t.valid)),
        rw er st,
        rw er ch,
        rw (er, ps, time) (verdict-some after result won),
      )
  game_loop_step fuel n r s out panics t o e ih = absurd o

  -- A valid room whose game is on, with `n` ticks of its time to go, and at least one: on `n` rounds
  -- of fuel or more the game loop returns without a panic, from whatever draws and orders of ranges it
  -- meets. The game has then ended, the channel is closed, and all thieves are arrested or the time
  -- is up.
  game_loop-Ends :
      (fuel n : ℕ) (r : Room) (s : R.Seed) (out : Outbox)
      → 0 < n
      → n ≤ fuel
      → TicksLeft n r
      → Ends (game_loop fuel r s out)
  game_loop-Ends zero n r s out h k t = absurd (omega arith)
  game_loop-Ends (suc fuel) zero r s out h k t = absurd (omega arith)
  game_loop-Ends (suc fuel) (suc n) r s out h k t =
      game_loop_step fuel n r s out (tick r s) t (tick-Outcome r s t.valid) refl
        (λ r' s' out' more left. game_loop-Ends fuel n r' s' out' more (omega arith) left)

  pub prepare_game-TicksLeft :
      (r : Room) (s : R.Seed) → IsValid r → TicksLeft 3600 (prepare_game r s).0
  unfolding prepare_game
  prepare_game-TicksLeft r s v = record {
    valid = prepare_game-IsValid r s v;
    on = refl;
    left = refl;
  }

  -- A game that `PrepareGame` starts in a valid room is over after at most 3600 ticks, the 180
  -- seconds of the game at 20 ticks a second.
  pub prepared_game-Ends :
      (r : Room) (s s' : R.Seed) → IsValid r → Ends (game_loop 3600 (prepare_game r s).0 s' [])
  prepared_game-Ends r s s' v =
      game_loop-Ends 3600 3600 (prepare_game r s).0 s' [] (omega arith) (omega arith)
        (prepare_game-TicksLeft r s v)
