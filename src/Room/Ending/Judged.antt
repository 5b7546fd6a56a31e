-- ===== src/Room/Ending/Judged.antt =====
-- Who wins at the end of a round of `gameLoop` of internal/room/room.go.
use gyeongdohalsaram_server.Base.{
  ◌≡◌, refl, ◌∙◌, ◌⊎◌, true, false, none, some, String, ◌++◌, arith, subst, pos, ◌-ℤ◌, leb_ℤ, All,
  Any,
}
use gyeongdohalsaram_server.Runtime.{Runtime}
use gyeongdohalsaram_server.Game.State.{
  playing, ended, WinResult, win_none, win_police, win_thief, win_string,
}
use gyeongdohalsaram_server.Game.Logic.Winner.{IsThief, IsCaught, check_police_win_iff}
use gyeongdohalsaram_server.Ws.Message.{Message, type_game_over, new_message, game_over_message}
use gyeongdohalsaram_server.Room.Defs.{Room, closed_channel, broadcast_message}
use gyeongdohalsaram_server.Room.Tick.{
  Round, goes_on, returns, panics, tick, advance, run_items, verdict, game_state,
}
use gyeongdohalsaram_server.Room.Invariant.{IsValid}
use gyeongdohalsaram_server.Room.Ending.{Outcome, tick-Outcome}

module _ ⦃R : Runtime⦄ where
  -- There is a thief, and all thieves are arrested.
  abbrev pub IsCleared : Room → Type 0
  IsCleared r = Any IsThief r.players × All IsCaught r.players

  -- Who has won, by the name that the clients are told: the police once all thieves are arrested, and
  -- the thieves if the time is up and some are not.
  abbrev pub IsWonBy : String → Room → Type 0
  IsWonBy winner r =
      (IsCleared r × (winner ≡ "police"))
      ⊎ ((IsCleared r → ⊥) × (leb_ℤ r.remaining_time (pos 0) ≡ true) × (winner ≡ "thief"))

  -- The room 50 milliseconds later, with the same connections.
  pub record HasTicked (r r' : Room) : Type 0 where
    pub time : r'.remaining_time ≡ r.remaining_time -ℤ pos 50_000_000
    pub state : r'.state ≡ r.state
    pub same : (r'.code ≡ r.code) × (r'.clients ≡ r.clients) × (r'.host_id ≡ r.host_id)

  -- The loop goes on while nobody has won; otherwise the game is over, and the winner is told.
  abbrev pub IsJudged : Room → Round → Type 0
  IsJudged r (goes_on r' out s) =
      HasTicked r r'
      × (IsCleared r' → ⊥)
      × (leb_ℤ r'.remaining_time (pos 0) ≡ false)
      × (out ≡ broadcast_message r (game_state r'))
  IsJudged r (returns r' out s) =
      (mid : Room) × (winner : String) × HasTicked r mid
      × IsWonBy winner mid
      × (r' ≡ record mid { state = ended; stop_ch = closed_channel })
      × (out
          ≡ broadcast_message r (game_state mid)
            ++ broadcast_message r (new_message type_game_over (game_over_message winner)))
  IsJudged r panics = ⊥

  advance-HasTicked : (r : Room) (s : R.Seed) → HasTicked r (advance r s).0
  unfolding advance run_items
  advance-HasTicked r s = record { time = refl; state = refl; same = (refl, refl, refl) }

  broadcast-advance :
      (r : Room) (s : R.Seed) (msg : Message)
      → broadcast_message (advance r s).0 msg ≡ broadcast_message r msg
  unfolding advance run_items broadcast_message
  broadcast-advance r s msg = refl

  verdict-IsWonBy :
      (r : Room) (result : WinResult) → verdict r ≡ some result → IsWonBy (win_string result) r
  unfolding verdict win_string
  verdict-IsWonBy r win_none e = ground arith
  verdict-IsWonBy r win_police e = ground (arith, check_police_win_iff r.players)
  verdict-IsWonBy r win_thief e = ground (arith, check_police_win_iff r.players)

  verdict-undecided :
      (r : Room) → verdict r ≡ none → (IsCleared r → ⊥) × (leb_ℤ r.remaining_time (pos 0) ≡ false)
  unfolding verdict
  verdict-undecided r e = ground (arith, check_police_win_iff r.players)

  judged : (r : Room) (s : R.Seed) (x : Round) → r.state ≡ playing → Outcome r s x → IsJudged r x
  judged r s (goes_on r' out s') on (go, er, es, eo) = rw er (
      let next = advance-HasTicked r s in
      let (free, time) = verdict-undecided (advance r s).0 (subst (λ q. verdict q ≡ none) er go) in
      (next, free, time, rw er at eo ∙ broadcast-advance r s _))
  judged r s (returns r' out s') on (result, won, er, es, eo) =
      let next = advance-HasTicked r s in
      let still : (advance r s).0.state ≡ playing = next.state ∙ on in
      (
        (advance r s).0,
        win_string result,
        next,
        verdict-IsWonBy (advance r s).0 result won,
        er ∙ rw still refl,
        eo
            ∙ rw
                (
                  still,
                  broadcast-advance r s (game_state (advance r s).0),
                  broadcast-advance r s
                      (new_message type_game_over (game_over_message (win_string result))),
                )
                refl,
      )
  judged r s panics on o = o

  -- A round of a game that is on does not panic. It takes 50 milliseconds, keeps the connections, and
  -- sends everybody in the room its new state. If there is a thief and all thieves are arrested, or else
  -- if the time is up, the loop returns, with the game over and the channel closed, and everybody is
  -- told that the police, or else the thieves, have won. Otherwise the loop goes on.
  pub tick-IsJudged :
      (r : Room) (s : R.Seed) → IsValid r → r.state ≡ playing → IsJudged r (tick r s)
  tick-IsJudged r s v on = judged r s (tick r s) on (tick-Outcome r s v)
