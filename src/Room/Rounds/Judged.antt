-- ===== src/Room/Rounds/Judged.antt =====
-- Who wins at the end of a round of `gameLoop` of internal/room/room.go, whatever has happened to the
-- room since the loop gave the lock back.
use gyeongdohalsaram_server.Base.{◌≡◌, ◌⊎◌, true, false, String, List, [], ◌++◌, map, All, Any}
use gyeongdohalsaram_server.Runtime.{Runtime}
use gyeongdohalsaram_server.Game.State.{playing, ended}
use gyeongdohalsaram_server.Game.Player.{Player}
use gyeongdohalsaram_server.Game.Logic.Winner.{IsThief, IsCaught}
use gyeongdohalsaram_server.Ws.Message.{Outbox, type_game_over, new_message, game_over_message}
use gyeongdohalsaram_server.Room.Defs.{Room, closed_channel, broadcast_message}
use gyeongdohalsaram_server.Room.Tick.{Round, goes_on, returns, panics}
use gyeongdohalsaram_server.Room.Rounds.{Pending, current_player}

module _ ⦃R : Runtime⦄ where
  -- The players that the loop remembers, as they are now.
  abbrev pub seen : Pending → Room → List Player
  seen pending r = map (current_player r.players) pending.player_list

  abbrev pub IsCleared : Pending → Room → Type 0
  IsCleared pending r = Any IsThief (seen pending r) × All IsCaught (seen pending r)

  abbrev pub IsWonBy : String → Pending → Room → Type 0
  IsWonBy winner pending r =
      (IsCleared pending r × (winner ≡ "police"))
      ⊎ ((IsCleared pending r → ⊥) × (pending.timer_expired ≡ true) × (winner ≡ "thief"))

  -- The game is over, and all are told who has won; or it was over already, and nothing more is sent.
  abbrev pub IsStopped : String → Room → Room → Outbox → Type 0
  IsStopped winner r r' over =
      ((r.state ≡ playing)
        × (r' ≡ record r { state = ended; stop_ch = closed_channel })
        × (over ≡ broadcast_message r (new_message type_game_over (game_over_message winner))))
      ⊎ ((r.state ≡ playing → ⊥) × (r' ≡ r) × (over ≡ []))

  abbrev pub IsJudged : Pending → Room → Round → Type 0
  IsJudged pending r (goes_on r' out s) =
      (IsCleared pending r → ⊥)
      × (pending.timer_expired ≡ false)
      × (r' ≡ r)
      × (out ≡ broadcast_message r pending.message)
  IsJudged pending r (returns r' out s) =
      (winner : String) × (over : Outbox) × IsWonBy winner pending r
      × IsStopped winner r r' over
      × (out ≡ broadcast_message r pending.message ++ over)
  IsJudged pending r panics = ⊥
