-- ===== src/Room/Rounds.antt =====
-- A round of `gameLoop` of internal/room/room.go in its two steps: what is done under the lock of the
-- room, and what follows after it, when other calls may have changed the room.
pub mod Whole
pub mod Judged
use gyeongdohalsaram_server.Base.{
  Bool, Option, none, some, List, ◌++◌, map, pos, leb_ℤ, if◌then◌else◌,
}
use gyeongdohalsaram_server.Runtime.{Runtime}
use gyeongdohalsaram_server.Game.State.{WinResult, win_police, win_thief}
use gyeongdohalsaram_server.Game.Player.{Player}
use gyeongdohalsaram_server.Game.Logic.{check_police_win}
use gyeongdohalsaram_server.Ws.Message.{Message}
use gyeongdohalsaram_server.Room.Players.{find_player}
use gyeongdohalsaram_server.Room.Defs.{Room, broadcast_message, stop_game}
use gyeongdohalsaram_server.Room.Tick.{Round, goes_on, returns, panics, advance, game_state}

module _ ⦃R : Runtime⦄ where
  -- What the loop holds on to when it has given the lock back: the message, `playerList`, and
  -- `timerExpired`.
  pub record Pending : Type 0 where
    pub message : Message
    pub player_list : List Player
    pub timer_expired : Bool

  unfoldable pub begin_round : Room → R.Seed → Room × Pending × R.Seed
  begin_round r s =
      let (r', s') = advance r s in
      (
        r',
        record {
          message = game_state r';
          player_list = r'.players;
          timer_expired = leb_ℤ r'.remaining_time (pos 0);
        },
        s',
      )

  -- What the pointer to a player leads to: the player as the room has it, or, for one who has left since,
  -- as the loop saw it.
  unfoldable pub current_player : List Player → Player → Player
  current_player ps p = elim (find_player p.id ps) [ none ↦ p | some q ↦ q ]

  unfoldable pub round_verdict : Pending → Room → Option WinResult
  round_verdict pending r =
      if check_police_win (map (current_player r.players) pending.player_list)
      then some win_police
      else if pending.timer_expired
      then some win_thief
      else none

  unfoldable pub end_round : Pending → Room → R.Seed → Round
  end_round pending r s =
      let out = broadcast_message r pending.message in
      elim (round_verdict pending r) [
        | none ↦ goes_on r out s
        | some result ↦ elim (stop_game result r) [
          | none ↦ panics
          | some (r', over) ↦ returns r' (out ++ over) s
        ]
      ]
