-- ===== src/Game/State.antt =====
-- internal/game/state.go.
use gyeongdohalsaram_server.Base.{String}

pub data RoomState : Type 0 where
  waiting playing ended : RoomState

unfoldable pub room_state_string : RoomState → String
room_state_string waiting = "waiting"
room_state_string playing = "playing"
room_state_string ended = "ended"

pub data WinResult : Type 0 where
  win_none win_police win_thief : WinResult

unfoldable pub win_string : WinResult → String
win_string win_police = "police"
win_string win_thief = "thief"
win_string _ = "none"
