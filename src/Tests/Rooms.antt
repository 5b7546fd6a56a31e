-- ===== src/Tests/Rooms.antt =====
-- The theorems on rooms and their game loop, at concrete inputs.
use gyeongdohalsaram_server.Base.{◌≡◌, refl, [], ◌∷◌, some, Zip}
use gyeongdohalsaram_server.Game.State.{win_police}
use gyeongdohalsaram_server.Room.Defs.{remove_player, prepare_game, stop_game}
use gyeongdohalsaram_server.Room.Tick.{tick, advance, game_loop}
use gyeongdohalsaram_server.Room.Tick.Same.{Same, advance-Same}
use gyeongdohalsaram_server.Room.Tick.Turn.{Turn, advance-Turn}
use gyeongdohalsaram_server.Room.Rounds.Judged.{IsJudged}
use gyeongdohalsaram_server.Room.Invariant.{IsValid, remove_player-IsValid}
use gyeongdohalsaram_server.Room.Ending.{stopped, stop_game-stopped}
use gyeongdohalsaram_server.Room.Ending.Judged.{tick-IsJudged}
use gyeongdohalsaram_server.Room.Ending.Judged
use gyeongdohalsaram_server.Room.Ending.Loop.{Ends, prepared_game-Ends}
use gyeongdohalsaram_server.Tests.Exact.{exact}
use gyeongdohalsaram_server.Tests.Sample.{
  ann, bob, lobby, last_moment, two-Nodup, lobby-IsValid, last_moment-IsValid,
}

remove_player-IsValid_example : IsValid (remove_player "ann" lobby 7).0
remove_player-IsValid_example = remove_player-IsValid "ann" lobby 7 lobby-IsValid

advance-Turn_example : Zip Turn (bob ∷ ann ∷ []) (advance last_moment 7).0.players
advance-Turn_example = advance-Turn last_moment 7 two-Nodup

advance-Same_example : Zip Same (bob ∷ ann ∷ []) (advance last_moment 7).0.players
advance-Same_example = advance-Same last_moment 7

tick-IsJudged_example : Judged.IsJudged last_moment (tick last_moment 7)
tick-IsJudged_example = tick-IsJudged last_moment 7 last_moment-IsValid refl

stop_game-stopped_example : stop_game win_police last_moment ≡ some (stopped win_police last_moment)
stop_game-stopped_example = (stop_game-stopped win_police last_moment last_moment-IsValid).0

prepared_game-Ends_example : Ends (game_loop 3600 (prepare_game lobby 7).0 8 [])
prepared_game-Ends_example = prepared_game-Ends lobby 7 8 lobby-IsValid
