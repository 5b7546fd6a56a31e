-- ===== src/Tests/Histories.antt =====
-- The theorems on histories of the server, at concrete histories.
use mathlib.Core.List.{Sublist}
use gyeongdohalsaram_server.Base.{
  length, ◌+◌, ℕ, ◌≤◌, replicate, arith, ◌≡◌, refl, true, none, some, String, List, [], ◌∷◌, ◌++◌,
  pos, string_eq,
}
use gyeongdohalsaram_server.Room.Players.{lookup}
use gyeongdohalsaram_server.Handler.Server.{set_client}
use gyeongdohalsaram_server.Handler.Lobby.{start_game}
use gyeongdohalsaram_server.Handler.Router.{command, handle_message}
use gyeongdohalsaram_server.Handler.Events.{
  World, Event, connects, receives, disconnects, ticks, writes, pings, new_server, new_world,
  deliver, step, run,
}
use gyeongdohalsaram_server.Handler.Invariant.{IsSound}
use gyeongdohalsaram_server.Ws.Hub.{
  new_hub, register_new, set_channel, send_capacity, send_message, offer, write_round, ping_round,
}
use gyeongdohalsaram_server.Ws.Hub.Safe.{IsSafe}
use gyeongdohalsaram_server.Handler.Delivery.{sent_in, run-Sublist}
use gyeongdohalsaram_server.Handler.Connections.{connect}
use gyeongdohalsaram_server.Handler.Lossless.{line-run}
use gyeongdohalsaram_server.Handler.Liveness.{IsOver, start_game-Ends}
use gyeongdohalsaram_server.Handler.History.{run-IsSound}
use gyeongdohalsaram_server.Tests.Exact.{exact}
use gyeongdohalsaram_server.Tests.Sample.{lobby, lobby-IsValid}
use gyeongdohalsaram_server.Tests.Servers.{
  listed, signed, server, guest_login, new_room_request, ready_request,
}

abbrev random_request : List (String × String)
random_request = ("type", "random_join") ∷ ("nickname", "fay") ∷ ("preferred_role", "thief") ∷ []

abbrev select_request : String → List (String × String)
select_request role = ("type", "select_team") ∷ ("role", role) ∷ []

-- Two clients log in, meet in a room, take the two roles and start a game, in the middle of whose first
-- round one of them is lost.
abbrev pub history : List Event
history =
    connects
    ∷ connects
    ∷ receives 0 guest_login (pos 1) signed
    ∷ receives 1 guest_login (pos 1) signed
    ∷ receives 0 new_room_request (pos 2) signed
    ∷ receives 1 random_request (pos 2) signed
    ∷ receives 0 (select_request "police") (pos 3) signed
    ∷ receives 1 (select_request "thief") (pos 3) signed
    ∷ receives 0 ready_request (pos 4) signed
    ∷ receives 1 ready_request (pos 4) signed
    ∷ ticks 0 true
    ∷ disconnects 1
    ∷ ticks 0 true
    ∷ writes 0 true
    ∷ []

run-IsSound_example :
    (w : World) × (run history (new_world [] 7) ≡ some w) × IsSound w.server × IsSafe w.hub
run-IsSound_example = run-IsSound history [] 7

abbrev last_world : World
last_world = run-IsSound_example.0

run-Sublist_example :
    Sublist
      ((last_world.hub.channels 0).written ++ (last_world.hub.channels 0).buffer)
      (sent_in 0 history (new_world [] 7))
run-Sublist_example = run-Sublist 0 history [] 7 last_world run-IsSound_example.1

start_game-Ends_example :
    (j : ℕ) × (j ≤ 7200)
    × (w : World) × (run
          (replicate j (ticks 0 true))
          (record { server = (start_game lobby server).0; hub = new_hub })
        ≡ some w)
    × IsOver lobby.code w.server
start_game-Ends_example = start_game-Ends lobby server new_hub lobby-IsValid

-- A client that has just come, and is turned away until it has logged in.
abbrev served : World
served = record { server = (connect 0 0 (new_server [] 7)).0; hub = register_new new_hub }

abbrev session : List Event
session = receives 0 ready_request (pos 1) signed ∷ pings 0 true ∷ writes 0 true ∷ []

abbrev after_session : World
after_session = elim (run session served) [ none ↦ served | some w ↦ w ]

served-runs : run session served ≡ some after_session
unfolding run step connect new_server set_client handle_message command string_eq lookup deliver
    send_message offer set_channel register_new new_hub write_round ping_round
served-runs = refl

short_session :
    length (served.hub.channels 0).buffer + length (sent_in 0 session served) ≤ send_capacity
unfolding step connect new_server set_client handle_message command string_eq lookup deliver
    send_message offer set_channel register_new new_hub write_round ping_round
short_session = omega arith

line-run_example :
    (after_session.hub.channels 0).written ++ (after_session.hub.channels 0).buffer
    ≡ ((served.hub.channels 0).written ++ (served.hub.channels 0).buffer)
      ++ sent_in 0 session served
unfolding register_new new_hub set_channel
line-run_example =
    line-run 0 session served after_session (tt, (tt, (λ e. refl, tt))) refl (omega arith)
      short_session served-runs
