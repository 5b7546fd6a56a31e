-- ===== src/Tests/Hubs.antt =====
-- The theorems on the hub, at a concrete history.
use gyeongdohalsaram_server.Base.{◌≡◌, refl, false, true, String, none, some, List, [], ◌∷◌}
use gyeongdohalsaram_server.Ws.Hub.{
  Hub, Action, comes, ends, sends, floods, pumps, pings, new_hub, act_all, act, register_new,
  unregister_client, send_message, broadcast, broadcast_loop, offer, set_channel, write_round,
  ping_round, close_send, has_client, delete_client,
}
use gyeongdohalsaram_server.Ws.Hub.Safe.{IsSafe, act_all-IsSafe}

-- Two clients come; one of them ends, and is sent a message after that.
abbrev actions : List (Action String)
actions =
    comes
    ∷ comes
    ∷ sends 0 "hello"
    ∷ ends 0
    ∷ sends 0 "late"
    ∷ floods "all"
    ∷ ends 0
    ∷ pings 1 true
    ∷ pumps 0 true
    ∷ pumps 1 false
    ∷ []

abbrev final_hub : Hub String
final_hub = elim (act_all actions new_hub) [ none ↦ new_hub | some h ↦ h ]

runs : act_all actions new_hub ≡ some final_hub
unfolding act_all act register_new unregister_client send_message broadcast broadcast_loop offer
    set_channel write_round ping_round close_send has_client delete_client new_hub
runs = refl

act_all-IsSafe_example : (h : Hub String) × (act_all actions new_hub ≡ some h) × IsSafe h
act_all-IsSafe_example = act_all-IsSafe actions
