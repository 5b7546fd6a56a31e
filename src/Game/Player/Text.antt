-- ===== src/Game/Player/Text.antt =====
-- The JSON form of a role and of a player's state, in internal/game/player.go.
use gyeongdohalsaram_server.Base.{◌≡◌, refl, some, string_eq, String, ◌≢◌, arith}
use gyeongdohalsaram_server.Game.Player.{
  Role, role_none, police, thief, role_string, unmarshal_role, PlayerState, free, arrested,
  invincible, player_state_string, unmarshal_player_state,
}

-- `UnmarshalJSON` of a role reads back what `MarshalJSON` wrote, so roles that differ are written
-- differently, and any other text is read as no role.
pub unmarshal_role-role_string :
    ((r : Role) → unmarshal_role (some (role_string r)) ≡ some r)
    × ((s : String)
        → s ≢ role_string police
        → s ≢ role_string thief
        → unmarshal_role (some s) ≡ some role_none)
unfolding unmarshal_role role_string string_eq
unmarshal_role-role_string = (
  λ r. elim r as (λ r. unmarshal_role (some (role_string r)) ≡ some r) [
    | role_none ↦ refl
    | police ↦ refl
    | thief ↦ refl
  ],
  λ s a b. unfold unmarshal_role in ground arith,
)

unmarshal_player_state-player_state_string :
    (s : PlayerState) → unmarshal_player_state (some (player_state_string s)) ≡ some s
unfolding unmarshal_player_state player_state_string string_eq
unmarshal_player_state-player_state_string free = refl
unmarshal_player_state-player_state_string arrested = refl
unmarshal_player_state-player_state_string invincible = refl
