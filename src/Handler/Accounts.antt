-- ===== src/Handler/Accounts.antt =====
-- internal/account/account.go, and the interface of internal/store/store.go, but for its `Close`.
use gyeongdohalsaram_server.Base.{Bool, true, false, Option, none, some, String, ℤ}
use gyeongdohalsaram_server.Runtime.{Runtime}

pub record Account : Type 0 where
  pub id : String
  pub game_center_id : Option String
  pub nickname : String
  pub is_guest : Bool
  pub created_at : ℤ
  pub last_login_at : ℤ

module _ ⦃R : Runtime⦄ where
  unfoldable pub new_game_center_account : String → String → ℤ → R.Seed → Account × R.Seed
  new_game_center_account game_center_id nickname now s =
      let (id, s') = R.new_uuid s in
      (
        record {
          id = id;
          game_center_id = some game_center_id;
          nickname = nickname;
          is_guest = false;
          created_at = now;
          last_login_at = now;
        },
        s',
      )

  unfoldable pub new_guest_account : String → ℤ → R.Seed → Account × R.Seed
  new_guest_account nickname now s =
      let (id, s') = R.new_uuid s in
      (
        record {
          id = id;
          game_center_id = none;
          nickname = nickname;
          is_guest = true;
          created_at = now;
          last_login_at = now;
        },
        s',
      )

-- `AccountStore`, over an unknown state: `none` is an error, and the account found may be nil. The
-- time of a login is an argument.
pub record AccountStore : Type 1 where
  pub State : Type 0
  pub find_by_game_center_id : String → State → Option (Option Account)
  pub find_by_id : String → State → Option (Option Account)
  pub create : Account → State → Option State
  pub update_last_login : String → ℤ → State → Option State
  pub update_nickname : String → String → State → Option State
