-- ===== src/Handler/Auth.antt =====
-- internal/handler/auth.go. The verdict of `GameCenterVerifier.Verify` on a credential is an argument.
use gyeongdohalsaram_server.Base.{
  Bool, true, not, Option, none, some, String, ◌<>◌, List, [], ◌∷◌, ℤ, ◌==◌, string_eq,
  if◌then◌else◌,
}
use gyeongdohalsaram_server.Runtime.{Runtime}
use gyeongdohalsaram_server.GameCenter.{Credential}
use gyeongdohalsaram_server.Ws.Message.{
  type_auth_result, ClientRef, new_message, auth_success_response, auth_failure_response,
}
use gyeongdohalsaram_server.Handler.Accounts.{
  Account, AccountStore, new_game_center_account, new_guest_account,
}
use gyeongdohalsaram_server.Handler.Server.{Server, Step, fails, set_client}

abbrev pub auth_fields : List String
auth_fields =
    "method" ∷ "player_id" ∷ "bundle_id" ∷ "public_key_url" ∷ "signature" ∷ "salt" ∷ "nickname" ∷ []

module _ ⦃R : Runtime⦄ ⦃A : AccountStore⦄ where
  unfoldable pub send_failure : ClientRef → String → Server → Step
  send_failure client text sv =
      (sv, (client, new_message type_auth_result (auth_failure_response text)) ∷ [])

  unfoldable pub authenticate_client : ClientRef → Account → Server → Step
  authenticate_client client acc sv =
      let c = sv.clients client in
      (
        set_client client (record c { account_id = acc.id; authenticated = true }) sv,
        (client, new_message type_auth_result (auth_success_response acc.id acc.nickname)) ∷ [],
      )

  -- The account that is logged in and the store after it, or `none` where the store fails.
  unfoldable pub find_or_create : String → String → ℤ → Server → Option (Account × A.State) × R.Seed
  find_or_create game_center_id nickname now sv =
      elim (A.find_by_game_center_id game_center_id sv.accounts) [
        | none ↦ (none, sv.seed)
        | some none ↦
            let (acc, s) = new_game_center_account game_center_id nickname now sv.seed in
            elim (A.create acc sv.accounts) [
              | none ↦ (none, s)
              | some accounts ↦ (some (acc, accounts), s)
            ]
        | some (some acc) ↦ elim (A.update_last_login acc.id now sv.accounts) [
          | none ↦ (some (acc, sv.accounts), sv.seed)
          | some accounts ↦ (some (acc, accounts), sv.seed)
        ]
      ]

  unfoldable pub log_in : ClientRef → Option (Account × A.State) × R.Seed → Server → Step
  log_in client (none, s) sv = send_failure client "서버 내부 오류입니다" (record sv { seed = s })
  log_in client (some (acc, accounts), s) sv =
      authenticate_client client acc (record sv { accounts = accounts; seed = s })

  unfoldable pub handle_guest : ClientRef → String → ℤ → Server → Step
  handle_guest client nickname now sv =
      if nickname == ""
      then send_failure client "게스트 로그인에는 닉네임이 필요합니다" sv
      else (let (acc, s) = new_guest_account nickname now sv.seed in
          elim (A.create acc sv.accounts) [
            | none ↦ send_failure client "서버 내부 오류입니다" (record sv { seed = s })
            | some accounts ↦
                authenticate_client client acc (record sv { accounts = accounts; seed = s })
          ])

  module _ (verify : Credential → Bool) where
    unfoldable pub handle_game_center : ClientRef → Credential → String → ℤ → Server → Step
    handle_game_center client cred nickname now sv =
        if not (verify cred)
        then send_failure client "인증 검증에 실패했습니다" sv
        else log_in client (find_or_create cred.player_id nickname now sv) sv

    unfoldable pub handle_authenticate : ClientRef → R.Raw → ℤ → Server → Step
    handle_authenticate client raw now sv =
        if (sv.clients client).authenticated
        then fails client "이미 인증되었습니다" sv
        else elim (R.text_fields auth_fields raw) [
          | none ↦ send_failure client "잘못된 인증 데이터입니다" sv
          | some field ↦
              if field "method" == "game_center"
              then handle_game_center client
                  (record {
                    player_id = field "player_id";
                    bundle_id = field "bundle_id";
                    public_key_url = field "public_key_url";
                    signature = field "signature";
                    salt = field "salt";
                    timestamp = R.timestamp_field raw;
                  })
                  (field "nickname") now sv
              else if field "method" == "guest"
              then handle_guest client (field "nickname") now sv
              else send_failure client ("알 수 없는 인증 방식: " <> field "method") sv
        ]
