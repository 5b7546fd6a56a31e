-- ===== src/Handler/Connections.antt =====
-- The connections: the naming of `handleWebSocket` of cmd/server/main.go, and `StartAuthTimeout` of
-- internal/handler/auth.go.
use gyeongdohalsaram_server.Base.{
  ℕ, zero, suc, ◌+◌, ◌/◌, ◌%◌, false, not, String, ◌<>◌, [], ◌∷◌, ltb, if◌then◌else◌,
}
use gyeongdohalsaram_server.Runtime.{Runtime}
use gyeongdohalsaram_server.Ws.Message.{ClientRef}
use gyeongdohalsaram_server.Room.Codes.{letter_at}
use gyeongdohalsaram_server.Handler.Accounts.{AccountStore}
use gyeongdohalsaram_server.Handler.Server.{Client, Server, Step, fails, set_client}

-- `%d` of a number that is not negative, on fuel, of which one more than the number is enough.
unfoldable pub decimal_loop : ℕ → ℕ → String
decimal_loop zero n = ""
decimal_loop (suc fuel) n =
    let last =
      letter_at ("0" ∷ "1" ∷ "2" ∷ "3" ∷ "4" ∷ "5" ∷ "6" ∷ "7" ∷ "8" ∷ "9" ∷ []) (n % 10) in
    let rest = decimal_loop fuel (n / 10) in if ltb n 10 then last else rest <> last

unfoldable pub decimal : ℕ → String
decimal n = decimal_loop (suc n) n

module _ ⦃R : Runtime⦄ ⦃A : AccountStore⦄ where
  -- The fields of the client of a new connection, when so many are registered.
  unfoldable pub connect : ClientRef → ℕ → Server → Step
  connect c client_count sv =
      let new : Client = record {
        id = "client-" <> decimal (client_count + 1);
        account_id = "";
        authenticated = false;
      } in
      (set_client c new sv, [])

  -- What the timer of a connection does; the connection is then closed, which ends its `ReadPump`.
  unfoldable pub auth_timeout : ClientRef → Server → Step
  auth_timeout c sv =
      if not (sv.clients c).authenticated then fails c "인증 시간이 초과되었습니다" sv else (sv, [])
