-- ===== src/Handler/Guard.antt =====
-- What a connection may do before it is authenticated.
use gyeongdohalsaram_server.Base.{
  ◌≡◌, refl, inl, inr, Bool, false, ◌==◌, string_eq, Bool-cases, Option, none, some, Option-cases,
  String, ℤ, arith,
}
use gyeongdohalsaram_server.Runtime.{Runtime}
use gyeongdohalsaram_server.Ws.Message.{ClientRef}
use gyeongdohalsaram_server.Handler.Accounts.{Account, AccountStore, new_guest_account}
use gyeongdohalsaram_server.Handler.Server.{Server, set_client}
use gyeongdohalsaram_server.GameCenter.{Credential}
use gyeongdohalsaram_server.Handler.Auth.{
  auth_fields, send_failure, authenticate_client, log_in, handle_guest, handle_game_center,
  handle_authenticate,
}
use gyeongdohalsaram_server.Handler.Router.{command, dispatch, is_authenticate, handle_message}

module _ ⦃R : Runtime⦄ ⦃A : AccountStore⦄ where
  -- What is left alone while a connection logs in: the game, and the other connections.
  abbrev pub SameGame : ClientRef → Server → Server → Type 0
  SameGame client sv sv' =
      (sv'.manager ≡ sv.manager)
      × (sv'.player_map ≡ sv.player_map)
      × (sv'.loops ≡ sv.loops)
      × ((other : ClientRef) → (other ≡ client → ⊥) → sv'.clients other ≡ sv.clients other)

  same : (client : ClientRef) (sv : Server) → SameGame client sv sv
  same client sv = (refl, refl, refl, λ other n. refl)

  authenticate_client-SameGame :
      (client : ClientRef) (acc : Account) (sv : Server) (accounts : A.State) (s : R.Seed)
      → SameGame client sv
          (authenticate_client client acc (record sv { accounts = accounts; seed = s })).0
  unfolding authenticate_client set_client
  authenticate_client-SameGame client acc sv accounts s =
      (refl, refl, refl, λ other n. ground arith)

  log_in-SameGame :
      (client : ClientRef) (x : Option (Account × A.State) × R.Seed) (sv : Server)
      → SameGame client sv (log_in client x sv).0
  unfolding log_in send_failure
  log_in-SameGame client (none, s) sv = (refl, refl, refl, λ other n. refl)
  log_in-SameGame client (some (acc, accounts), s) sv =
      authenticate_client-SameGame client acc sv accounts s

  handle_guest-SameGame :
      (client : ClientRef) (nickname : String) (now : ℤ) (sv : Server)
      → SameGame client sv (handle_guest client nickname now sv).0
  unfolding handle_guest send_failure
  handle_guest-SameGame client nickname now sv = elim (Bool-cases (nickname == "")) [
    | inl empty ↦ rw empty (same client sv)
    | inr given ↦
        rw given
          (elim (Option-cases (A.create (new_guest_account nickname now sv.seed).0 sv.accounts)) [
            | inl e ↦ rw e (refl, refl, refl, λ other n. refl)
            | inr (accounts, e) ↦ rw e (authenticate_client-SameGame client _ sv accounts _)
          ])
  ]

  module _ (verify : Credential → Bool) where
    handle_game_center-SameGame :
        (client : ClientRef) (cred : Credential) (nickname : String) (now : ℤ) (sv : Server)
        → SameGame client sv (handle_game_center verify client cred nickname now sv).0
    unfolding handle_game_center send_failure
    handle_game_center-SameGame client cred nickname now sv = elim (Bool-cases (verify cred)) [
      | inl good ↦ rw good (log_in-SameGame client _ sv)
      | inr bad ↦ rw bad (same client sv)
    ]

    pub handle_authenticate-SameGame :
        (client : ClientRef) (raw : R.Raw) (now : ℤ) (sv : Server)
        → SameGame client sv (handle_authenticate verify client raw now sv).0
    unfolding handle_authenticate send_failure
    handle_authenticate-SameGame client raw now sv =
        elim (Bool-cases (sv.clients client).authenticated) [
          | inl twice ↦ rw twice (same client sv)
          | inr first ↦ rw first (elim (Option-cases (R.text_fields auth_fields raw)) [
            | inl e ↦ rw e (same client sv)
            | inr (field, e) ↦ rw e (elim (Bool-cases (field "method" == "game_center")) [
              | inl apple ↦ rw apple (handle_game_center-SameGame client _ _ now sv)
              | inr other ↦ rw other (elim (Bool-cases (field "method" == "guest")) [
                | inl guest ↦ rw guest (handle_guest-SameGame client _ now sv)
                | inr neither ↦ rw neither (same client sv)
              ])
            ])
          ])
        ]

    -- The guard: whatever an unauthenticated connection sends, the rooms, the players' connections
    -- and the game loops stay as they are, and so does every other connection.
    pub handle_message-SameGame :
        (client : ClientRef) (bytes : R.Raw) (now : ℤ) (sv : Server)
        → (sv.clients client).authenticated ≡ false
        → SameGame client sv (handle_message verify client bytes now sv).0
    unfolding handle_message dispatch
    handle_message-SameGame client bytes now sv out = elim (Option-cases (R.envelope bytes)) [
      | inl e ↦ rw (e, handle_message) (same client sv)
      | inr ((type, raw), e) ↦
          rw (e, handle_message)
            (elim (Bool-cases (is_authenticate (command type))) [
              | inl yes_in ↦ rw yes_in (handle_authenticate-SameGame client raw now sv)
              | inr guarded ↦ rw (guarded, out) (same client sv)
            ])
    ]
