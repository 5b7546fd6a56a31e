-- ===== src/Store.antt =====
-- internal/store/postgres.go. The pool of github.com/jackc/pgx and the database behind it are an
-- interface: what it does with a statement is not said here.
pub mod Logins
use gyeongdohalsaram_server.Base.{
  ℕ, suc, ◌-◌, Bool, true, false, Option, none, some, String, ◌<>◌, List, [], ◌∷◌, ℤ, if◌then◌else◌,
}
use gyeongdohalsaram_server.Handler.Accounts.{Account, AccountStore}

-- An argument of a statement.
pub data Value : Type 0 where
  text : String → Value
  nullable : Option String → Value
  flag : Bool → Value
  time : ℤ → Value

-- What `Row.Scan` gives: the columns, `pgx.ErrNoRows`, or another error.
pub data Scanned : Type 0 where
  columns : String → Option String → String → Bool → ℤ → ℤ → Scanned
  no_rows : Scanned
  failure : Scanned

-- `pgxpool.Pool` with its database. `none` is an error.
pub record Pool : Type 1 where
  pub Db : Type 0
  pub connect_to : String → Option Db
  pub ping : Db → Bool
  pub exec : String → List Value → Db → Option Db
  pub query_row : String → List Value → Db → Scanned

abbrev pub schema : String
schema =
    "\n" <> "CREATE TABLE IF NOT EXISTS accounts (\n" <> "    id TEXT PRIMARY KEY,\n"
    <> "    game_center_id TEXT UNIQUE,\n" <> "    nickname TEXT NOT NULL DEFAULT '',\n"
    <> "    is_guest BOOLEAN NOT NULL DEFAULT false,\n"
    <> "    created_at TIMESTAMPTZ NOT NULL DEFAULT NOW(),\n"
    <> "    last_login_at TIMESTAMPTZ NOT NULL DEFAULT NOW()\n" <> ");\n"
    <> "CREATE INDEX IF NOT EXISTS idx_accounts_game_center_id ON accounts(game_center_id);\n"

abbrev pub select_columns : String
select_columns = "SELECT id, game_center_id, nickname, is_guest, created_at, last_login_at\n\t\t "

abbrev pub select_by_game_center_id : String
select_by_game_center_id = select_columns <> "FROM accounts WHERE game_center_id = $1"

abbrev pub select_by_id : String
select_by_id = select_columns <> "FROM accounts WHERE id = $1"

abbrev pub insert_account : String
insert_account =
    "INSERT INTO accounts (id, game_center_id, nickname, is_guest, created_at, last_login_at)\n\t\t "
    <> "VALUES ($1, $2, $3, $4, $5, $6)"

abbrev pub set_last_login : String
set_last_login = "UPDATE accounts SET last_login_at = $1 WHERE id = $2"

abbrev pub set_nickname : String
set_nickname = "UPDATE accounts SET nickname = $1 WHERE id = $2"

-- An account or an error.
pub data Found : Type 0 where
  found : Account → Found
  absent : Found
  broken : Found

unfoldable pub scan_account : Scanned → Found
scan_account (columns id game_center_id nickname is_guest created_at last_login_at) =
    found (record {
      id = id;
      game_center_id = game_center_id;
      nickname = nickname;
      is_guest = is_guest;
      created_at = created_at;
      last_login_at = last_login_at;
    })
scan_account no_rows = absent
scan_account failure = broken

-- No rows are nil, and not an error.
unfoldable pub nil_if_absent : Found → Option (Option Account)
nil_if_absent (found acc) = some (some acc)
nil_if_absent absent = some none
nil_if_absent broken = none

-- What `NewPostgresStore` leaves: the store, or an error, and how many pools it leaves open.
pub record Opening ⦃P : Pool⦄ : Type 0 where
  pub store : Option P.Db
  pub open_pools : ℕ

module _ ⦃P : Pool⦄ where
  -- `pool.Close`
  abbrev pub close : ℕ → ℕ
  close open_pools = open_pools - 1

  unfoldable pub new_postgres_store : String → Opening
  new_postgres_store database_url = elim (P.connect_to database_url) [
    | none ↦ record { store = none; open_pools = 0 }
    | some db ↦
        if P.ping db
        then elim (P.exec schema [] db) [
          | none ↦ record { store = none; open_pools = close 1 }
          | some db' ↦ record { store = some db'; open_pools = 1 }
        ]
        else record { store = none; open_pools = close 1 }
  ]

  unfoldable pub find_by_game_center_id : String → P.Db → Option (Option Account)
  find_by_game_center_id gc_id db =
      nil_if_absent (scan_account (P.query_row select_by_game_center_id (text gc_id ∷ []) db))

  unfoldable pub find_by_id : String → P.Db → Option (Option Account)
  find_by_id id db = nil_if_absent (scan_account (P.query_row select_by_id (text id ∷ []) db))

  unfoldable pub create : Account → P.Db → Option P.Db
  create acc db =
      P.exec insert_account
        (text acc.id
          ∷ nullable acc.game_center_id
          ∷ text acc.nickname
          ∷ flag acc.is_guest
          ∷ time acc.created_at
          ∷ time acc.last_login_at
          ∷ [])
        db

  unfoldable pub update_last_login : String → ℤ → P.Db → Option P.Db
  update_last_login id now db = P.exec set_last_login (time now ∷ text id ∷ []) db

  unfoldable pub update_nickname : String → String → P.Db → Option P.Db
  update_nickname id nickname db = P.exec set_nickname (text nickname ∷ text id ∷ []) db

  -- `PostgresStore` as the `AccountStore` that `main` gives the router.
  instance abbrev pub postgres_store : AccountStore
  postgres_store = record {
    State = P.Db;
    find_by_game_center_id = find_by_game_center_id;
    find_by_id = find_by_id;
    create = create;
    update_last_login = update_last_login;
    update_nickname = update_nickname;
  }
