-- ===== src/Tests/Stores.antt =====
-- The theorem on logins, over a database that has room for one row.
use gyeongdohalsaram_server.Base.{
  ◌≡◌, refl, sym, subst, ◌∙◌, Bool, true, false, Option, none, some, String, List, [], ◌∷◌, ℤ, pos,
  arith, ◌==◌, string_eq, if◌then◌else◌,
}
use gyeongdohalsaram_server.Handler.Accounts.{Account, new_game_center_account}
use gyeongdohalsaram_server.Handler.Server.{Server}
use gyeongdohalsaram_server.Handler.Events.{new_server}
use gyeongdohalsaram_server.Handler.Auth.{find_or_create}
use gyeongdohalsaram_server.Store.{
  Value, text, nullable, flag, time, Scanned, columns, no_rows, Pool, schema,
  select_by_game_center_id, insert_account, set_last_login, set_nickname, postgres_store,
  find_by_game_center_id, create, update_last_login, scan_account, nil_if_absent,
}
use gyeongdohalsaram_server.Store.Logins.{Row, IsTable, logs, call_all, find_or_create-same_account}
use gyeongdohalsaram_server.Tests.Exact.{exact}

-- The id and the player of the row.
abbrev pub Db : Type 0
Db = Option (String × String)

abbrev pub exec : String → List Value → Db → Option Db
exec sql (text id ∷ nullable (some gc) ∷ values) none =
    if sql == insert_account then some (some (id, gc)) else none
exec sql (time now ∷ text id ∷ []) db = if sql == set_last_login then some db else none
exec sql (text name ∷ text id ∷ []) db = if sql == set_nickname then some db else none
exec sql [] db = if sql == schema then some db else none
exec sql values db = none

abbrev pub query_row : String → List Value → Db → Scanned
query_row sql (text gc ∷ []) (some (id, other)) =
    if other == gc then columns id (some other) "ann" false (pos 0) (pos 0) else no_rows
query_row sql values db = no_rows

instance abbrev pub single : Pool
single = record {
  Db = Db;
  connect_to = λ url. some none;
  ping = λ db. true;
  exec = exec;
  query_row = query_row;
}

abbrev IsRow : Row → Db → Type 0
IsRow r none = ⊥
IsRow r (some (id, gc)) = (r.0 ≡ id) × (r.1 ≡ some gc)

IsRow-selects :
    (gc_id id nickname : String) (other : Option String) (guest : Bool) (created last : ℤ) (db : Db)
    → query_row select_by_game_center_id (text gc_id ∷ []) db
      ≡ columns id other nickname guest created last
    → (other ≡ some gc_id) × IsRow (id, other) db
IsRow-selects gc_id id nickname other guest created last none e = cc e
IsRow-selects gc_id id nickname other guest created last (some (i, h)) e =
    elim (string_eq.dec h gc_id) [ yes same ↦ ground arith | no differ ↦ ground arith ]

row_misses :
    (gc_id id : String) (db : Db)
    → query_row select_by_game_center_id (text gc_id ∷ []) db ≡ no_rows
    → IsRow (id, some gc_id) db
    → ⊥
row_misses gc_id id none e m = m
row_misses gc_id id (some (i, h)) e m = elim (string_eq.dec h gc_id) [
  | yes same ↦ ground arith
  | no differ ↦ ground arith
]

row_unique :
    (gc_id id id' : String) (db : Db)
    → IsRow (id, some gc_id) db
    → IsRow (id', some gc_id) db
    → id ≡ id'
row_unique gc_id id id' none m m' = absurd m
row_unique gc_id id id' (some (i, h)) m m' = m.0 ∙ sym m'.0

row_inserts :
    (id nickname : String) (gc : Option String) (guest : Bool) (created last : ℤ) (db db' : Db)
    → exec insert_account
        (text id ∷ nullable gc ∷ text nickname ∷ flag guest ∷ time created ∷ time last ∷ [])
        db
      ≡ some db'
    → IsRow (id, gc) db' × ((r : Row) → IsRow r db → IsRow r db')
unfolding string_eq
row_inserts id nickname none guest created last db db' e = cc e
row_inserts id nickname (some gc) guest created last (some row) db' e = cc e
row_inserts id nickname (some gc) guest created last none none e = cc e
row_inserts id nickname (some gc) guest created last none (some (i, h)) e =
    ((cc e, cc e), λ r m. absurd m)

row_logs_in :
    (id : String) (now : ℤ) (db db' : Db)
    → exec set_last_login (time now ∷ text id ∷ []) db ≡ some db'
    → (r : Row) → IsRow r db
    → IsRow r db'
unfolding string_eq
row_logs_in id now db db' e r m = let same : db ≡ db' = cc e in subst (IsRow r) same m

row_renames :
    (id nickname : String) (db db' : Db)
    → exec set_nickname (text nickname ∷ text id ∷ []) db ≡ some db'
    → (r : Row) → IsRow r db
    → IsRow r db'
unfolding string_eq
row_renames id nickname db db' e r m = let same : db ≡ db' = cc e in subst (IsRow r) same m

single-IsTable : IsTable IsRow
single-IsTable = record {
  selects = IsRow-selects;
  misses = row_misses;
  inserts = row_inserts;
  logs_in = row_logs_in;
  renames = row_renames;
  unique = row_unique;
}

abbrev start : Server
start = new_server none 7

-- The new account of the first login.
abbrev ann : Account
ann = (new_game_center_account "G:1" "ann" (pos 1) 7).0

abbrev after : Db
after = some (ann.id, "G:1")

abbrev later : Server
later = new_server (call_all (logs ann.id (pos 5) ∷ []) after) 9

-- What the second login finds.
abbrev known : Account
known = record {
  id = ann.id;
  game_center_id = some "G:1";
  nickname = "ann";
  is_guest = false;
  created_at = pos 0;
  last_login_at = pos 0;
}

first_login :
    find_or_create "G:1" "ann" (pos 1) start
    ≡ (some (ann, after), (new_game_center_account "G:1" "ann" (pos 1) 7).1)
unfolding find_or_create new_server find_by_game_center_id create scan_account nil_if_absent
    string_eq new_game_center_account
first_login = refl

second_login : find_or_create "G:1" "anna" (pos 9) later ≡ (some (known, after), 9)
unfolding find_or_create new_server find_by_game_center_id update_last_login scan_account
    nil_if_absent string_eq new_game_center_account
second_login = refl

find_or_create-same_account_example : known.id ≡ ann.id
unfolding new_server
find_or_create-same_account_example =
    find_or_create-same_account IsRow single-IsTable "G:1" "ann" "anna" (pos 1) (pos 9) start later
      ann known after after _ 9 (logs ann.id (pos 5) ∷ []) first_login refl second_login
