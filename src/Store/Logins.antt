-- ===== src/Store/Logins.antt =====
-- Logins of one Game Center player, over the PostgreSQL store.
use gyeongdohalsaram_server.Base.{
  ◌≡◌, refl, subst, inl, inr, Bool, false, Option, none, some, Option-cases, String, List, [], ◌∷◌,
  ℤ,
}
use gyeongdohalsaram_server.Runtime.{Runtime}
use gyeongdohalsaram_server.Handler.Accounts.{Account, new_game_center_account}
use gyeongdohalsaram_server.Handler.Server.{Server}
use gyeongdohalsaram_server.Handler.Auth.{find_or_create}
use gyeongdohalsaram_server.Store.{
  text, nullable, flag, time, Scanned, columns, no_rows, failure, Pool, select_by_game_center_id,
  insert_account, set_last_login, set_nickname, find_by_game_center_id, create, update_last_login,
  update_nickname, scan_account, nil_if_absent, postgres_store,
}

module _ ⦃P : Pool⦄ where
  -- The row of this id and this Game Center player. The times of a row are left out: PostgreSQL
  -- rounds them.
  abbrev pub Row : Type 0
  Row = String × Option String

  -- What PostgreSQL documents of the statements of the store, over the rows of the table, `IsRow`: a
  -- query gives a row that its condition selects, or none if there is none; an insertion adds its
  -- row; an update takes no row away and changes no id; the column is unique. Each may fail.
  pub record IsTable (IsRow : Row → P.Db → Type 0) : Type 0 where
    pub selects :
        (gc_id id nickname : String) (other : Option String) (guest : Bool) (created last : ℤ)
        (db : P.Db)
        → P.query_row select_by_game_center_id (text gc_id ∷ []) db
          ≡ columns id other nickname guest created last
        → (other ≡ some gc_id) × IsRow (id, other) db
    pub misses :
        (gc_id id : String) (db : P.Db)
        → P.query_row select_by_game_center_id (text gc_id ∷ []) db ≡ no_rows
        → IsRow (id, some gc_id) db
        → ⊥
    pub inserts :
        (id nickname : String) (gc : Option String) (guest : Bool) (created last : ℤ)
        (db db' : P.Db)
        → P.exec insert_account
            (text id ∷ nullable gc ∷ text nickname ∷ flag guest ∷ time created ∷ time last ∷ [])
            db
          ≡ some db'
        → IsRow (id, gc) db' × ((r : Row) → IsRow r db → IsRow r db')
    pub logs_in :
        (id : String) (now : ℤ) (db db' : P.Db)
        → P.exec set_last_login (time now ∷ text id ∷ []) db ≡ some db'
        → (r : Row) → IsRow r db
        → IsRow r db'
    pub renames :
        (id nickname : String) (db db' : P.Db)
        → P.exec set_nickname (text nickname ∷ text id ∷ []) db ≡ some db'
        → (r : Row) → IsRow r db
        → IsRow r db'
    pub unique :
        (gc_id id id' : String) (db : P.Db)
        → IsRow (id, some gc_id) db
        → IsRow (id', some gc_id) db
        → id ≡ id'

  -- What other connections do with the store meanwhile; a statement that fails changes nothing.
  pub data Call : Type 0 where
    creates : Account → Call
    logs : String → ℤ → Call
    names : String → String → Call

  abbrev pub kept : P.Db → Option P.Db → P.Db
  kept db none = db
  kept db (some db') = db'

  abbrev pub call : Call → P.Db → P.Db
  call (creates acc) db = kept db (create acc db)
  call (logs id now) db = kept db (update_last_login id now db)
  call (names id nickname) db = kept db (update_nickname id nickname db)

  abbrev pub call_all : List Call → P.Db → P.Db
  call_all [] db = db
  call_all (c ∷ cs) db = call_all cs (call c db)

  module _ (IsRow : Row → P.Db → Type 0) (table : IsTable IsRow) where
    kept-IsRow :
        (r : Row) (db : P.Db) (x : Option P.Db)
        → ((db' : P.Db) → x ≡ some db' → IsRow r db → IsRow r db')
        → IsRow r db
        → IsRow r (kept db x)
    kept-IsRow r db none f m = m
    kept-IsRow r db (some db') f m = f db' refl m

    call-IsRow : (r : Row) (c : Call) (db : P.Db) → IsRow r db → IsRow r (call c db)
    unfolding create update_last_login update_nickname
    call-IsRow r (creates acc) db m =
        kept-IsRow r db (create acc db)
          (λ db' e m.
            (table.inserts acc.id acc.nickname acc.game_center_id acc.is_guest acc.created_at
                acc.last_login_at db db' e).1
              r m)
          m
    call-IsRow r (logs id now) db m =
        kept-IsRow r db (update_last_login id now db) (λ db' e m. table.logs_in id now db db' e r m)
          m
    call-IsRow r (names id nickname) db m =
        kept-IsRow r db (update_nickname id nickname db)
          (λ db' e m. table.renames id nickname db db' e r m) m

    call_all-IsRow : (r : Row) (cs : List Call) (db : P.Db) → IsRow r db → IsRow r (call_all cs db)
    call_all-IsRow r [] db m = m
    call_all-IsRow r (c ∷ cs) db m = call_all-IsRow r cs (call c db) (call-IsRow r c db m)

    -- An account that is found is that of a row of the player, and none is found only if none is there.
    abbrev FoundIn : String → P.Db → Option (Option Account) → Type 0
    FoundIn g db none = Unit
    FoundIn g db (some none) = (id : String) → IsRow (id, some g) db → ⊥
    FoundIn g db (some (some acc)) = IsRow (acc.id, some g) db

    scanned-FoundIn :
        (g : String) (db : P.Db) (x : Scanned)
        → P.query_row select_by_game_center_id (text g ∷ []) db ≡ x
        → FoundIn g db (nil_if_absent (scan_account x))
    unfolding nil_if_absent scan_account
    scanned-FoundIn g db (columns id other nickname guest created last) e =
        let (same, m) = table.selects g id nickname other guest created last db e in
        subst (λ x. IsRow (id, x) db) same m
    scanned-FoundIn g db no_rows e = λ id m. table.misses g id db e m
    scanned-FoundIn g db failure e = tt

    find-FoundIn :
        (g : String) (db : P.Db) (x : Option (Option Account))
        → find_by_game_center_id g db ≡ x
        → FoundIn g db x
    unfolding find_by_game_center_id
    find-FoundIn g db x e =
        subst (FoundIn g db) e
          (scanned-FoundIn g db (P.query_row select_by_game_center_id (text g ∷ []) db) refl)

    module _ ⦃R : Runtime⦄ where
      -- A login that succeeds leaves a row of the account that it gives, and the rows that there were.
      abbrev IsLogin : String → P.Db → Option (Account × P.Db) × R.Seed → Type 0
      IsLogin g before (none, s) = Unit
      IsLogin g before (some (acc, db), s) =
          IsRow (acc.id, some g) db × ((r : Row) → IsRow r before → IsRow r db)

      new-IsLogin :
          (g nickname : String) (now : ℤ) (db : P.Db) (s : R.Seed) (x : Option P.Db)
          → create (new_game_center_account g nickname now s).0 db ≡ x
          → IsLogin g db (elim x [
            | none ↦ (none, (new_game_center_account g nickname now s).1)
            | some db' ↦ (
              some ((new_game_center_account g nickname now s).0, db'),
              (new_game_center_account g nickname now s).1,
            )
          ])
      unfolding create new_game_center_account
      new-IsLogin g nickname now db s none e = tt
      new-IsLogin g nickname now db s (some db') e =
          (table.inserts (R.new_uuid s).0 nickname (some g) false now now db db' e)

      old-IsLogin :
          (g : String) (now : ℤ) (acc : Account) (db : P.Db) (s : R.Seed) (x : Option P.Db)
          → update_last_login acc.id now db ≡ x
          → IsRow (acc.id, some g) db
          → IsLogin g db (elim x [ none ↦ (some (acc, db), s) | some db' ↦ (some (acc, db'), s) ])
      unfolding update_last_login
      old-IsLogin g now acc db s none e m = (m, λ r m. m)
      old-IsLogin g now acc db s (some db') e m =
          (table.logs_in acc.id now db db' e (acc.id, some g) m, table.logs_in acc.id now db db' e)

      find_or_create-IsLogin :
          (g nickname : String) (now : ℤ) (sv : Server)
          → IsLogin g sv.accounts (find_or_create g nickname now sv)
      unfolding find_or_create
      find_or_create-IsLogin g nickname now sv =
          elim (Option-cases (find_by_game_center_id g sv.accounts)) [
            | inl broken ↦ rw (broken, find_or_create) tt
            | inr (none, found) ↦
                rw (found, find_or_create) (new-IsLogin g nickname now sv.accounts sv.seed _ refl)
            | inr (some old, found) ↦
                rw (found, find_or_create)
                  (old-IsLogin g now old sv.accounts sv.seed _ refl
                    (find-FoundIn g sv.accounts _ found))
          ]

      -- Over a table as PostgreSQL documents it, a Game Center player who logs in again is given the
      -- same account as before, whatever accounts have been made, logged in and renamed since, or an
      -- error.
      pub find_or_create-same_account :
          (g nickname nickname' : String) (now now' : ℤ) (sv sv' : Server) (acc acc' : Account)
          (db db' : P.Db) (s s' : R.Seed) (calls : List Call)
          → find_or_create g nickname now sv ≡ (some (acc, db), s)
          → sv'.accounts ≡ call_all calls db
          → find_or_create g nickname' now' sv' ≡ (some (acc', db'), s')
          → acc'.id ≡ acc.id
      find_or_create-same_account g nickname nickname' now now' sv sv' acc acc' db db' s s' calls e
            later e' =
          let first = subst (IsLogin g sv.accounts) e (find_or_create-IsLogin g nickname now sv) in
          let second =
            subst (IsLogin g sv'.accounts) e' (find_or_create-IsLogin g nickname' now' sv') in
          let still = call_all-IsRow (acc.id, some g) calls db first.0 in
          let last = second.1 (acc.id, some g) (rw later still) in
          table.unique g acc'.id acc.id db' second.0 last
