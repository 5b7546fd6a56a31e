-- ===== src/Main/Start.antt =====
-- The server from its start on.
use gyeongdohalsaram_server.Base.{
  ◌≡◌, refl, sym, subst, ◌⊎◌, inl, inr, Bool-cases, true, false, none, some, Option-cases, String,
  ◌<>◌, List, [],
}
use gyeongdohalsaram_server.Runtime.{Runtime}
use gyeongdohalsaram_server.Config.{Config, Environment, load}
use gyeongdohalsaram_server.GameCenter.{Crypto}
use gyeongdohalsaram_server.Store.{Pool, Opening, schema, new_postgres_store, postgres_store}
use gyeongdohalsaram_server.Ws.Hub.Safe.{IsSafe}
use gyeongdohalsaram_server.Handler.Events.{World, Event, new_world, run}
use gyeongdohalsaram_server.Handler.Invariant.{IsSound}
use gyeongdohalsaram_server.Handler.History.{run-IsSound}
use gyeongdohalsaram_server.Main.{Network, Started, exits, listens, format_port, start_with, start}

module _ ⦃P : Pool⦄ where
  -- The database takes the connection, answers, and makes the table.
  abbrev pub IsOpened : String → P.Db → Type 0
  IsOpened url db =
      (empty : P.Db) × (P.connect_to url ≡ some empty)
      × (P.ping empty ≡ true)
      × (P.exec schema [] empty ≡ some db)

  -- It refuses the connection, does not answer, or does not make the table.
  abbrev pub IsRefused : String → Type 0
  IsRefused url =
      (P.connect_to url ≡ none)
      ⊎ ((empty : P.Db) × (P.connect_to url ≡ some empty)
          × ((P.ping empty ≡ false) ⊎ (P.exec schema [] empty ≡ none)))

  abbrev IsTidy : String → Opening → Type 0
  IsTidy url opening =
      (IsRefused url × (opening ≡ record { store = none; open_pools = 0 }))
      ⊎ ((db : P.Db) × IsOpened url db × (opening ≡ record { store = some db; open_pools = 1 }))

  new_postgres_store-IsTidy : (url : String) → IsTidy url (new_postgres_store url)
  unfolding new_postgres_store
  new_postgres_store-IsTidy url = elim (Option-cases (P.connect_to url)) [
    | inl refused ↦ inl (inl refused, rw (refused, new_postgres_store) refl)
    | inr (db, opened) ↦ elim (Bool-cases (P.ping db)) [
      | inr silent ↦
          inl (inr (db, opened, inl silent), rw (opened, silent, new_postgres_store) refl)
      | inl answers ↦ elim (Option-cases (P.exec schema [] db)) [
        | inl fails ↦
            inl (inr (db, opened, inr fails), rw (opened, answers, fails, new_postgres_store) refl)
        | inr (db', made) ↦
            inr (
              db',
              (db, opened, answers, made),
              rw (opened, answers, made, new_postgres_store) refl,
            )
      ]
    ]
  ]

module _ ⦃R : Runtime⦄ ⦃C : Crypto⦄ ⦃P : Pool⦄ ⦃N : Network⦄ where
  abbrev pub address : Config → String
  address cfg = ":" <> format_port cfg.port

  -- The process ends with no pool open if the database cannot be opened, and with one open if its
  -- address cannot be listened at; otherwise it listens there, and whatever happens then is safe.
  abbrev pub IsStarted : Config → R.Seed → Started → Type 0
  IsStarted cfg s (exits open_pools) =
      (IsRefused cfg.database_url × (open_pools ≡ 0))
      ⊎ ((db : P.Db) × IsOpened cfg.database_url db
          × (N.can_listen (address cfg) ≡ false)
          × (open_pools ≡ 1))
  IsStarted cfg s (listens r) =
      (db : P.Db) × IsOpened cfg.database_url db
      × (N.can_listen (address cfg) ≡ true)
      × (r.address ≡ address cfg)
      × (r.open_pools ≡ 1)
      × (r.world ≡ new_world db s)
      × ((es : List Event)
          → (w : World) × (run es r.world ≡ some w) × IsSound w.server × IsSafe w.hub)

  start_with-IsStarted :
      (cfg : Config) (opening : Opening) (s : R.Seed)
      → IsTidy cfg.database_url opening
      → IsStarted cfg s (start_with cfg opening s)
  unfolding start_with
  start_with-IsStarted cfg opening s (inl (refused, e)) =
      subst (λ o. IsStarted cfg s (start_with cfg o s)) (sym e) (inl (refused, refl))
  start_with-IsStarted cfg opening s (inr (db, opened, e)) =
      subst (λ o. IsStarted cfg s (start_with cfg o s)) (sym e)
        (elim (Bool-cases (N.can_listen (address cfg))) [
          | inl free ↦
              rw (free, start_with) (db, opened, free, refl, refl, refl, λ es. run-IsSound es db s)
          | inr taken ↦ rw (taken, start_with) (inr (db, opened, taken, refl))
        ])

  -- In any environment the process ends or comes to listen. It ends with no pool open if the database of
  -- the settings refuses the connection, does not answer or does not make the table; it ends with its
  -- pool still open if the database is there and the address of the port cannot be listened at; and
  -- otherwise it listens at this address, with one pool open. Then any history of events runs to its
  -- end with no panic, and leaves every room valid and every send buffer within its bound.
  pub start-IsStarted : (env : Environment) (s : R.Seed) → IsStarted (load env) s (start env s)
  unfolding start
  start-IsStarted env s =
      start_with-IsStarted (load env) _ s (new_postgres_store-IsTidy (load env).database_url)
