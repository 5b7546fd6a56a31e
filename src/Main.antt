-- ===== src/Main.antt =====
-- The start of the process, of cmd/server/main.go.
pub mod Start
pub mod Verified
use gyeongdohalsaram_server.Base.{
  ℕ, suc, Bool, Option, none, some, String, ◌<>◌, ℤ, pos, negsuc, ◌==◌, string_eq, if◌then◌else◌,
}
use gyeongdohalsaram_server.Runtime.{Runtime}
use gyeongdohalsaram_server.Config.{Config, Environment, load}
use gyeongdohalsaram_server.GameCenter.{Crypto, GameCenterVerifier, new_game_center_verifier}
use gyeongdohalsaram_server.Store.{Pool, Opening, new_postgres_store, postgres_store}
use gyeongdohalsaram_server.Handler.Connections.{decimal}
use gyeongdohalsaram_server.Handler.Events.{World, new_world}

pub data Level : Type 0 where
  level_debug level_info level_warn level_error : Level

pub record Logger : Type 0 where
  pub level : Level
  pub json : Bool

unfoldable pub log_level_of : String → Level
log_level_of s =
    if s == "debug"
    then level_debug
    else if s == "warn"
    then level_warn
    else if s == "error"
    then level_error
    else level_info

unfoldable pub setup_logger : Config → Logger
setup_logger cfg = record { level = log_level_of cfg.log_level; json = cfg.log_format == "json" }

-- A response of the HTTP server.
pub record Response : Type 0 where
  pub content_type : String
  pub status : ℕ
  pub body : String

unfoldable pub handle_health : Response
handle_health = record {
  content_type = "application/json";
  status = 200;
  body = "{\"status\":\"ok\"}";
}

-- `%d`
abbrev pub format_port : ℤ → String
format_port (pos n) = decimal n
format_port (negsuc n) = "-" <> decimal (suc n)

-- Whether `ListenAndServe` comes to serve at an address, until it is shut down, or fails at once.
pub record Network : Type 0 where
  pub can_listen : String → Bool

module _ ⦃R : Runtime⦄ ⦃C : Crypto⦄ ⦃P : Pool⦄ ⦃N : Network⦄ where
  -- What is running when the server begins to listen.
  pub record Running : Type 0 where
    pub logger : Logger
    pub verifier : GameCenterVerifier
    pub world : World
    pub address : String
    pub open_pools : ℕ

  -- `os.Exit(1)`, with as many pools left open, or a server that listens.
  pub data Started : Type 0 where
    exits : ℕ → Started
    listens : Running → Started

  unfoldable pub start_with : Config → Opening → R.Seed → Started
  start_with cfg opening s = elim opening.store [
    | none ↦ exits opening.open_pools
    | some db ↦
        let address = ":" <> format_port cfg.port in
        if N.can_listen address
        then listens (record {
          logger = setup_logger cfg;
          verifier = new_game_center_verifier cfg.gc_bundle_ids cfg.gc_timestamp_tolerance;
          world = new_world db s;
          address = address;
          open_pools = opening.open_pools;
        })
        else exits opening.open_pools
  ]

  -- `main`, until the server listens or the process ends.
  unfoldable pub start : Environment → R.Seed → Started
  start env s = let cfg = load env in start_with cfg (new_postgres_store cfg.database_url) s
