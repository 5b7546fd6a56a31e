-- ===== src/Tests/Starts.antt =====
-- The theorems on the start of the process, over the toy cryptography and the database of one row.
use mathlib.Core.List.{Mem}
use gyeongdohalsaram_server.Base.{
  arith, ◌*◌, ◌≤◌, ◌≡◌, refl, ◌⊎◌, true, none, [], ◌∷◌, pos, neg_part, ◌-ℤ◌, ◌==◌, string_eq,
}
use gyeongdohalsaram_server.Config.{
  load, get_env, get_env_int, get_env_string_slice, atoi, read_number, read_digits, signed_int,
  split_commas, keep_parts, trim_space, trim_left, trim_right, seconds_duration, word,
}
use gyeongdohalsaram_server.Room.Codes.{letter_at}
use gyeongdohalsaram_server.Handler.Connections.{decimal, decimal_loop}
use gyeongdohalsaram_server.Config.Load.{Settings, IsWritten, environment}
use gyeongdohalsaram_server.GameCenter.{
  GameCenterVerifier, accepted, unix_milli, to_int64, verify, validate_public_key_url,
  validate_bundle_id, is_listed, validate_timestamp, is_near, saturate, negate, fetch_certificate,
  cached, verify_signature, build_payload, big_endian, new_game_center_verifier,
}
use gyeongdohalsaram_server.GameCenter.Timestamp.{IsWithin}
use gyeongdohalsaram_server.Room.Players.{lookup}
use gyeongdohalsaram_server.Store.{new_postgres_store, postgres_store}
use gyeongdohalsaram_server.Handler.Events.{new_world}
use gyeongdohalsaram_server.Main.{
  Network, Running, listens, level_warn, setup_logger, log_level_of, start_with, start,
}
use gyeongdohalsaram_server.Main.Start.{IsStarted, start-IsStarted}
use gyeongdohalsaram_server.Main.Verified.{IsSetTo, start-verifies}
use gyeongdohalsaram_server.Tests.Exact.{exact}
use gyeongdohalsaram_server.Tests.Stores.{single}
use gyeongdohalsaram_server.Tests.Verifier.{toy, credential, download}

-- No address but that of port 9000 is free.
instance abbrev free : Network
free = record { can_listen = λ address. address == ":9000" }

abbrev settings : Settings
settings = record {
  port = pos 9000;
  log_level = "warn";
  log_format = "json";
  database_url = "postgres://db/game";
  bundle = "game";
  bundles = "beta" ∷ [];
  tolerance = pos 300;
}

settings-IsWritten : IsWritten settings
unfolding trim_space trim_left trim_right
settings-IsWritten = record {
  port_fits = omega arith;
  level_given = refl;
  format_given = refl;
  url_given = refl;
  names = ((refl, refl, ground arith), ((refl, refl, ground arith), tt));
  tolerance_fits = omega arith;
}

abbrev verifier : GameCenterVerifier
verifier = record {
  cert_cache = [];
  allowed_bundle_ids = "game" ∷ "beta" ∷ [];
  timestamp_tolerance = pos 300_000_000_000;
}

abbrev running : Running
running = record {
  logger = record { level = level_warn; json = true };
  verifier = verifier;
  world = new_world none 7;
  address = ":9000";
  open_pools = 1;
}

starts : start (environment settings) 7 ≡ listens running
unfolding start start_with load get_env get_env_int get_env_string_slice atoi read_number
    read_digits signed_int split_commas keep_parts trim_space trim_left trim_right seconds_duration
    word to_int64 string_eq decimal decimal_loop letter_at new_postgres_store setup_logger
    log_level_of new_game_center_verifier
starts = refl

stays : (verify download credential (pos 5) verifier 7).0 ≡ accepted
unfolding verify validate_public_key_url validate_bundle_id is_listed string_eq validate_timestamp
    is_near saturate negate to_int64 unix_milli ◌-ℤ◌ fetch_certificate cached lookup
    verify_signature build_payload big_endian
stays = refl

settings-IsSetTo : IsSetTo (environment settings) "game" ("beta" ∷ []) 300
unfolding string_eq
settings-IsSetTo = (refl, settings-IsWritten.names, refl, omega arith, omega arith)

start-verifies_example :
    Mem credential.bundle_id ("game" ∷ "beta" ∷ [])
    × (IsWithin (300 * 1_000_000_000) (pos 5 -ℤ unix_milli (to_int64 credential.timestamp))
        ⊎ (9_223_372_036_854_775_808
            ≤ neg_part (pos 5 -ℤ unix_milli (to_int64 credential.timestamp))))
start-verifies_example =
    start-verifies (environment settings) "game" ("beta" ∷ []) 300 7 7 running verifier download
      credential (pos 5) settings-IsSetTo starts refl refl stays

start-IsStarted_example : IsStarted (load (environment settings)) 7 (start (environment settings) 7)
start-IsStarted_example = start-IsStarted (environment settings) 7
