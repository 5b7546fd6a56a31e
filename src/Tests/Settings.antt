-- ===== src/Tests/Settings.antt =====
-- The theorems on the environment, at concrete settings.
use gyeongdohalsaram_server.Base.{arith, ◌≡◌, refl, ◌⊎◌, [], ◌∷◌, ℤ, pos, negsuc, string_eq}
use gyeongdohalsaram_server.Config.{
  get_env_int, load, seconds_duration, word, trim_space, trim_left, trim_right, keep_parts,
  split_commas,
}
use gyeongdohalsaram_server.GameCenter.{to_int64}
use gyeongdohalsaram_server.Config.Number.{IsInt64, in_nanoseconds}
use gyeongdohalsaram_server.Config.Fallback.{Spells, get_env_int-Spells}
use gyeongdohalsaram_server.Config.Load.{Settings, IsWritten, environment, load-environment}

abbrev pub settings : Settings
settings = record {
  port = pos 9000;
  log_level = "debug";
  log_format = "json";
  database_url = "postgres://db/game";
  bundle = "kr.game";
  bundles = "kr.game.beta" ∷ [];
  tolerance = negsuc 0;
}

pub settings-IsWritten : IsWritten settings
unfolding trim_space trim_left trim_right
settings-IsWritten = record {
  port_fits = omega arith;
  level_given = refl;
  format_given = refl;
  url_given = refl;
  names = ((refl, refl, ground arith), ((refl, refl, ground arith), tt));
  tolerance_fits = omega arith;
}

load-environment_example : load (environment settings) ≡ record {
  port = pos 9000;
  log_level = "debug";
  log_format = "json";
  database_url = "postgres://db/game";
  gc_bundle_ids = "kr.game" ∷ "kr.game.beta" ∷ [];
  gc_timestamp_tolerance = in_nanoseconds (negsuc 0);
}
load-environment_example = load-environment settings settings-IsWritten

get_env_int-Spells_example :
    ((i : ℤ) × IsInt64 i × Spells "+80" i × (get_env_int "PORT" (pos 8080) (λ key. "+80") ≡ i))
    ⊎ (((i : ℤ) → IsInt64 i → Spells "+80" i → ⊥)
        × (get_env_int "PORT" (pos 8080) (λ key. "+80") ≡ pos 8080))
get_env_int-Spells_example = get_env_int-Spells "PORT" (pos 8080) (λ key. "+80")

-- Blanks around a name are cut off, and blank names left out.
blanks : keep_parts (split_commas " a , ,b") ≡ "a" ∷ "b" ∷ []
unfolding keep_parts split_commas trim_space trim_left trim_right
blanks = refl

-- A number of seconds whose nanoseconds are a multiple of 2 ^ 64 is a tolerance of zero, which turns
-- the check of time stamps off.
wrapped : seconds_duration (pos 36_028_797_018_963_968) ≡ pos 0
unfolding seconds_duration word to_int64
wrapped = refl
