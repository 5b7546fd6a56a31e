-- ===== src/Main/Verified.antt =====
-- The verifier that the process starts from the environment.
use mathlib.Core.List.{Mem}
use gyeongdohalsaram_server.Base.{
  ℕ, ◌*◌, ◌≤◌, ◌<◌, ◌≡◌, refl, ap, ◌∙◌, subst, All, ◌⊎◌, inl, inr, Bool-cases, true, ◌<>◌, Option,
  Option-cases, String, List, ◌∷◌, ℤ, pos, neg_part, ◌-ℤ◌, arith, length,
}
use gyeongdohalsaram_server.Runtime.{Runtime}
use gyeongdohalsaram_server.Config.{Config, Environment, seconds_duration, load}
use gyeongdohalsaram_server.Config.Number.{format_int, duration-IsInt64, seconds_duration-exact}
use gyeongdohalsaram_server.Config.Load.{get_env_int-given, get_env_string_slice-given}
use gyeongdohalsaram_server.Config.Slice.{IsEntry, join_commas}
use gyeongdohalsaram_server.GameCenter.{
  Crypto, Credential, GameCenterVerifier, accepted, unix_milli, to_int64, validate_timestamp,
  verify, new_game_center_verifier,
}
use gyeongdohalsaram_server.GameCenter.Timestamp.{IsWithin, validate_timestamp_iff}
use gyeongdohalsaram_server.GameCenter.Accepts.{verify-IsSigned}
use gyeongdohalsaram_server.Store.{Pool, Opening}
use gyeongdohalsaram_server.Main.{
  Network, Started, Running, exits, listens, format_port, start_with, start,
}

module _ ⦃R : Runtime⦄ ⦃C : Crypto⦄ ⦃P : Pool⦄ ⦃N : Network⦄ where
  listed-Mem :
      (bundle : String) (bundles : List String) (id : String)
      → (length (bundle ∷ bundles) ≡ 0) ⊎ Mem id (bundle ∷ bundles)
      → Mem id (bundle ∷ bundles)
  listed-Mem bundle bundles id (inl e) = absurd (omega (arith, e))
  listed-Mem bundle bundles id (inr m) = m

  -- The bundles and the tolerance of a verifier.
  abbrev Checks : GameCenterVerifier → List String → ℤ → Type 0
  Checks v bundles tolerance =
      (v.allowed_bundle_ids ≡ bundles) × (v.timestamp_tolerance ≡ tolerance)

  abbrev ChecksIn : Started → List String → ℤ → Type 0
  ChecksIn (exits open_pools) bundles tolerance = Unit
  ChecksIn (listens r) bundles tolerance = Checks r.verifier bundles tolerance

  start_with-ChecksIn :
      (cfg : Config) (opening : Opening) (s : R.Seed)
      → ChecksIn (start_with cfg opening s) cfg.gc_bundle_ids cfg.gc_timestamp_tolerance
  unfolding start_with new_game_center_verifier
  start_with-ChecksIn cfg opening s = elim (Option-cases opening.store) [
    | inl failed ↦ rw (failed, start_with) tt
    | inr (db, opened) ↦ elim (Bool-cases (N.can_listen (":" <> format_port cfg.port))) [
      | inl free ↦ rw (opened, free, start_with) (refl, refl)
      | inr taken ↦ rw (opened, taken, start_with) tt
    ]
  ]

  start-ChecksIn :
      (env : Environment) (s : R.Seed)
      → ChecksIn (start env s) (load env).gc_bundle_ids (load env).gc_timestamp_tolerance
  unfolding start
  start-ChecksIn env s = start_with-ChecksIn (load env) _ s

  -- The environment names these bundles, and a tolerance in seconds that 64 bits hold in nanoseconds.
  abbrev pub IsSetTo : Environment → String → List String → ℕ → Type 0
  IsSetTo env bundle bundles n =
      (env "GC_BUNDLE_IDS" ≡ join_commas bundle bundles)
      × All IsEntry (bundle ∷ bundles)
      × (env "GC_TIMESTAMP_TOLERANCE" ≡ format_int (pos n))
      × (0 < n)
      × (n < 9_223_372_037)

  load-bundles :
      (env : Environment) (bundle : String) (bundles : List String) (n : ℕ)
      → IsSetTo env bundle bundles n
      → (load env).gc_bundle_ids ≡ bundle ∷ bundles
  unfolding load
  load-bundles env bundle bundles n (listed, names, given, positive, fits) =
      get_env_string_slice-given "GC_BUNDLE_IDS" bundle bundles env listed names

  load-tolerance :
      (env : Environment) (bundle : String) (bundles : List String) (n : ℕ)
      → IsSetTo env bundle bundles n
      → (load env).gc_timestamp_tolerance ≡ pos (n * 1_000_000_000)
  unfolding load
  load-tolerance env bundle bundles n (listed, names, given, positive, fits) =
      ap seconds_duration (
        get_env_int-given "GC_TIMESTAMP_TOLERANCE" (pos 300) (pos n) env given
          (duration-IsInt64 (pos n) fits))
      ∙ seconds_duration-exact (pos n) fits

  -- From an environment that names the bundles, at least one, joined by commas, each of them clean, and a
  -- positive tolerance of at most 9,223,372,036 seconds, whatever its other variables hold: a server that
  -- comes to listen accepts a credential only of one of these bundles, and with a time stamp that differs
  -- from the present by at most the tolerance, or is so far ahead that the difference is beyond the
  -- least duration. So does a verifier of the same bundles and tolerance, with any cache.
  pub start-verifies :
      (env : Environment) (bundle : String) (bundles : List String) (n : ℕ) (s s' : R.Seed)
      (r : Running) (v : GameCenterVerifier) (download : String → Option C.Certificate)
      (cred : Credential) (now : ℤ)
      → IsSetTo env bundle bundles n
      → start env s ≡ listens r
      → v.allowed_bundle_ids ≡ r.verifier.allowed_bundle_ids
      → v.timestamp_tolerance ≡ r.verifier.timestamp_tolerance
      → (verify download cred now v s').0 ≡ accepted
      → Mem cred.bundle_id (bundle ∷ bundles)
        × (IsWithin (n * 1_000_000_000) (now -ℤ unix_milli (to_int64 cred.timestamp))
            ⊎ (9_223_372_036_854_775_808 ≤ neg_part (now -ℤ unix_milli (to_int64 cred.timestamp))))
  start-verifies env bundle bundles n s s' r v download cred now set started same_bundles
        same_tolerance ok =
      let (checks_bundles, checks_tolerance) =
        subst (λ x. ChecksIn x (load env).gc_bundle_ids (load env).gc_timestamp_tolerance) started
          (start-ChecksIn env s) in
      let allowed = checks_bundles ∙ load-bundles env bundle bundles n set in
      let tolerance = checks_tolerance ∙ load-tolerance env bundle bundles n set in
      let (prefix, known, stamp, signed) = verify-IsSigned download cred now v s' ok in
      let checked =
        subst (λ t. validate_timestamp t now cred.timestamp ≡ true) (same_tolerance ∙ tolerance)
          stamp in
      let (listed, names, given, positive, fits) = set in
      (
        listed-Mem bundle bundles cred.bundle_id
            (subst (λ l. (length l ≡ 0) ⊎ Mem cred.bundle_id l) (same_bundles ∙ allowed) known),
        (validate_timestamp_iff (n * 1_000_000_000) now cred.timestamp (omega (arith, positive))
              (omega (arith, fits))).0
            checked,
      )
