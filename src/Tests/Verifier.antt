-- ===== src/Tests/Verifier.antt =====
-- The theorems on the verification of Game Center credentials, at concrete inputs: over a toy hash,
-- which adds up the bytes, and signatures that repeat the hash.
use text.Mathlib.TextBridge.{IsPrefix}
use mathlib.Core.List.{Mem}
use gyeongdohalsaram_server.Base.{
  ℕ, ◌+◌, ◌≤◌, ◌≡◌, refl, ◌↔◌, ◌⊎◌, Bool, true, false, Option, some, String, List, [], ◌∷◌, pos,
  neg_part, ◌-ℤ◌, length, eqb, arith, ◌==◌, string_eq, if◌then◌else◌,
}
use gyeongdohalsaram_server.Room.Players.{lookup}
use gyeongdohalsaram_server.GameCenter.{
  Crypto, Credential, GameCenterVerifier, accepted, allowed_key_url_prefix, max_cert_cache_size,
  to_int64, unix_milli, validate_public_key_url, validate_bundle_id, is_listed, validate_timestamp,
  big_endian, build_payload, cached, verify_signature, fetch_certificate, verify,
}
use gyeongdohalsaram_server.GameCenter.Timestamp.{IsWithin, validate_timestamp_iff}
use gyeongdohalsaram_server.GameCenter.Cache.{Fetches, fetch_certificate-Fetches}
use gyeongdohalsaram_server.GameCenter.Accepts.{IsSigned, verify-IsSigned}
use gyeongdohalsaram_server.Tests.Exact.{exact}

abbrev pub sum : List ℕ → ℕ
sum [] = 0
sum (b ∷ bs) = b + sum bs

abbrev pub same_bytes : List ℕ → List ℕ → Bool
same_bytes [] [] = true
same_bytes (b ∷ bs) (c ∷ cs) = if eqb b c then same_bytes bs cs else false
same_bytes _ _ = false

instance abbrev pub toy : Crypto
toy = record {
  Certificate = ℕ;
  Key = ℕ;
  text_bytes = λ t. 65 ∷ [];
  decode_base64 = λ t. some (if t == "sum" then 324 ∷ [] else 194 ∷ []);
  sha256 = λ bs. sum bs ∷ [];
  rsa_key = λ c. some c;
  verify_pkcs1v15 = λ key hash signature. same_bytes hash signature;
}

abbrev pub credential : Credential
credential = record {
  player_id = "A";
  bundle_id = "game";
  public_key_url = "https://static.gc.apple.com/key";
  signature = "sum";
  salt = "wg==";
  timestamp = 0;
}

abbrev verifier : GameCenterVerifier
verifier = record { cert_cache = []; allowed_bundle_ids = "game" ∷ []; timestamp_tolerance = pos 0 }

abbrev pub download : String → Option ℕ
download url = some 3

credential-accepted : (verify download credential (pos 5) verifier 7).0 ≡ accepted
unfolding verify validate_public_key_url validate_bundle_id is_listed string_eq validate_timestamp
    fetch_certificate cached lookup verify_signature build_payload big_endian
credential-accepted = refl

-- A time stamp half way through the words, ahead of any clock.
validate_timestamp_iff_example :
    (validate_timestamp
        (pos 300_000_000_000)
        (pos 1_700_000_000_000_000_000)
        4_611_686_018_427_387_904
      ≡ true)
    ↔ (IsWithin 300_000_000_000
          (pos 1_700_000_000_000_000_000 -ℤ unix_milli (to_int64 4_611_686_018_427_387_904))
        ⊎ (9_223_372_036_854_775_808
            ≤ neg_part
                (pos 1_700_000_000_000_000_000 -ℤ unix_milli (to_int64 4_611_686_018_427_387_904))))
validate_timestamp_iff_example =
    validate_timestamp_iff 300_000_000_000 (pos 1_700_000_000_000_000_000) 4_611_686_018_427_387_904
      (omega arith) (omega arith)

fetch_certificate-Fetches_example :
    (length (fetch_certificate download "key" (pos 5) [] 7).1 ≤ max_cert_cache_size)
    × Fetches download "key"
        (pos 5)
        []
        (fetch_certificate download "key" (pos 5) [] 7).0
        (fetch_certificate download "key" (pos 5) [] 7).1
fetch_certificate-Fetches_example =
    fetch_certificate-Fetches download "key" (pos 5) [] 7 (omega arith)

verify-IsSigned_example :
    IsPrefix allowed_key_url_prefix credential.public_key_url
    × ((length verifier.allowed_bundle_ids ≡ 0)
        ⊎ Mem credential.bundle_id verifier.allowed_bundle_ids)
    × (validate_timestamp verifier.timestamp_tolerance (pos 5) credential.timestamp ≡ true)
    × ((cert : ℕ) × ((fetch_certificate download credential.public_key_url
            (pos 5)
            verifier.cert_cache
            7).0
          ≡ some cert)
        × IsSigned credential cert)
verify-IsSigned_example = verify-IsSigned download credential (pos 5) verifier 7 credential-accepted
