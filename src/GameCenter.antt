-- ===== src/GameCenter.antt =====
-- internal/auth/gamecenter.go. The network, base64, and the cryptography of Go's library are an
-- interface.
pub mod Timestamp
pub mod Cache
pub mod Accepts
use text.Mathlib.Text
use gyeongdohalsaram_server.Base.{
  ℕ, zero, suc, ◌+◌, ◌-◌, ◌*◌, ◌/◌, ◌%◌, Bool, true, false, not, ◌&&◌, Option, none, some, String,
  List, [], ◌∷◌, ◌++◌, ℤ, pos, negsuc, ◌+ℤ◌, ◌-ℤ◌, ltb_ℤ, leb_ℤ, ltb, leb, eqb, length, ◌==◌,
  string_eq, if◌then◌else◌,
}
use gyeongdohalsaram_server.Runtime.{Runtime}
use gyeongdohalsaram_server.Room.Players.{lookup, insert, erase}

-- `GameCenterCredential`
pub record Credential : Type 0 where
  pub player_id : String
  pub bundle_id : String
  pub public_key_url : String
  pub signature : String
  pub salt : String
  pub timestamp : ℕ

-- Bytes are numbers. `decode_base64` and `rsa_key` may fail, and a signature is checked against a hash.
pub record Crypto : Type 1 where
  pub Certificate : Type 0
  pub Key : Type 0
  pub text_bytes : String → List ℕ
  pub decode_base64 : String → Option (List ℕ)
  pub sha256 : List ℕ → List ℕ
  pub rsa_key : Certificate → Option Key
  pub verify_pkcs1v15 : Key → List ℕ → List ℕ → Bool

abbrev pub allowed_key_url_prefix : String
allowed_key_url_prefix = "https://static.gc.apple.com/"

abbrev pub max_cert_cache_size : ℕ
max_cert_cache_size = 100

-- 24 hours, in nanoseconds.
abbrev pub cert_cache_ttl : ℤ
cert_cache_ttl = pos 86_400_000_000_000

-- Why a credential is turned down.
pub data Verdict : Type 0 where
  accepted invalid_url wrong_bundle expired no_certificate bad_signature_text bad_salt_text
        no_rsa_key bad_signature :
      Verdict

unfoldable pub validate_public_key_url : String → Bool
validate_public_key_url url = Text.starts_with url allowed_key_url_prefix

unfoldable pub is_listed : String → List String → Bool
is_listed id [] = false
is_listed id (x ∷ xs) = if x == id then true else is_listed id xs

unfoldable pub validate_bundle_id : List String → String → Bool
validate_bundle_id allowed bundle_id =
    if eqb (length allowed) 0 then true else is_listed bundle_id allowed

-- `int64` of a 64-bit word.
unfoldable pub to_int64 : ℕ → ℤ
to_int64 w =
    if ltb w 9_223_372_036_854_775_808 then pos w else negsuc (18_446_744_073_709_551_615 - w)

-- `time.UnixMilli`, in nanoseconds since 1970.
unfoldable pub unix_milli : ℤ → ℤ
unix_milli (pos n) = pos (n * 1_000_000)
unix_milli (negsuc n) = negsuc (suc n * 1_000_000 - 1)

-- `Time.Sub`, which keeps to the bounds of a Duration.
unfoldable pub saturate : ℤ → ℤ
saturate (pos n) = if leb 9_223_372_036_854_775_808 n then pos 9_223_372_036_854_775_807 else pos n
saturate (negsuc n) =
    if leb 9_223_372_036_854_775_808 n then negsuc 9_223_372_036_854_775_807 else negsuc n

-- `-diff` of 64 bits: the least number stays as it is.
unfoldable pub negate : ℤ → ℤ
negate (pos zero) = pos zero
negate (pos (suc n)) = negsuc n
negate (negsuc n) = if eqb n 9_223_372_036_854_775_807 then negsuc n else pos (suc n)

unfoldable pub is_near : ℤ → ℤ → Bool
is_near tolerance diff =
    let size = if ltb_ℤ diff (pos 0) then negate diff else diff in not (ltb_ℤ tolerance size)

abbrev is_zero : ℤ → Bool
is_zero (pos zero) = true
is_zero _ = false

unfoldable pub validate_timestamp : ℤ → ℤ → ℕ → Bool
validate_timestamp tolerance now timestamp =
    if is_zero tolerance
    then true
    else is_near tolerance (saturate (now -ℤ unix_milli (to_int64 timestamp)))

-- The bytes of a word, so many of them, the highest first: `binary.BigEndian.PutUint64` for eight.
unfoldable pub big_endian : ℕ → ℕ → List ℕ
big_endian zero w = []
big_endian (suc n) w = big_endian n (w / 256) ++ ((w % 256) ∷ [])

-- `cachedCert`
pub record CachedCert ⦃C : Crypto⦄ : Type 0 where
  pub cert : C.Certificate
  pub expires_at : ℤ

-- `GameCenterVerifier`, without its HTTP client.
pub record GameCenterVerifier ⦃C : Crypto⦄ : Type 0 where
  pub cert_cache : List (String × CachedCert)
  pub allowed_bundle_ids : List String
  pub timestamp_tolerance : ℤ

module _ ⦃C : Crypto⦄ where
  unfoldable pub new_game_center_verifier : List String → ℤ → GameCenterVerifier
  new_game_center_verifier bundle_ids timestamp_tolerance = record {
    cert_cache = [];
    allowed_bundle_ids = bundle_ids;
    timestamp_tolerance = timestamp_tolerance;
  }

  unfoldable pub build_payload : String → String → ℕ → List ℕ → List ℕ
  build_payload player_id bundle_id timestamp salt =
      C.text_bytes player_id ++ C.text_bytes bundle_id ++ big_endian 8 timestamp ++ salt

  -- The loop over the cache that deletes what has expired.
  unfoldable pub drop_expired : ℤ → List (String × CachedCert) → List (String × CachedCert)
  drop_expired now [] = []
  drop_expired now ((url, c) ∷ cs) =
      let rest = drop_expired now cs in if ltb_ℤ c.expires_at now then rest else (url, c) ∷ rest

module _ ⦃R : Runtime⦄ ⦃C : Crypto⦄ where
  -- The loop that deletes the first entry it meets and breaks.
  unfoldable pub drop_first :
      List (String × CachedCert) → List (String × CachedCert) → List (String × CachedCert)
  drop_first [] cache = cache
  drop_first ((url, c) ∷ cs) cache = erase url cache

  -- `evictExpiredLocked`
  unfoldable pub evict_expired :
      ℤ → List (String × CachedCert) → R.Seed → List (String × CachedCert) × R.Seed
  evict_expired now cache s =
      let left = drop_expired now cache in
      if leb max_cert_cache_size (length left)
      then (let (listed, s') = R.range_order s left in (drop_first listed left, s'))
      else (left, s)

  -- The part of `fetchCertificate` that stores a new certificate.
  unfoldable pub store_certificate :
      String
      → C.Certificate
      → ℤ
      → List (String × CachedCert)
      → R.Seed
      → List (String × CachedCert) × R.Seed
  store_certificate url cert now cache s =
      let (left, s') =
        if leb max_cert_cache_size (length cache) then evict_expired now cache s else (cache, s) in
      (insert url (record { cert = cert; expires_at = now +ℤ cert_cache_ttl }) left, s')

  -- The unexpired entry of the cache for a URL.
  unfoldable pub cached : String → ℤ → List (String × CachedCert) → Option C.Certificate
  cached url now cache = elim (lookup url cache) [
    | none ↦ none
    | some c ↦ if ltb_ℤ now c.expires_at then some c.cert else none
  ]

  -- What the network answers to a URL, parsed, is an argument: `none` is any error on the way.
  unfoldable pub fetch_certificate :
      (String → Option C.Certificate)
      → String
      → ℤ
      → List (String × CachedCert)
      → R.Seed
      → Option C.Certificate × List (String × CachedCert) × R.Seed
  fetch_certificate download url now cache s = elim (cached url now cache) [
    | some cert ↦ (some cert, cache, s)
    | none ↦ elim (download url) [
      | none ↦ (none, cache, s)
      | some cert ↦
          let (cache', s') = store_certificate url cert now cache s in (some cert, cache', s')
    ]
  ]

  -- The part of `Verify` behind the certificate.
  unfoldable pub verify_signature : Credential → C.Certificate → Verdict
  verify_signature cred cert = elim (C.decode_base64 cred.signature) [
    | none ↦ bad_signature_text
    | some signature ↦ elim (C.decode_base64 cred.salt) [
      | none ↦ bad_salt_text
      | some salt ↦ elim (C.rsa_key cert) [
        | none ↦ no_rsa_key
        | some key ↦
            let payload = build_payload cred.player_id cred.bundle_id cred.timestamp salt in
            if C.verify_pkcs1v15 key (C.sha256 payload) signature then accepted else bad_signature
      ]
    ]
  ]

  abbrev pub judged : Credential → Option C.Certificate → Verdict
  judged cred none = no_certificate
  judged cred (some cert) = verify_signature cred cert

  unfoldable pub verify :
      (String → Option C.Certificate)
      → Credential
      → ℤ
      → GameCenterVerifier
      → R.Seed
      → Verdict × GameCenterVerifier × R.Seed
  verify download cred now v s =
      if not (validate_public_key_url cred.public_key_url)
      then (invalid_url, v, s)
      else if not (validate_bundle_id v.allowed_bundle_ids cred.bundle_id)
      then (wrong_bundle, v, s)
      else if not (validate_timestamp v.timestamp_tolerance now cred.timestamp)
      then (expired, v, s)
      else (let (cert, cache, s') =
            fetch_certificate download cred.public_key_url now v.cert_cache s in
          (judged cred cert, record v { cert_cache = cache }, s'))
