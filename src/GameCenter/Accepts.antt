-- ===== src/GameCenter/Accepts.antt =====
-- What `Verify` of internal/auth/gamecenter.go accepts, and the bytes of `buildPayload`.
use text.Mathlib.TextBridge.{IsPrefix}
use text.Mathlib.TextEquality.{starts_with_iff}
use mathlib.Core.List.{Mem, mem-cons_self, mem-cons_of_mem}
use gyeongdohalsaram_server.Base.{
  ℕ, zero, suc, ◌+◌, ◌*◌, ◌/◌, ◌%◌, ◌<◌, ◌≡◌, refl, ◌∙◌, subst, ◌⊎◌, inl, inr, true, Bool-cases,
  Option, none, some, Option-cases, String, List, [], ◌∷◌, ◌++◌, ℤ, eqb, length, arith, string_eq,
}
use gyeongdohalsaram_server.Runtime.{Runtime}
use gyeongdohalsaram_server.GameCenter.{
  Crypto, Credential, GameCenterVerifier, accepted, allowed_key_url_prefix, validate_public_key_url,
  is_listed, validate_bundle_id, validate_timestamp, big_endian, build_payload, fetch_certificate,
  verify_signature, judged, verify,
}

-- The number that bytes spell, the highest first, after those of a given number.
abbrev pub value : List ℕ → ℕ → ℕ
value [] a = a
value (b ∷ bs) a = value bs (a * 256 + b)

value-append : (bs : List ℕ) (b a : ℕ) → value (bs ++ (b ∷ [])) a ≡ value bs a * 256 + b
value-append [] b a = refl
value-append (c ∷ bs) b a = value-append bs b (a * 256 + c)

-- How many numbers so many bytes spell.
abbrev limit : ℕ → ℕ
limit zero = 1
limit (suc n) = limit n * 256

big_endian_lem : (n w : ℕ) → w < limit n → value (big_endian n w) 0 ≡ w
unfolding big_endian
big_endian_lem zero w h = omega arith
big_endian_lem (suc n) w h =
    value-append (big_endian n (w / 256)) (w % 256) 0
    ∙ omega (arith, big_endian_lem n (w / 256) (omega arith))

-- The eight bytes that the payload holds of a time stamp spell it.
pub value-big_endian : (w : ℕ) → w < 18_446_744_073_709_551_616 → value (big_endian 8 w) 0 ≡ w
value-big_endian w h = big_endian_lem 8 w h

module _ ⦃R : Runtime⦄ ⦃C : Crypto⦄ where
  -- The credential is signed by the key of this certificate.
  abbrev pub IsSigned : Credential → C.Certificate → Type 0
  IsSigned cred cert =
      (signature : List ℕ) × (salt : List ℕ) × (key : C.Key) × (C.decode_base64 cred.signature
        ≡ some signature)
      × (C.decode_base64 cred.salt ≡ some salt)
      × (C.rsa_key cert ≡ some key)
      × (C.verify_pkcs1v15 key
            (C.sha256 (
              C.text_bytes cred.player_id
              ++ C.text_bytes cred.bundle_id
              ++ big_endian 8 cred.timestamp
              ++ salt))
            signature
          ≡ true)

  verify_signature-IsSigned :
      (cred : Credential) (cert : C.Certificate)
      → verify_signature cred cert ≡ accepted
      → IsSigned cred cert
  unfolding verify_signature build_payload
  verify_signature-IsSigned cred cert h = elim (Option-cases (C.decode_base64 cred.signature)) [
    | inl e ↦ ground arith
    | inr (signature, e) ↦ elim (Option-cases (C.decode_base64 cred.salt)) [
      | inl e' ↦ ground arith
      | inr (salt, e') ↦ elim (Option-cases (C.rsa_key cert)) [
        | inl e'' ↦ ground arith
        | inr (key, e'') ↦ (signature, salt, key, e, e', e'', ground arith)
      ]
    ]
  ]

  is_listed-mem : (id : String) (xs : List String) → is_listed id xs ≡ true → Mem id xs
  unfolding is_listed
  is_listed-mem id [] h = cc
  is_listed-mem id (x ∷ xs) h = elim (string_eq.dec x id) [
    | yes e ↦ subst (λ y. Mem y (x ∷ xs)) e mem-cons_self
    | no n ↦ mem-cons_of_mem x (is_listed-mem id xs (ground arith))
  ]

  validate_bundle_id-mem :
      (allowed : List String) (id : String)
      → validate_bundle_id allowed id ≡ true
      → (length allowed ≡ 0) ⊎ Mem id allowed
  unfolding validate_bundle_id
  validate_bundle_id-mem allowed id h = elim (Bool-cases (eqb (length allowed) 0)) [
    | inl empty ↦ inl (ground arith)
    | inr given ↦ inr (is_listed-mem id allowed (ground arith))
  ]

  judged-IsSigned :
      (cred : Credential) (x : Option C.Certificate)
      → judged cred x ≡ accepted
      → (cert : C.Certificate) × (x ≡ some cert) × IsSigned cred cert
  judged-IsSigned cred none h = cc
  judged-IsSigned cred (some cert) h = (cert, refl, verify_signature-IsSigned cred cert h)

  -- `Verify` accepts a credential only if its key is at Apple's address, its bundle is allowed (or all
  -- are), its time stamp is accepted, and the certificate fetched from that address signs the payload
  -- of its player, bundle, time stamp and salt.
  pub verify-IsSigned :
      (download : String → Option C.Certificate) (cred : Credential) (now : ℤ)
      (v : GameCenterVerifier) (s : R.Seed)
      → (verify download cred now v s).0 ≡ accepted
      → IsPrefix allowed_key_url_prefix cred.public_key_url
        × ((length v.allowed_bundle_ids ≡ 0) ⊎ Mem cred.bundle_id v.allowed_bundle_ids)
        × (validate_timestamp v.timestamp_tolerance now cred.timestamp ≡ true)
        × ((cert : C.Certificate) × ((fetch_certificate download cred.public_key_url now
                v.cert_cache s).0
              ≡ some cert)
            × IsSigned cred cert)
  unfolding verify validate_public_key_url
  verify-IsSigned download cred now v s h =
      elim (Bool-cases (validate_public_key_url cred.public_key_url)) [
        | inr wrong ↦ ground arith
        | inl url ↦ elim (Bool-cases (validate_bundle_id v.allowed_bundle_ids cred.bundle_id)) [
          | inr wrong ↦ ground arith
          | inl bundle ↦
              elim (Bool-cases (validate_timestamp v.timestamp_tolerance now cred.timestamp)) [
                | inr wrong ↦ ground arith
                | inl time ↦ (
                  (starts_with_iff cred.public_key_url allowed_key_url_prefix).0 url,
                  validate_bundle_id-mem v.allowed_bundle_ids cred.bundle_id bundle,
                  time,
                  judged-IsSigned cred
                      (fetch_certificate download cred.public_key_url now v.cert_cache s).0
                      (ground arith),
                )
              ]
        ]
      ]
