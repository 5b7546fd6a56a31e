-- ===== src/GameCenter/Cache.antt =====
-- The cache of certificates of internal/auth/gamecenter.go.
use mathlib.Core.List.{Mem, Perm, mem-cons, mem-cons_self, not-mem-nil}
use mathlib.Core.Logic.Or
use native.Mathlib.Bridge.{le_prop}
use mathlib.Core.List.Perm
use gyeongdohalsaram_server.Base.{
  suc, ◌≤◌, ◌<◌, ◌≡◌, refl, sym, ap, ◌⊎◌, inl, inr, Bool-cases, Option, none, some, Option-cases,
  String, List, [], ◌∷◌, ℤ, ◌+ℤ◌, leb, length, length-perm, arith, string_eq,
}
use gyeongdohalsaram_server.Runtime.{Runtime}
use gyeongdohalsaram_server.Room.Players.{lookup, insert, erase}
use gyeongdohalsaram_server.Room.Players.Lookup.{lookup-insert_self}
use gyeongdohalsaram_server.GameCenter.{
  Crypto, CachedCert, max_cert_cache_size, cert_cache_ttl, drop_expired, drop_first, evict_expired,
  store_certificate, cached, fetch_certificate,
}

module _ {V : Type 0} where
  length-insert :
      (k : String) (v : V) (m : List (String × V)) → length (insert k v m) ≤ suc (length m)
  unfolding insert
  length-insert k v [] = omega arith
  length-insert k v ((j, w) ∷ m) = elim (string_eq.dec j k) [
    | yes e ↦ ground arith
    | no n ↦ ground (arith, length-insert k v m)
  ]

  length-erase : (k : String) (m : List (String × V)) → length (erase k m) ≤ length m
  unfolding erase
  length-erase k [] = omega arith
  length-erase k ((j, w) ∷ m) = elim (string_eq.dec j k) [
    | yes e ↦ ground (arith, length-erase k m)
    | no n ↦ ground (arith, length-erase k m)
  ]

  length-erase_mem :
      (e : String × V) (m : List (String × V)) → Mem e m → length (erase e.0 m) < length m
  unfolding erase
  length-erase_mem e [] h = absurd (not-mem-nil h)
  length-erase_mem e ((j, w) ∷ m) h = elim (string_eq.dec j e.0) [
    | yes same ↦ ground (arith, length-erase e.0 m)
    | no other ↦ ground (
      arith,
      Or.elim le_prop (mem-cons.0 h) (λ p. absurd (other (sym (ap (λ x. x.0) p))))
          (λ rest. length-erase_mem e m rest),
    )
  ]

module _ ⦃C : Crypto⦄ where
  length-drop_expired :
      (now : ℤ) (cache : List (String × CachedCert))
      → length (drop_expired now cache) ≤ length cache
  unfolding drop_expired
  length-drop_expired now [] = omega arith
  length-drop_expired now ((url, c) ∷ cs) = ground (arith, length-drop_expired now cs)

module _ ⦃R : Runtime⦄ ⦃C : Crypto⦄ where
  length-drop_first :
      (listed cache : List (String × CachedCert))
      → Perm listed cache
      → 0 < length cache
      → length (drop_first listed cache) < length cache
  unfolding drop_first
  length-drop_first [] cache p h = absurd (omega (arith, length-perm p))
  length-drop_first (e ∷ cs) cache p h = length-erase_mem e cache ((Perm.mem_iff p).0 mem-cons_self)

  evict_expired-room :
      (now : ℤ) (cache : List (String × CachedCert)) (s : R.Seed)
      → length cache ≤ max_cert_cache_size
      → length (evict_expired now cache s).0 < max_cert_cache_size
  unfolding evict_expired
  evict_expired-room now cache s h =
      let left = drop_expired now cache in
      elim (Bool-cases (leb max_cert_cache_size (length left))) [
        | inl full ↦ rw full (
            omega (
              arith,
              length-drop_expired now cache,
              length-drop_first (R.range_order s left).0 left (R.range_order_perm s left)
                  (ground arith),
            ))
        | inr room ↦ rw room (ground arith)
      ]

  store_certificate-room :
      (url : String) (cert : C.Certificate) (now : ℤ) (cache : List (String × CachedCert))
      (s : R.Seed)
      → length cache ≤ max_cert_cache_size
      → length (store_certificate url cert now cache s).0 ≤ max_cert_cache_size
  unfolding store_certificate
  store_certificate-room url cert now cache s h =
      elim (Bool-cases (leb max_cert_cache_size (length cache))) [
        | inl full ↦ rw full (
            omega (
              arith,
              length-insert url (record { cert = cert; expires_at = now +ℤ cert_cache_ttl })
                  (evict_expired now cache s).0,
              evict_expired-room now cache s h,
            ))
        | inr room ↦ rw room (
            ground (
              arith,
              length-insert url (record { cert = cert; expires_at = now +ℤ cert_cache_ttl }) cache,
            ))
      ]

  store_certificate-lookup :
      (url : String) (cert : C.Certificate) (now : ℤ) (cache : List (String × CachedCert))
      (s : R.Seed)
      → lookup url (store_certificate url cert now cache s).0
        ≡ some (record { cert = cert; expires_at = now +ℤ cert_cache_ttl })
  unfolding store_certificate
  store_certificate-lookup url cert now cache s = lookup-insert_self url _ _

  -- The certificate comes from an entry that has not expired, and the cache is as before; or there is
  -- no such entry, and the network's answer is kept for a day.
  abbrev pub Fetches :
      (String → Option C.Certificate)
      → String
      → ℤ
      → List (String × CachedCert)
      → Option C.Certificate
      → List (String × CachedCert)
      → Type 0
  Fetches download url now cache none cache' =
      (cached url now cache ≡ none) × (download url ≡ none) × (cache' ≡ cache)
  Fetches download url now cache (some cert) cache' =
      ((cached url now cache ≡ some cert) × (cache' ≡ cache))
      ⊎ ((cached url now cache ≡ none)
          × (download url ≡ some cert)
          × (lookup url cache' ≡ some (record { cert = cert; expires_at = now +ℤ cert_cache_ttl })))

  -- `fetchCertificate` keeps the cache at 100 entries or fewer, and gives an unexpired entry of it or
  -- else what the network gives.
  pub fetch_certificate-Fetches :
      (download : String → Option C.Certificate) (url : String) (now : ℤ)
      (cache : List (String × CachedCert)) (s : R.Seed)
      → length cache ≤ max_cert_cache_size
      → (length (fetch_certificate download url now cache s).1 ≤ max_cert_cache_size)
        × Fetches download url now cache
            (fetch_certificate download url now cache s).0
            (fetch_certificate download url now cache s).1
  unfolding fetch_certificate
  fetch_certificate-Fetches download url now cache s h =
      elim (Option-cases (cached url now cache)) [
        | inl e ↦ elim (Option-cases (download url)) [
          | inl gone ↦ rw (e, gone, fetch_certificate) (h, (e, gone, refl))
          | inr (cert, got) ↦
              rw (e, got, fetch_certificate)
                (
                  store_certificate-room url cert now cache s h,
                  inr (e, got, store_certificate-lookup url cert now cache s),
                )
        ]
        | inr (cert, e) ↦ rw (e, fetch_certificate) (h, inl (e, refl))
      ]
