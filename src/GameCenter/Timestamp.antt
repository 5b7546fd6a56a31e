-- ===== src/GameCenter/Timestamp.antt =====
-- What `validateTimestamp` of internal/auth/gamecenter.go accepts.
use gyeongdohalsaram_server.Base.{
  ℕ, zero, suc, ◌≤◌, ◌<◌, ◌≡◌, ◌↔◌, ◌⊎◌, true, ℤ, pos, negsuc, pos_part, neg_part, ◌-ℤ◌, arith,
}
use gyeongdohalsaram_server.GameCenter.{
  to_int64, unix_milli, saturate, negate, is_near, validate_timestamp,
}

-- At most so much, before or after.
abbrev pub IsWithin : ℕ → ℤ → Type 0
IsWithin tolerance diff = (pos_part diff ≤ tolerance) × (neg_part diff ≤ tolerance)

is_near_iff :
    (tolerance : ℕ) (diff : ℤ)
    → tolerance < 9_223_372_036_854_775_807
    → (is_near (pos tolerance) (saturate diff) ≡ true)
      ↔ (IsWithin tolerance diff ⊎ (9_223_372_036_854_775_808 ≤ neg_part diff))
unfolding is_near saturate negate
is_near_iff tolerance (pos zero) h = ground arith
is_near_iff tolerance (pos (suc n)) h = ground arith
is_near_iff tolerance (negsuc n) h = ground arith

-- With a tolerance, a time stamp is accepted exactly when it differs from the present by at most the
-- tolerance, or when it is so far ahead that the difference is beyond the least duration, whose
-- negation overflows.
pub validate_timestamp_iff :
    (tolerance : ℕ) (now : ℤ) (timestamp : ℕ)
    → 0 < tolerance
    → tolerance < 9_223_372_036_854_775_807
    → (validate_timestamp (pos tolerance) now timestamp ≡ true) ↔ (
        IsWithin tolerance (now -ℤ unix_milli (to_int64 timestamp))
        ⊎ (9_223_372_036_854_775_808 ≤ neg_part (now -ℤ unix_milli (to_int64 timestamp))))
unfolding validate_timestamp
validate_timestamp_iff zero now timestamp h k = absurd (omega arith)
validate_timestamp_iff (suc n) now timestamp h k =
    is_near_iff (suc n) (now -ℤ unix_milli (to_int64 timestamp)) k
