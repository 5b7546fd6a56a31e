-- ===== src/Config/Number.antt =====
-- Numbers in the environment are read as they are written in decimal.
use Prim.Native.Char.{Char, code}
use Prim.Native.String.append
use gyeongdohalsaram_server.Base.{
  ℕ, zero, suc, ◌+◌, ◌-◌, ◌*◌, ◌/◌, ◌%◌, ◌<◌, ◌≡◌, refl, subst, inl, inr, false, Bool-cases, Option,
  none, some, String, ◌<>◌, [], ◌∷◌, ℤ, pos, negsuc, arith, ltb, eqb,
}
use gyeongdohalsaram_server.Room.Codes.{letter_at}
use gyeongdohalsaram_server.Handler.Connections.{decimal_loop, decimal}
use gyeongdohalsaram_server.Config.{
  is_digit, is_empty, read_digits, read_number, signed_int, atoi, word, seconds_duration,
}
use gyeongdohalsaram_server.GameCenter.{to_int64}

abbrev then_digits : Option ℕ → String → Option ℕ
then_digits none s = none
then_digits (some n) s = read_digits n s

read_digits-append :
    (n : ℕ) (s t : String) → read_digits n (s <> t) ≡ then_digits (read_digits n s) t
unfolding read_digits
read_digits-append n String.[] t = rw (append.nil t) refl
read_digits-append n (String.◌∷◌ c s) t =
    rw (append.cons c s t) (elim (Bool-cases (is_digit (code c))) [
      | inl digit ↦ rw digit (read_digits-append (10 * n + (code c - 48)) s t)
      | inr other ↦ rw other refl
    ])

abbrev last_digit : ℕ → String
last_digit n = letter_at ("0" ∷ "1" ∷ "2" ∷ "3" ∷ "4" ∷ "5" ∷ "6" ∷ "7" ∷ "8" ∷ "9" ∷ []) n

read-last_digit : (n d : ℕ) → d < 10 → read_digits n (last_digit d) ≡ some (10 * n + d)
unfolding letter_at read_digits
read-last_digit n zero b = refl
read-last_digit n (suc zero) b = refl
read-last_digit n (suc (suc zero)) b = refl
read-last_digit n (suc (suc (suc zero))) b = refl
read-last_digit n (suc (suc (suc (suc zero)))) b = refl
read-last_digit n (suc (suc (suc (suc (suc zero))))) b = refl
read-last_digit n (suc (suc (suc (suc (suc (suc zero)))))) b = refl
read-last_digit n (suc (suc (suc (suc (suc (suc (suc zero))))))) b = refl
read-last_digit n (suc (suc (suc (suc (suc (suc (suc (suc zero)))))))) b = refl
read-last_digit n (suc (suc (suc (suc (suc (suc (suc (suc (suc zero))))))))) b = refl
read-last_digit n (suc (suc (suc (suc (suc (suc (suc (suc (suc (suc d)))))))))) b =
    absurd (omega (arith, b))

read-decimal_loop : (fuel n : ℕ) → n < fuel → read_digits 0 (decimal_loop fuel n) ≡ some n
unfolding decimal_loop
read-decimal_loop zero n b = absurd (omega (arith, b))
read-decimal_loop (suc fuel) n b = elim (Bool-cases (ltb n 10)) [
  | inl small ↦
      let same : 10 * 0 + n % 10 ≡ n = ground arith in
      rw small (
        subst (λ x. read_digits 0 (last_digit (n % 10)) ≡ some x) same
          (read-last_digit 0 (n % 10) (omega arith)))
  | inr big ↦
      let less : n / 10 < fuel = ground arith in
      let same : 10 * (n / 10) + n % 10 ≡ n = omega arith in
      rw
        (
          big,
          read_digits-append 0 (decimal_loop fuel (n / 10)) (last_digit (n % 10)),
          read-decimal_loop fuel (n / 10) less,
        )
        (subst (λ x. read_digits (n / 10) (last_digit (n % 10)) ≡ some x) same
          (read-last_digit (n / 10) (n % 10) (omega arith)))
]

is_empty-append : (s t : String) → is_empty t ≡ false → is_empty (s <> t) ≡ false
is_empty-append String.[] t e = rw (append.nil t) e
is_empty-append (String.◌∷◌ c s) t e = rw (append.cons c s t) refl

is_empty-last_digit : (d : ℕ) → d < 10 → is_empty (last_digit d) ≡ false
unfolding letter_at
is_empty-last_digit zero b = refl
is_empty-last_digit (suc zero) b = refl
is_empty-last_digit (suc (suc zero)) b = refl
is_empty-last_digit (suc (suc (suc zero))) b = refl
is_empty-last_digit (suc (suc (suc (suc zero)))) b = refl
is_empty-last_digit (suc (suc (suc (suc (suc zero))))) b = refl
is_empty-last_digit (suc (suc (suc (suc (suc (suc zero)))))) b = refl
is_empty-last_digit (suc (suc (suc (suc (suc (suc (suc zero))))))) b = refl
is_empty-last_digit (suc (suc (suc (suc (suc (suc (suc (suc zero)))))))) b = refl
is_empty-last_digit (suc (suc (suc (suc (suc (suc (suc (suc (suc zero))))))))) b = refl
is_empty-last_digit (suc (suc (suc (suc (suc (suc (suc (suc (suc (suc d)))))))))) b =
    absurd (omega (arith, b))

is_empty-decimal : (n : ℕ) → is_empty (decimal n) ≡ false
unfolding decimal decimal_loop
is_empty-decimal n = elim (Bool-cases (ltb n 10)) [
  | inl small ↦ rw small (is_empty-last_digit (n % 10) (omega arith))
  | inr big ↦ rw big (
      is_empty-append (decimal_loop n (n / 10)) (last_digit (n % 10))
        (is_empty-last_digit (n % 10) (omega arith)))
]

read-decimal : (n : ℕ) → read_digits 0 (decimal n) ≡ some n
unfolding decimal
read-decimal n = read-decimal_loop (suc n) n (omega arith)

read_number-digits : (s : String) → is_empty s ≡ false → read_number s ≡ read_digits 0 s
unfolding read_number
read_number-digits String.[] e = cc
read_number-digits (String.◌∷◌ c s) e = refl

-- A text that is read as a number has no sign.
not_digit :
    (c : Char) (s : String) (n : ℕ)
    → is_digit (code c) ≡ false
    → read_digits 0 (String.◌∷◌ c s) ≡ some n
    → ⊥
unfolding read_digits
not_digit c s n other r = ground arith

atoi-digits :
    (s : String) (n : ℕ)
    → is_empty s ≡ false
    → read_digits 0 s ≡ some n
    → atoi s ≡ signed_int false (some n)
unfolding atoi read_number
atoi-digits String.[] n e r = cc
atoi-digits (String.◌∷◌ c s) n e r = elim (Bool-cases (is_digit (code c))) [
  | inl digit ↦
      let plain : eqb (code c) 45 ≡ false = ground arith in
      let plain' : eqb (code c) 43 ≡ false = ground arith in rw (plain, plain', r) refl
  | inr other ↦ absurd (not_digit c s n other r)
]

-- An int in decimal.
abbrev pub format_int : ℤ → String
format_int (pos n) = decimal n
format_int (negsuc n) = String.◌∷◌ "-" (decimal (suc n))

abbrev pub IsInt64 : ℤ → Type 0
IsInt64 (pos n) = n < 9_223_372_036_854_775_808
IsInt64 (negsuc n) = n < 9_223_372_036_854_775_808

pub atoi-format_int : (i : ℤ) → IsInt64 i → atoi (format_int i) ≡ some i
unfolding atoi signed_int
atoi-format_int (pos n) b =
    rw (atoi-digits (decimal n) n (is_empty-decimal n) (read-decimal n)) (ground arith)
atoi-format_int (negsuc n) b =
    rw (read_number-digits (decimal (suc n)) (is_empty-decimal (suc n)), read-decimal (suc n))
      (ground arith)

-- A number of seconds, in nanoseconds.
abbrev pub in_nanoseconds : ℤ → ℤ
in_nanoseconds (pos n) = pos (n * 1_000_000_000)
in_nanoseconds (negsuc n) = negsuc (suc n * 1_000_000_000 - 1)

-- At most 292 years.
abbrev pub IsDuration : ℤ → Type 0
IsDuration (pos n) = n < 9_223_372_037
IsDuration (negsuc n) = n < 9_223_372_036

pub seconds_duration-exact : (i : ℤ) → IsDuration i → seconds_duration i ≡ in_nanoseconds i
unfolding seconds_duration word to_int64
seconds_duration-exact (pos n) b = ground arith
seconds_duration-exact (negsuc n) b = ground arith

pub is_empty-format_int : (i : ℤ) → is_empty (format_int i) ≡ false
is_empty-format_int (pos n) = is_empty-decimal n
is_empty-format_int (negsuc n) = refl

pub duration-IsInt64 : (i : ℤ) → IsDuration i → IsInt64 i
duration-IsInt64 (pos n) b = omega (arith, b)
duration-IsInt64 (negsuc n) b = omega (arith, b)
