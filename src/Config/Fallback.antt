-- ===== src/Config/Fallback.antt =====
-- An int of the environment is what its text spells, or else the fallback.
use Prim.Native.Char.{code}
use text.Mathlib.TextEquality.{Char-path}
use gyeongdohalsaram_server.Base.{
  ℕ, zero, suc, ◌+◌, ◌-◌, ◌*◌, ◌<◌, ◌≡◌, refl, sym, ap, ◌∙◌, subst, ◌⊎◌, inl, inr, Bool, true,
  false, Bool-cases, none, some, Option-cases, String, ℤ, pos, negsuc, arith, ltb, eqb,
}
use gyeongdohalsaram_server.Config.{
  Environment, is_digit, is_empty, read_digits, read_number, signed_int, atoi, get_env_int,
}
use gyeongdohalsaram_server.Config.Number.{IsInt64}

-- Ten to the number of characters.
abbrev pub weight : String → ℕ
weight String.[] = 1
weight (String.◌∷◌ c s) = 10 * weight s

-- The sum of the digits, each by the weight of its place.
abbrev pub place_value : String → ℕ
place_value String.[] = 0
place_value (String.◌∷◌ c s) = (code c - 48) * weight s + place_value s

abbrev pub AllDigits : String → Type 0
AllDigits String.[] = Unit
AllDigits (String.◌∷◌ c s) = (is_digit (code c) ≡ true) × AllDigits s

abbrev pub IsNumeral : String → Type 0
IsNumeral s = (is_empty s ≡ false) × AllDigits s

abbrev pub minus : ℕ → ℤ
minus zero = pos 0
minus (suc n) = negsuc n

-- A numeral, with a sign or without.
abbrev pub Spells : String → ℤ → Type 0
Spells s i =
    (IsNumeral s × (i ≡ pos (place_value s)))
    ⊎ ((t : String) × (s ≡ String.◌∷◌ "+" t) × IsNumeral t × (i ≡ pos (place_value t)))
    ⊎ ((t : String) × (s ≡ String.◌∷◌ "-" t) × IsNumeral t × (i ≡ minus (place_value t)))

shift : (n d w v : ℕ) → (10 * n + d) * w + v ≡ n * (10 * w) + (d * w + v)
shift n d w v = omega arith

read_digits-place_value :
    (n : ℕ) (s : String) → AllDigits s → read_digits n s ≡ some (n * weight s + place_value s)
unfolding read_digits
read_digits-place_value n String.[] h = ground arith
read_digits-place_value n (String.◌∷◌ c s) (e, h) =
    rw
      (
        e,
        read_digits-place_value (10 * n + (code c - 48)) s h,
        shift n (code c - 48) (weight s) (place_value s),
      )
      refl

zero_front : (w v : ℕ) → 0 * w + v ≡ v
zero_front w v = omega arith

read_digits-whole : (s : String) → AllDigits s → read_digits 0 s ≡ some (place_value s)
read_digits-whole s h =
    subst (λ x. read_digits 0 s ≡ some x) (zero_front (weight s) (place_value s))
      (read_digits-place_value 0 s h)

read_digits-AllDigits : (n m : ℕ) (s : String) → read_digits n s ≡ some m → AllDigits s
unfolding read_digits
read_digits-AllDigits n m String.[] e = tt
read_digits-AllDigits n m (String.◌∷◌ c s) e = elim (Bool-cases (is_digit (code c))) [
  | inl digit ↦ (digit, read_digits-AllDigits (10 * n + (code c - 48)) m s (ground arith))
  | inr other ↦ ground arith
]

read_number-IsNumeral :
    (s : String) (m : ℕ) → read_number s ≡ some m → IsNumeral s × (place_value s ≡ m)
unfolding read_number
read_number-IsNumeral String.[] m e = ground arith
read_number-IsNumeral (String.◌∷◌ c s) m e =
    let digits = read_digits-AllDigits 0 m (String.◌∷◌ c s) e in
    let value : some (place_value (String.◌∷◌ c s)) ≡ some m =
      sym (read_digits-whole (String.◌∷◌ c s) digits) ∙ e in
    ((refl, digits), cc value)

IsNumeral-read_number : (s : String) → IsNumeral s → read_number s ≡ some (place_value s)
unfolding read_number
IsNumeral-read_number String.[] h = cc h.0
IsNumeral-read_number (String.◌∷◌ c s) h = read_digits-whole (String.◌∷◌ c s) h.1

abbrev signed : Bool → ℕ → ℤ
signed true n = minus n
signed false n = pos n

signed_int-signed :
    (negative : Bool) (n : ℕ)
    → IsInt64 (signed negative n)
    → signed_int negative (some n) ≡ some (signed negative n)
unfolding signed_int
signed_int-signed true zero b = refl
signed_int-signed true (suc n) b = ground arith
signed_int-signed false n b = ground arith

signed_int-IsInt64 :
    (negative : Bool) (n : ℕ) (i : ℤ)
    → signed_int negative (some n) ≡ some i
    → IsInt64 i × (i ≡ signed negative n)
unfolding signed_int
signed_int-IsInt64 true zero i e =
    let same : pos 0 ≡ i = cc e in (subst IsInt64 same (omega arith), sym same)
signed_int-IsInt64 true (suc n) i e = elim (Bool-cases (ltb n 9_223_372_036_854_775_808)) [
  | inl fits ↦
      let same : negsuc n ≡ i = ground arith in
      let b : n < 9_223_372_036_854_775_808 = ground arith in (subst IsInt64 same b, sym same)
  | inr beyond ↦ ground arith
]
signed_int-IsInt64 false n i e = elim (Bool-cases (ltb n 9_223_372_036_854_775_808)) [
  | inl fits ↦
      let same : pos n ≡ i = ground arith in
      let b : n < 9_223_372_036_854_775_808 = ground arith in (subst IsInt64 same b, sym same)
  | inr beyond ↦ ground arith
]

signed_int-none : (negative : Bool) (i : ℤ) → signed_int negative none ≡ some i → ⊥
unfolding signed_int
signed_int-none true i e = cc e
signed_int-none false i e = cc e

-- A number with its sign, read.
signed-IsNumeral :
    (negative : Bool) (s : String) (i : ℤ)
    → signed_int negative (read_number s) ≡ some i
    → IsInt64 i × IsNumeral s × (i ≡ signed negative (place_value s))
signed-IsNumeral negative s i e = elim (Option-cases (read_number s)) [
  | inl bad ↦ absurd (signed_int-none negative i (rw bad at e))
  | inr (n, good) ↦
      let (fits, same) = signed_int-IsInt64 negative n i (rw good at e) in
      let (numeral, value) = read_number-IsNumeral s n good in (fits, numeral, rw value same)
]

IsNumeral-signed :
    (negative : Bool) (s : String) (i : ℤ)
    → IsInt64 i
    → IsNumeral s
    → i ≡ signed negative (place_value s)
    → signed_int negative (read_number s) ≡ some i
IsNumeral-signed negative s i b h same =
    rw (IsNumeral-read_number s h, same)
      (signed_int-signed negative (place_value s) (subst IsInt64 same b))

pub atoi-Spells : (s : String) (i : ℤ) → atoi s ≡ some i → IsInt64 i × Spells s i
unfolding atoi
atoi-Spells String.[] i e = cc e
atoi-Spells (String.◌∷◌ c s) i e = elim (Bool-cases (eqb (code c) 45)) [
  | inl dash ↦
      let (b, numeral, same) = signed-IsNumeral true s i (ground arith) in
      let first : c ≡ "-" = Char-path c "-" (ground arith) in
      (b, inr (inr (s, ap (λ x. String.◌∷◌ x s) first, numeral, same)))
  | inr not_dash ↦ elim (Bool-cases (eqb (code c) 43)) [
    | inl cross ↦
        let (b, numeral, same) = signed-IsNumeral false s i (ground arith) in
        let first : c ≡ "+" = Char-path c "+" (ground arith) in
        (b, inr (inl (s, ap (λ x. String.◌∷◌ x s) first, numeral, same)))
    | inr not_cross ↦
        let (b, numeral, same) = signed-IsNumeral false (String.◌∷◌ c s) i (ground arith) in
        (b, inl (numeral, same))
  ]
]

pub Spells-atoi : (s : String) (i : ℤ) → IsInt64 i → Spells s i → atoi s ≡ some i
unfolding atoi
Spells-atoi String.[] i b (inl (h, same)) = cc h.0
Spells-atoi (String.◌∷◌ c s) i b (inl (h, same)) =
    let not_dash : eqb (code c) 45 ≡ false = ground arith in
    let not_cross : eqb (code c) 43 ≡ false = ground arith in
    rw (not_dash, not_cross) (IsNumeral-signed false (String.◌∷◌ c s) i b h same)
Spells-atoi s i b (inr (inl (t, form, h, same))) = rw form (IsNumeral-signed false t i b h same)
Spells-atoi s i b (inr (inr (t, form, h, same))) = rw form (IsNumeral-signed true t i b h same)

atoi-set : (s : String) (i : ℤ) → atoi s ≡ some i → is_empty s ≡ false
unfolding atoi
atoi-set String.[] i e = cc e
atoi-set (String.◌∷◌ c s) i e = refl

-- An int of the environment is the int of 64 bits that its text spells in decimal, with or without a
-- sign, if it spells one; of any other text, and of a variable that is not set, it is the fallback.
pub get_env_int-Spells :
    (key : String) (fallback : ℤ) (env : Environment)
    → ((i : ℤ) × IsInt64 i × Spells (env key) i × (get_env_int key fallback env ≡ i))
      ⊎ (((i : ℤ) → IsInt64 i → Spells (env key) i → ⊥) × (get_env_int key fallback env ≡ fallback))
unfolding get_env_int
get_env_int-Spells key fallback env = elim (Option-cases (atoi (env key))) [
  | inl bad ↦ inr (
    λ i b h. cc (bad, Spells-atoi (env key) i b h),
    elim (Bool-cases (is_empty (env key))) [
      | inl unset ↦ rw unset refl
      | inr set ↦ rw (set, bad) refl
    ],
  )
  | inr (i, good) ↦
      let (b, h) = atoi-Spells (env key) i good in
      inl (i, b, h, rw (atoi-set (env key) i good, good) refl)
]
