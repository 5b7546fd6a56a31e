-- ===== src/Tests/Exact.antt =====
-- A runtime: its numbers are the fractions from 0 up, which hold 0.05 and 1.5 exactly.
use native.Mathlib.Nat.{mod-lt}
use mathlib.Core.Option
use mathlib.Core.Option.{some}
use gyeongdohalsaram_server.Room.Players.{lookup}
use mathlib.Core.List.{reverse, reverse_perm}
use gyeongdohalsaram_server.Base.{
  ℕ, zero, suc, ◌+◌, ◌-◌, ◌*◌, ◌%◌, ◌^◌, ◌≤◌, ◌≡◌, refl, Bool, true, false, String, List, arith,
  pos, negsuc, ltb, leb, if◌then◌else◌,
}
use gyeongdohalsaram_server.Runtime.{Runtime}

-- A numerator and a denominator.
abbrev pub Fraction : Type 0
Fraction = ℕ × ℕ

abbrev pub lt_fraction : Fraction → Fraction → Bool
lt_fraction a b = ltb (a.0 * b.1) (b.0 * a.1)

abbrev pub le_fraction : Fraction → Fraction → Bool
le_fraction a b = leb (a.0 * b.1) (b.0 * a.1)

-- The root of a number below 2 ^ (2 * k), from its highest binary digit down.
pub root : ℕ → ℕ → ℕ → ℕ
root zero n r = r
root (suc k) n r = root k n (if leb ((r + 2 ^ k) * (r + 2 ^ k)) n then r + 2 ^ k else r)

pub next : ℕ → ℕ
next s = (s * 1103515245 + 12345) % 2147483648

pub name : ℕ → String
name s =
    if ltb (s % 4) 1
    then "ann"
    else if ltb (s % 4) 2
    then "bob"
    else if ltb (s % 4) 3
    then "cat"
    else "dan"

pub le_of_not_lt_fraction : (a b : Fraction) → lt_fraction a b ≡ false → le_fraction b a ≡ true
le_of_not_lt_fraction a b h = ground arith

pub le_fraction_of_le : (a b c d : ℕ) → a * d ≤ c * b → le_fraction (a, b) (c, d) ≡ true
le_fraction_of_le a b c d h = ground arith

instance abbrev pub exact : Runtime
exact = record {
  Float = Fraction;
  lit = λ a b. (a, b);
  add = λ a b. (a.0 * b.1 + b.0 * a.1, a.1 * b.1);
  sub = λ a b. ((a.0 * b.1 - b.0 * a.1) + (b.0 * a.1 - a.0 * b.1), a.1 * b.1);
  mul = λ a b. (a.0 * b.0, a.1 * b.1);
  sqrt = λ a. (root 64 (a.0 * a.1) 0, a.1);
  lt = lt_fraction;
  le = le_fraction;
  is_nan = λ _. false;
  seconds = elim [ pos n ↦ (n, 1_000_000_000) | negsuc n ↦ (0, 1) ];
  le_of_not_lt = λ a b _ _ h. le_of_not_lt_fraction a b h;
  lit_finite = λ a b _. refl;
  lit_mono = λ a b c d _ _ h. le_fraction_of_le a b c d h;
  Seed = ℕ;
  rand_float = λ s. ((s % 1000, 1000), next s);
  rand_intn = λ n s. (s % n, next s);
  rand_intn_lt = λ n s h. mod-lt s h;
  range_order = λ s xs. (reverse xs, next s);
  range_order_perm = λ s xs. reverse_perm xs;
  new_uuid = λ s. (name s, next s);
  Raw = List (String × String);
  envelope = λ raw. Option.map (λ t. (t, raw)) (lookup "type" raw);
  text_fields = λ names raw. some (λ n. Option.get_or (lookup n raw) "");
  number_fields = λ names raw. some (λ n. (0, 1));
  timestamp_field = λ raw. 0;
}
