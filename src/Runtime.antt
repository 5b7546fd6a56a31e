-- ===== src/Runtime.antt =====
-- What the server takes from Go and its packages: the float64 type, the random source of math/rand,
-- the order in which a map is ranged over, and github.com/google/uuid.
use mathlib.Core.List.{Perm}
use gyeongdohalsaram_server.Base.{ℕ, ◌*◌, ◌≤◌, ◌<◌, ◌≡◌, Bool, true, false, String, List, Option, ℤ}

pub record Runtime : Type 1 where
  -- float64, with the operations that the server uses. `lit a b` is the constant a / b.
  pub Float : Type 0
  pub lit : ℕ → ℕ → Float
  pub add : Float → Float → Float
  pub sub : Float → Float → Float
  pub mul : Float → Float → Float
  pub sqrt : Float → Float
  pub lt : Float → Float → Bool
  pub le : Float → Float → Bool
  pub is_nan : Float → Bool
  -- `Duration.Seconds`
  pub seconds : ℤ → Float
  -- IEEE 754: but for NaN the order is total, and rounding a constant keeps the order.
  pub le_of_not_lt :
      (a b : Float) → is_nan a ≡ false → is_nan b ≡ false → lt a b ≡ false → le b a ≡ true
  pub lit_finite : (a b : ℕ) → 0 < b → is_nan (lit a b) ≡ false
  pub lit_mono : (a b c d : ℕ) → 0 < b → 0 < d → a * d ≤ c * b → le (lit a b) (lit c d) ≡ true
  -- The random source and the orders of map iteration are read off one seed.
  pub Seed : Type 0
  pub rand_float : Seed → Float × Seed
  pub rand_intn : ℕ → Seed → ℕ × Seed
  pub rand_intn_lt : (n : ℕ) (s : Seed) → 0 < n → (rand_intn n s).0 < n
  pub range_order : {A : Type 0} → Seed → List A → List A × Seed
  pub range_order_perm : {A : Type 0} (s : Seed) (xs : List A) → Perm (range_order s xs).0 xs
  pub new_uuid : Seed → String × Seed
  -- The data of a message, as encoding/json reads it: the type and the data of an envelope, the text
  -- fields of a structure that has them under these names (a missing one is the empty text), its
  -- number fields, and a time stamp. `none` is an error.
  pub Raw : Type 0
  pub envelope : Raw → Option (String × Raw)
  pub text_fields : List String → Raw → Option (String → String)
  pub number_fields : List String → Raw → Option (String → Float)
  pub timestamp_field : Raw → ℕ
