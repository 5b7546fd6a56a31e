-- ===== src/Room/Codes.antt =====
-- internal/room/room_code.go.
pub mod Fresh
use gyeongdohalsaram_server.Base.{
  ℕ, zero, suc, Bool, true, false, String, ◌<>◌, List, [], ◌∷◌, ◌==◌, string_eq, if◌then◌else◌,
  ◌||◌,
}
use gyeongdohalsaram_server.Runtime.{Runtime}

abbrev pub letters : List String
letters =
    "A" ∷ "B" ∷ "C" ∷ "D" ∷ "E" ∷ "F" ∷ "G" ∷ "H" ∷ "I" ∷ "J" ∷ "K" ∷ "L" ∷ "M" ∷ "N" ∷ "O" ∷ "P"
    ∷ "Q" ∷ "R" ∷ "S" ∷ "T" ∷ "U" ∷ "V" ∷ "W" ∷ "X" ∷ "Y" ∷ "Z" ∷ []

-- The letter at an index; the empty text stands for an index out of range, a panic that `Intn` rules
-- out.
unfoldable pub letter_at : List String → ℕ → String
letter_at [] i = ""
letter_at (c ∷ cs) zero = c
letter_at (c ∷ cs) (suc i) = letter_at cs i

-- `existing[code]`
unfoldable pub contains_code : String → List String → Bool
contains_code code [] = false
contains_code code (c ∷ cs) = c == code || contains_code code cs

module _ ⦃R : Runtime⦄ where
  -- The loop over the letters still to draw.
  unfoldable pub draw_letters : ℕ → R.Seed → String × R.Seed
  draw_letters zero s = ("", s)
  draw_letters (suc n) s =
      let (i, s₁) = R.rand_intn 26 s in
      let (rest, s₂) = draw_letters n s₁ in (letter_at letters i <> rest, s₂)

  unfoldable pub random_code : R.Seed → String × R.Seed
  random_code s = draw_letters 4 s

  -- The loop over the retries left, with the fallback behind it.
  unfoldable pub code_loop : ℕ → List String → R.Seed → String × R.Seed
  code_loop zero existing s = random_code s
  code_loop (suc n) existing s =
      let (code, s') = random_code s in
      let rest = code_loop n existing s' in if contains_code code existing then rest else (code, s')

  unfoldable pub generate_code : List String → R.Seed → String × R.Seed
  generate_code existing s = code_loop 100 existing s
