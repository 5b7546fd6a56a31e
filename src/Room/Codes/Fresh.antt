-- ===== src/Room/Codes/Fresh.antt =====
-- What `GenerateCode` of internal/room/room_code.go gives: its form, and that it is not in use.
use mathlib.Core.List.{Mem, mem-cons_self, mem-cons_of_mem}
use gyeongdohalsaram_server.Base.{
  ℕ, zero, suc, ◌<◌, length, ◌≡◌, refl, ◌⊎◌, inl, inr, true, false, Bool-cases, String, ◌<>◌, List,
  [], ◌∷◌, arith,
}
use gyeongdohalsaram_server.Runtime.{Runtime}
use gyeongdohalsaram_server.Room.Codes.{
  letters, letter_at, contains_code, draw_letters, random_code, code_loop, generate_code,
}

letter_at-mem : (cs : List String) (i : ℕ) → i < length cs → Mem (letter_at cs i) cs
unfolding letter_at
letter_at-mem [] i h = absurd (omega arith)
letter_at-mem (c ∷ cs) zero h = mem-cons_self
letter_at-mem (c ∷ cs) (suc i) h = mem-cons_of_mem c (letter_at-mem cs i (omega arith))

-- A text of so many capital letters.
abbrev pub IsCode : ℕ → String → Type 0
IsCode zero t = t ≡ ""
IsCode (suc n) t = (c : String) × (rest : String) × Mem c letters × IsCode n rest × (t ≡ c <> rest)

module _ ⦃R : Runtime⦄ where
  draw_letters-IsCode : (n : ℕ) (s : R.Seed) → IsCode n (draw_letters n s).0
  unfolding draw_letters
  draw_letters-IsCode zero s = refl
  draw_letters-IsCode (suc n) s =
      let (i, s₁) = R.rand_intn 26 s in
      (
        letter_at letters i,
        (draw_letters n s₁).0,
        letter_at-mem letters i (R.rand_intn_lt 26 s (omega arith)),
        draw_letters-IsCode n s₁,
        refl,
      )

  random_code-IsCode : (s : R.Seed) → IsCode 4 (random_code s).0
  unfolding random_code
  random_code-IsCode s = draw_letters-IsCode 4 s

  code_loop-IsCode :
      (n : ℕ) (existing : List String) (s : R.Seed) → IsCode 4 (code_loop n existing s).0
  unfolding code_loop
  code_loop-IsCode zero existing s = random_code-IsCode s
  code_loop-IsCode (suc n) existing s =
      elim (Bool-cases (contains_code (random_code s).0 existing)) [
        | inl taken ↦ rw (taken, code_loop) (code_loop-IsCode n existing (random_code s).1)
        | inr new ↦ rw (new, code_loop) (random_code-IsCode s)
      ]

  -- The state of the random source after so many codes.
  abbrev seed_after : ℕ → R.Seed → R.Seed
  seed_after zero s = s
  seed_after (suc n) s = seed_after n (random_code s).1

  -- The first codes that are drawn, so many of them, are all in use.
  abbrev pub AllTaken : ℕ → List String → R.Seed → Type 0
  AllTaken n existing s =
      (i : ℕ) → i < n → contains_code (random_code (seed_after i s)).0 existing ≡ true

  more_taken :
      (n : ℕ) (existing : List String) (s : R.Seed)
      → contains_code (random_code s).0 existing ≡ true
      → AllTaken n existing (random_code s).1
      → AllTaken (suc n) existing s
  more_taken n existing s taken h zero lt = taken
  more_taken n existing s taken h (suc i) lt = h i (omega arith)

  code_loop-IsFresh :
      (n : ℕ) (existing : List String) (s : R.Seed)
      → (contains_code (code_loop n existing s).0 existing ≡ false) ⊎ AllTaken n existing s
  unfolding code_loop
  code_loop-IsFresh zero existing s = inr (λ i lt. absurd (omega arith))
  code_loop-IsFresh (suc n) existing s =
      elim (Bool-cases (contains_code (random_code s).0 existing)) [
        | inl taken ↦ elim (code_loop-IsFresh n existing (random_code s).1) [
          | inl fresh ↦ inl (rw (taken, code_loop) fresh)
          | inr all ↦ inr (more_taken n existing s taken all)
        ]
        | inr new ↦ inl (rw (new, code_loop) new)
      ]

  -- `GenerateCode` gives four capital letters, and a code that is not in use unless each of the first
  -- hundred codes it draws is.
  pub generate_code-IsFresh :
      (existing : List String) (s : R.Seed)
      → IsCode 4 (generate_code existing s).0
        × ((contains_code (generate_code existing s).0 existing ≡ false) ⊎ AllTaken 100 existing s)
  unfolding generate_code
  generate_code-IsFresh existing s =
      (code_loop-IsCode 100 existing s, code_loop-IsFresh 100 existing s)
