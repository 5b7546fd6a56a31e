-- ===== src/Base/Perms.antt =====
-- What a permutation of a list leaves alone.
use native.Mathlib.Nat.{ℕ_set}
use native.Mathlib.Omega.{arith}
use mathlib.Core.Path.{◌≡◌, refl, ◌∙◌}
use mathlib.Core.Logic.{∥∥₁_elim}
use mathlib.Core.Bool.{Bool}
use mathlib.Core.List.{
  List, [], ◌∷◌, Perm, Permᴰ, Mem, not-mem-nil, mem-cons_self, mem-cons_of_mem, forall_mem-cons,
}
use mathlib.Core.List.Perm
use gyeongdohalsaram_server.Base.Lists.{length, count_if, All}

module _ {ℓ} {A : Type ℓ} where
  count_if-Permᴰ :
      (test : A → Bool) {xs ys : List A} → Permᴰ xs ys → count_if test xs ≡ count_if test ys
  count_if-Permᴰ test Permᴰ.nil = refl
  count_if-Permᴰ test (Permᴰ.cons e d) = rw (e, count_if-Permᴰ test d)
  count_if-Permᴰ test (Permᴰ.swap e f) = rw (e, f) (omega arith)
  count_if-Permᴰ test (Permᴰ.trans d e) = count_if-Permᴰ test d ∙ count_if-Permᴰ test e

  pub count_if-perm :
      (test : A → Bool) {xs ys : List A} → Perm xs ys → count_if test xs ≡ count_if test ys
  count_if-perm test h = ∥∥₁_elim h (ℕ_set _ _) (count_if-Permᴰ test)

  length-Permᴰ : {xs ys : List A} → Permᴰ xs ys → length xs ≡ length ys
  length-Permᴰ Permᴰ.nil = refl
  length-Permᴰ (Permᴰ.cons e d) = rw (length-Permᴰ d)
  length-Permᴰ (Permᴰ.swap e f) = refl
  length-Permᴰ (Permᴰ.trans d e) = length-Permᴰ d ∙ length-Permᴰ e

  pub length-perm : {xs ys : List A} → Perm xs ys → length xs ≡ length ys
  length-perm h = ∥∥₁_elim h (ℕ_set _ _) length-Permᴰ

module _ {A : Type 0} where
  All-mem :
      (P : A → Type 0)
      → ((a : A) → IsProp (P a))
      → (xs : List A) → All P xs
      → (a : A) → Mem a xs
      → P a
  All-mem P prop [] h a m = absurd (not-mem-nil m)
  All-mem P prop (x ∷ xs) h a m = (forall_mem-cons prop).1 (h.0, All-mem P prop xs h.1) a m

  pub mem-All : (P : A → Type 0) (xs : List A) → ((a : A) → Mem a xs → P a) → All P xs
  mem-All P [] h = tt
  mem-All P (x ∷ xs) h = (h x mem-cons_self, mem-All P xs (λ a m. h a (mem-cons_of_mem x m)))

  pub All-perm :
      (P : A → Type 0)
      → ((a : A) → IsProp (P a))
      → (xs ys : List A) → Perm ys xs
      → All P xs
      → All P ys
  All-perm P prop xs ys p h = mem-All P ys (λ a m. All-mem P prop xs h a ((Perm.mem_iff p).0 m))
