-- ===== src/Base/Lists.antt =====
-- Lists measured by native numbers, and predicates on all or on one of their items.
use Prim.Native.Nat.{ℕ, zero, suc, ◌+◌}
use mathlib.Core.Path.{◌≡◌, refl, ap}
use mathlib.Core.Logic.{◌⊎◌}
use mathlib.Core.Bool.{Bool}
use mathlib.Core.List.{List, [], ◌∷◌, ◌++◌, map}
use native.Mathlib.Omega.{arith}
use gyeongdohalsaram_server.Base.Tests.{if◌then◌else◌}

module _ {ℓ} {A : Type ℓ} where
  abbrev pub length : List A → ℕ
  length [] = 0
  length (x ∷ xs) = suc (length xs)

  -- How many items pass the test.
  abbrev pub count_if : (A → Bool) → List A → ℕ
  count_if p [] = 0
  count_if p (x ∷ xs) = (if p x then 1 else 0) + count_if p xs

  abbrev pub All {κ} : (A → Type κ) → List A → Type κ
  All P [] = Unit
  All P (x ∷ xs) = P x × All P xs

  abbrev pub Any : (A → Type 0) → List A → Type 0
  Any P [] = ⊥
  Any P (x ∷ xs) = P x ⊎ Any P xs

  -- The relation holds of the items at each place of two lists of one length.
  abbrev pub Zip : (A → A → Type 0) → List A → List A → Type 0
  Zip P [] [] = Unit
  Zip P (x ∷ xs) (y ∷ ys) = P x y × Zip P xs ys
  Zip P _ _ = ⊥

  abbrev pub replicate : ℕ → A → List A
  replicate zero a = []
  replicate (suc n) a = a ∷ replicate n a

  pub length-replicate : (n : ℕ) (a : A) → length (replicate n a) ≡ n
  length-replicate zero a = refl
  length-replicate (suc n) a = ap suc (length-replicate n a)

  pub length-append : (xs ys : List A) → length (xs ++ ys) ≡ length xs + length ys
  length-append [] ys = omega arith
  length-append (x ∷ xs) ys = omega (arith, length-append xs ys)

  All-append {κ} : (P : A → Type κ) (xs ys : List A) → All P xs → All P ys → All P (xs ++ ys)
  All-append P [] ys hx hy = hy
  All-append P (x ∷ xs) ys hx hy = (hx.0, All-append P xs ys hx.1 hy)

  pub Zip-refl : (P : A → A → Type 0) → ((x : A) → P x x) → (xs : List A) → Zip P xs xs
  Zip-refl P h [] = tt
  Zip-refl P h (x ∷ xs) = (h x, Zip-refl P h xs)

  pub Zip-map :
      (P : A → A → Type 0) (f : A → A) → ((x : A) → P x (f x)) → (xs : List A) → Zip P xs (map f xs)
  Zip-map P f h [] = tt
  Zip-map P f h (x ∷ xs) = (h x, Zip-map P f h xs)

  pub Zip-mono :
      (P Q : A → A → Type 0)
      → ((x y : A) → P x y → Q x y)
      → (xs ys : List A) → Zip P xs ys
      → Zip Q xs ys
  Zip-mono P Q h [] [] z = tt
  Zip-mono P Q h (x ∷ xs) (y ∷ ys) z = (h x y z.0, Zip-mono P Q h xs ys z.1)
  Zip-mono P Q h [] (_ ∷ _) z = absurd z
  Zip-mono P Q h (_ ∷ _) [] z = absurd z

  pub Zip-trans :
      (P Q S : A → A → Type 0)
      → ((x y z : A) → P x y → Q y z → S x z)
      → (xs ys zs : List A) → Zip P xs ys
      → Zip Q ys zs
      → Zip S xs zs
  Zip-trans P Q S h [] [] [] p q = tt
  Zip-trans P Q S h (x ∷ xs) (y ∷ ys) (z ∷ zs) p q =
      (h x y z p.0 q.0, Zip-trans P Q S h xs ys zs p.1 q.1)
  Zip-trans P Q S h [] [] (_ ∷ _) p q = absurd q
  Zip-trans P Q S h [] (_ ∷ _) _ p q = absurd p
  Zip-trans P Q S h (_ ∷ _) [] _ p q = absurd p
  Zip-trans P Q S h (_ ∷ _) (_ ∷ _) [] p q = absurd q

  pub length-Zip : (P : A → A → Type 0) (xs ys : List A) → Zip P xs ys → length ys ≡ length xs
  length-Zip P [] [] h = refl
  length-Zip P (x ∷ xs) (y ∷ ys) h = ap suc (length-Zip P xs ys h.1)
  length-Zip P [] (_ ∷ _) h = absurd h
  length-Zip P (_ ∷ _) [] h = absurd h

  pub count_if-Zip :
      (P : A → A → Type 0) (test : A → Bool)
      → ((x y : A) → P x y → test y ≡ test x)
      → (xs ys : List A) → Zip P xs ys
      → count_if test ys ≡ count_if test xs
  count_if-Zip P test e [] [] h = refl
  count_if-Zip P test e (x ∷ xs) (y ∷ ys) h = rw (e x y h.0, count_if-Zip P test e xs ys h.1)
  count_if-Zip P test e [] (_ ∷ _) h = absurd h
  count_if-Zip P test e (_ ∷ _) [] h = absurd h

pub map-Zip {ℓ κ} :
    {A : Type ℓ} {B : Type κ} (P : A → A → Type 0) (f : A → B)
    → ((x y : A) → P x y → f y ≡ f x)
    → (xs ys : List A) → Zip P xs ys
    → map f ys ≡ map f xs
map-Zip P f e [] [] h = refl
map-Zip P f e (x ∷ xs) (y ∷ ys) h = rw (e x y h.0, map-Zip P f e xs ys h.1)
map-Zip P f e [] (_ ∷ _) h = absurd h
map-Zip P f e (_ ∷ _) [] h = absurd h

pub length-map {ℓ κ} :
    {A : Type ℓ} {B : Type κ} (f : A → B) (xs : List A) → length (map f xs) ≡ length xs
length-map f [] = refl
length-map f (x ∷ xs) = ap suc (length-map f xs)
