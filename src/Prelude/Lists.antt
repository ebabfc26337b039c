-- ===== src/Prelude/Lists.antt =====
-- Lists over the native numbers, and predicates on lists by recursion.
use Prim.Native.Nat.{ℕ, suc, ◌+◌, ◌<◌}
use mathlib.Core.Path.{◌≡◌, refl}
use mathlib.Core.Bool.{Bool, true, false, ◌||◌}
use mathlib.Core.List.{List, [], ◌∷◌, ◌++◌, reverse, reverse-cons}
use native.Mathlib.Omega.{arith}
use lnst.Prelude.Tests.{Eq, ◌==◌, if◌then◌else◌, ==_self, ==_iff}

module _ {ℓ} {A : Type ℓ} where
  abbrev pub length : List A → ℕ
  length [] = 0
  length (x ∷ xs) = suc (length xs)

  pub length-append : (xs ys : List A) → length (xs ++ ys) ≡ length xs + length ys
  length-append [] ys = omega arith
  length-append (x ∷ xs) ys = omega (arith, length-append xs ys)

  pub length-reverse : (xs : List A) → length (reverse xs) ≡ length xs
  length-reverse [] = refl
  length-reverse (x ∷ xs) =
      rw reverse-cons (omega (arith, length-append (reverse xs) (x ∷ []), length-reverse xs))

  pub append_nil : (xs : List A) → xs ++ [] ≡ xs
  append_nil [] = refl
  append_nil (x ∷ xs) = cc (append_nil xs)

  pub append_assoc : (xs ys zs : List A) → (xs ++ ys) ++ zs ≡ xs ++ (ys ++ zs)
  append_assoc [] ys zs = refl
  append_assoc (x ∷ xs) ys zs = cc (append_assoc xs ys zs)

  abbrev pub All {κ} : (A → Type κ) → List A → Type κ
  All P [] = Unit
  All P (x ∷ xs) = P x × All P xs

  pub All-append {κ} : (P : A → Type κ) (xs ys : List A) → All P xs → All P ys → All P (xs ++ ys)
  All-append P [] ys h k = k
  All-append P (x ∷ xs) ys h k = (h.0, All-append P xs ys h.1 k)

module _ {ℓ} {A : Type ℓ} ⦃e : Eq A⦄ where
  -- `a in xs`
  unfoldable pub elem : A → List A → Bool
  elem a [] = false
  elem a (x ∷ xs) = x == a || elem a xs

  -- How often `a` stands in the list.
  unfoldable pub count : A → List A → ℕ
  count a [] = 0
  count a (x ∷ xs) = if x == a then suc (count a xs) else count a xs

  pub count-append : (a : A) (xs ys : List A) → count a (xs ++ ys) ≡ count a xs + count a ys
  unfolding count
  count-append a [] ys = omega arith
  count-append a (x ∷ xs) ys = ground (arith, count-append a xs ys)

  pub elem-count : (a : A) (xs : List A) → elem a xs ≡ true → 0 < count a xs
  unfolding elem count
  elem-count a (x ∷ xs) h = ground (arith, elem-count a xs)
  elem-count a [] h = ground arith

  pub count-elem : (a : A) (xs : List A) → 0 < count a xs → elem a xs ≡ true
  unfolding elem count
  count-elem a (x ∷ xs) h = ground (arith, count-elem a xs)
  count-elem a [] h = absurd (omega arith)

  pub length_pos_of_count : (a : A) (xs : List A) → 0 < count a xs → 0 < length xs
  unfolding count
  length_pos_of_count a [] h = absurd (omega arith)
  length_pos_of_count a (x ∷ xs) h = omega arith

  pub count-reverse : (a : A) (xs : List A) → count a (reverse xs) ≡ count a xs
  unfolding count
  count-reverse a [] = refl
  count-reverse a (x ∷ xs) =
      rw reverse-cons (ground (arith, count-append a (reverse xs) (x ∷ []), count-reverse a xs))

  -- A predicate of all that stands in the list.
  pub count-All {κ} : (P : A → Type κ) (xs : List A) → ((a : A) → 0 < count a xs → P a) → All P xs
  unfolding count
  count-All P [] h = tt
  count-All P (x ∷ xs) h =
      (h x (ground (arith, ==_self x)), count-All P xs (λ a k. h a (ground arith)))

  -- list.remove: takes out the first occurrence.
  unfoldable pub remove_first : List A → A → List A
  remove_first [] a = []
  remove_first (x ∷ xs) a = if x == a then xs else x ∷ remove_first xs a

  pub count-remove_first :
      (x a : A) (xs : List A)
      → 0 < count a xs
      → count x xs
        ≡ (if a == x then suc (count x (remove_first xs a)) else count x (remove_first xs a))
  unfolding remove_first count
  count-remove_first x a [] h = absurd (omega arith)
  count-remove_first x a (y ∷ xs) h =
      ground (arith, ==_iff y a, ==_iff y x, ==_iff a x, count-remove_first x a xs)
