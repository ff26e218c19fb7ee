-- ===== src/Base/Lists.antt =====
-- Slices as lists, measured by native numbers.
use Prim.Native.Nat.{ℕ, zero, suc, ◌+◌, ◌≤◌}
use mathlib.Core.Path.{◌≡◌}
use mathlib.Core.Logic.{◌⊎◌}
use mathlib.Core.Bool.{Bool, true, false, ◌&&◌, ◌||◌}
use mathlib.Core.List.{List, [], ◌∷◌, ◌++◌}
use native.Mathlib.Omega.{arith}
use garm_provider_truenas.Base.Tests.{if◌then◌else◌}

module _ {ℓ} {A : Type ℓ} where
  abbrev pub length : List A → ℕ
  length [] = 0
  length (x ∷ xs) = suc (length xs)

  abbrev pub take : ℕ → List A → List A
  take zero xs = []
  take (suc n) [] = []
  take (suc n) (x ∷ xs) = x ∷ take n xs

  abbrev pub is_empty : List A → Bool
  is_empty [] = true
  is_empty (x ∷ xs) = false

  -- `strings.TrimLeftFunc`: drops the longest prefix that passes the test.
  unfoldable pub trim_left : (A → Bool) → List A → List A
  trim_left p [] = []
  trim_left p (x ∷ xs) = let rest = trim_left p xs in if p x then rest else x ∷ xs

  -- `strings.TrimRightFunc`: drops the longest suffix that passes the test.
  unfoldable pub trim_right : (A → Bool) → List A → List A
  trim_right p [] = []
  trim_right p (x ∷ xs) =
      let rest = trim_right p xs in if is_empty rest && p x then [] else x ∷ rest

  unfoldable pub trim : (A → Bool) → List A → List A
  unfolding trim_left trim_right
  trim p xs = trim_right p (trim_left p xs)

  -- Keeps the elements that pass a Boolean test, in their order.
  unfoldable pub keep : (A → Bool) → List A → List A
  keep p [] = []
  keep p (x ∷ xs) = let rest = keep p xs in if p x then x ∷ rest else rest

  unfoldable pub any : (A → Bool) → List A → Bool
  any p [] = false
  any p (x ∷ xs) = p x || any p xs

  -- A predicate on all elements.
  abbrev pub All {κ} : (A → Type κ) → List A → Type κ
  All P [] = Unit
  All P (x ∷ xs) = P x × All P xs

  pub All-map {κ μ} :
      {P : A → Type κ} {Q : A → Type μ}
      → ((x : A) → P x → Q x)
      → (xs : List A) → All P xs
      → All Q xs
  All-map f [] h = tt
  All-map f (x ∷ xs) h = (f x h.0, All-map f xs h.1)

  pub length-append : (xs ys : List A) → length (xs ++ ys) ≡ length xs + length ys
  length-append [] ys = omega arith
  length-append (x ∷ xs) ys = omega (arith, length-append xs ys)

  pub length-take-le : (n : ℕ) (xs : List A) → length (take n xs) ≤ n
  length-take-le zero xs = omega arith
  length-take-le (suc n) [] = omega arith
  length-take-le (suc n) (x ∷ xs) = omega (arith, length-take-le n xs)

  pub length-take : (n : ℕ) (xs : List A) → n ≤ length xs → length (take n xs) ≡ n
  length-take zero xs h = omega arith
  length-take (suc n) [] h = omega arith
  length-take (suc n) (x ∷ xs) h = omega (arith, length-take n xs)

module _ {ℓ} {A : Type ℓ} (p : A → Bool) where
  pub length-trim_left-le : (xs : List A) → length (trim_left p xs) ≤ length xs
  unfolding trim_left
  length-trim_left-le [] = omega arith
  length-trim_left-le (x ∷ xs) = ground (arith, length-trim_left-le xs)

  pub length-trim_right-le : (xs : List A) → length (trim_right p xs) ≤ length xs
  unfolding trim_right
  length-trim_right-le [] = omega arith
  length-trim_right-le (x ∷ xs) = ground (arith, length-trim_right-le xs)

  -- Trimming never makes a text longer.
  pub length-trim-le : (xs : List A) → length (trim p xs) ≤ length xs
  unfolding trim
  length-trim-le xs = omega (arith, length-trim_right-le (trim_left p xs), length-trim_left-le xs)

-- An element of a list, with its place.
abbrev pub In : {A : Type 0} → A → List A → Type 0
In a [] = ⊥
In a (x ∷ xs) = (x ≡ a) ⊎ In a xs
