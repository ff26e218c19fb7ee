-- ===== src/Base/Int.antt =====
-- Go's `int` where its sign matters, and `%d`.
use garm_provider_truenas.Base.{arith, ◌≡◌}
use garm_provider_truenas.Base.{
  ℕ, zero, suc, ◌+◌, ◌/◌, ◌%◌, Bool, true, false, [], ◌∷◌, ◌++◌, ltb, ◌==◌, if◌then◌else◌,
}
use garm_provider_truenas.Base.Text.{Text}

-- `negsuc n` is -(n + 1).
pub data ℤ : Type 0 where
  pos : ℕ → ℤ
  negsuc : ℕ → ℤ

unfoldable pub int_eq : ℤ → ℤ → Bool
int_eq (pos a) (pos b) = a == b
int_eq (negsuc a) (negsuc b) = a == b
int_eq _ _ = false

-- `0 < n`
unfoldable pub is_positive : ℤ → Bool
is_positive (pos n) = ltb 0 n
is_positive (negsuc n) = false

-- Decimal digits; a number has fewer digits than its successor counts.
unfoldable pub digits_of : ℕ → ℕ → Text
digits_of zero n = []
digits_of (suc f) n =
    let rest = digits_of f (n / 10) in
    if ltb n 10 then (b'0' + n) ∷ [] else rest ++ ((b'0' + n % 10) ∷ [])

unfoldable pub decimal : ℤ → Text
unfolding digits_of
decimal (pos n) = digits_of (suc n) n
decimal (negsuc n) = b'-' ∷ digits_of (suc (suc n)) (suc n)

pub int_eq_refl : (a : ℤ) → int_eq a a ≡ true
unfolding int_eq
int_eq_refl (pos n) = ground arith
int_eq_refl (negsuc n) = ground arith
