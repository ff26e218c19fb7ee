-- ===== src/Base/Hex.antt =====
-- `hex.EncodeToString`, and what the program relies on of `sha256.Sum256`.
use Prim.Native.Nat.{suc, ℕ, ◌+◌, ◌-◌, ◌*◌, ◌/◌, ◌%◌}
use mathlib.Core.Path.{◌≡◌}
use mathlib.Core.Bool.{Bool, ◌&&◌, ◌||◌}
use mathlib.Core.Option
use mathlib.Core.Option.{Option, none, some}
use mathlib.Core.List.{List, [], ◌∷◌}
use native.Mathlib.Omega.{arith}
use garm_provider_truenas.Base.Tests.{leb, ltb, if◌then◌else◌}
use garm_provider_truenas.Base.Lists.{length}
use garm_provider_truenas.Base.Text.{Text}

unfoldable pub hex_digit : ℕ → ℕ
hex_digit n = if ltb n 10 then b'0' + n else b'a' + n - 10

unfoldable pub hex_encode : List ℕ → Text
unfolding hex_digit
hex_encode [] = []
hex_encode (b ∷ bs) = hex_digit (b / 16) ∷ hex_digit (b % 16) ∷ hex_encode bs

pub length-hex_encode : (bs : List ℕ) → length (hex_encode bs) ≡ 2 * length bs
unfolding hex_encode
length-hex_encode [] = omega arith
length-hex_encode (b ∷ bs) = omega (arith, length-hex_encode bs)

-- A digest has 32 bytes.
abbrev pub IsDigest : (Text → List ℕ) → Type 0
IsDigest sha256 = (t : Text) → length (sha256 t) ≡ 32

unfoldable pub is_hex_digit : ℕ → Bool
is_hex_digit c =
    (leb b'0' c && leb c b'9') || (leb b'a' c && leb c b'f') || (leb b'A' c && leb c b'F')

-- How many bytes `hex.DecodeString` makes of a text; it refuses other digits and an odd length.
unfoldable pub hex_bytes : Text → Option ℕ
unfolding is_hex_digit
hex_bytes [] = some 0
hex_bytes (a ∷ []) = none
hex_bytes (a ∷ b ∷ t) =
    if is_hex_digit a && is_hex_digit b then Option.map suc (hex_bytes t) else none
