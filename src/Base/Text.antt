-- ===== src/Base/Text.antt =====
-- Go strings as lists of code points, with what the program uses of package strings. Case mapping
-- and case folding are exact wherever one of the texts is ASCII, which is how the program uses
-- them: a letter outside ASCII is mapped only where its image is an ASCII letter.
use Prim.Native.Char.{code}
use Prim.Native.Nat.{zero, suc, ℕ, ◌+◌, ◌-◌}
use Prim.Native.String.{String}
use mathlib.Core.Path.{◌≡◌, refl}
use mathlib.Core.Logic.{◌↔◌}
use mathlib.Core.Bool.{Bool, true, false, not, ◌&&◌, ◌||◌}
use mathlib.Core.List.{List, [], ◌∷◌, ◌++◌, map}
use native.Mathlib.Omega.{arith}
use garm_provider_truenas.Base.Tests.{ltb, leb, ◌==◌, if◌then◌else◌}
use garm_provider_truenas.Base.Lists.{length, is_empty, trim}

abbrev pub Text : Type 0
Text = List ℕ

-- A literal of the source.
unfoldable pub codes : String → Text
codes String.[] = []
codes (String.◌∷◌ c s) = code c ∷ codes s

unfoldable pub text_eq : Text → Text → Bool
text_eq [] [] = true
text_eq (a ∷ s) (b ∷ t) = a == b && text_eq s t
text_eq _ _ = false

pub text_eq_refl : (s : Text) → text_eq s s ≡ true
unfolding text_eq
text_eq_refl [] = refl
text_eq_refl (a ∷ s) = ground (arith, text_eq_refl s)

pub text_eq→eq : (s t : Text) → text_eq s t ≡ true → s ≡ t
unfolding text_eq
text_eq→eq [] [] h = refl
text_eq→eq [] (b ∷ t) h = cc
text_eq→eq (a ∷ s) [] h = cc
text_eq→eq (a ∷ s) (b ∷ t) h = ground (arith, text_eq→eq s t)

pub text_eq_iff : (s t : Text) → (text_eq s t ≡ true) ↔ (s ≡ t)
text_eq_iff s t = (text_eq→eq s t, λ e. rw e (text_eq_refl t))

-- `unicode.IsSpace`.
unfoldable pub is_space : ℕ → Bool
is_space c =
    (leb 9 c && leb c 13)
    || c == 0x20
    || c == 0x85
    || c == 0xa0
    || c == 0x1680
    || (leb 0x2000 c && leb c 0x200a)
    || c == 0x2028
    || c == 0x2029
    || c == 0x202f
    || c == 0x205f
    || c == 0x3000

unfoldable pub trim_space : Text → Text
unfolding is_space trim
trim_space t = trim is_space t

-- `strings.TrimSpace(t) == ""`.
unfoldable pub is_blank : Text → Bool
unfolding trim_space
is_blank t = is_empty (trim_space t)

-- `unicode.ToLower`: U+212A is the Kelvin sign, U+0130 the dotted capital I.
unfoldable pub lower_rune : ℕ → ℕ
lower_rune c =
    if leb b'A' c && leb c b'Z'
    then c + 32
    else (if c == 0x212a then b'k' else (if c == 0x130 then b'i' else c))

-- `unicode.ToUpper`: U+017F is the long s, U+0131 the dotless i.
unfoldable pub upper_rune : ℕ → ℕ
upper_rune c =
    if leb b'a' c && leb c b'z'
    then c - 32
    else (if c == 0x17f then b'S' else (if c == 0x131 then b'I' else c))

-- The representative of a letter under `unicode.SimpleFold`.
unfoldable pub fold_rune : ℕ → ℕ
fold_rune c =
    if leb b'A' c && leb c b'Z'
    then c + 32
    else (if c == 0x212a then b'k' else (if c == 0x17f then b's' else c))

unfoldable pub to_lower : Text → Text
unfolding lower_rune
to_lower t = map lower_rune t

unfoldable pub to_upper : Text → Text
unfolding upper_rune
to_upper t = map upper_rune t

unfoldable pub equal_fold : Text → Text → Bool
unfolding fold_rune text_eq
equal_fold s t = text_eq (map fold_rune s) (map fold_rune t)

unfoldable pub has_prefix : Text → Text → Bool
has_prefix t [] = true
has_prefix [] (p ∷ ps) = false
has_prefix (c ∷ t) (p ∷ ps) = c == p && has_prefix t ps

-- `strings.Contains`.
unfoldable pub contains : Text → Text → Bool
unfolding has_prefix
contains [] u = is_empty u
contains (c ∷ t) u = has_prefix (c ∷ t) u || contains t u

-- An ASCII lower-case letter or digit.
unfoldable pub is_alnum : ℕ → Bool
is_alnum c = (leb b'a' c && leb c b'z') || (leb b'0' c && leb c b'9')

-- The loop that the three `sanitize` functions share: each run of other characters becomes one
-- separator. The flag is `lastDash`.
unfoldable pub collapse : ℕ → Bool → Text → Text
unfolding is_alnum
collapse sep last [] = []
collapse sep last (c ∷ cs) =
    let rest = collapse sep (not (is_alnum c)) cs in
    if is_alnum c then c ∷ rest else (if last then rest else sep ∷ rest)

abbrev pub drop : ℕ → Text → Text
drop zero t = t
drop (suc n) [] = []
drop (suc n) (c ∷ t) = drop n t

unfoldable pub trim_prefix : Text → Text → Text
unfolding has_prefix
trim_prefix t prefix = if has_prefix t prefix then drop (length prefix) t else t

-- `strings.ReplaceAll` for an `old` that is not empty. The number counts what is left of a match.
unfoldable pub replace_from : ℕ → Text → Text → Text → Text
unfolding has_prefix
replace_from skip old new [] = []
replace_from (suc n) old new (c ∷ t) = replace_from n old new t
replace_from zero old new (c ∷ t) =
    let matched = replace_from (length old - 1) old new t in
    let other = replace_from 0 old new t in
    if has_prefix (c ∷ t) old then new ++ matched else c ∷ other

unfoldable pub replace_all : Text → Text → Text → Text
unfolding replace_from
replace_all t old new = replace_from 0 old new t

-- `strings.ContainsAny` on its characters.
unfoldable pub contains_char : ℕ → Text → Bool
contains_char c [] = false
contains_char c (d ∷ t) = c == d || contains_char c t

-- `strings.TrimSuffix` of one character.
unfoldable pub cut_suffix_char : ℕ → Text → Text
cut_suffix_char c [] = []
cut_suffix_char c (d ∷ t) =
    let rest = cut_suffix_char c t in if is_empty t && d == c then [] else d ∷ rest

-- `s < t` on strings; the order of code points is that of their UTF-8 bytes.
unfoldable pub text_lt : Text → Text → Bool
text_lt s [] = false
text_lt [] (b ∷ t) = true
text_lt (a ∷ s) (b ∷ t) = ltb a b || (a == b && text_lt s t)
