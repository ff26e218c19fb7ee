-- ===== src/Script/Words.antt =====
-- What the scripts do to texts: parameter expansions, and the `sed` programs of bootstrap.go.
use garm_provider_truenas.Base.{
  ℕ, Bool, true, false, ◌&&◌, ◌||◌, List, [], ◌∷◌, Option, none, some, leb, ◌==◌, if◌then◌else◌,
  length, is_empty,
}
use garm_provider_truenas.Base.Text.{Text, codes, text_eq, has_prefix, drop}
use garm_provider_truenas.Base.FilePath.{split, join}
use garm_provider_truenas.Base.Dict.{Dict, lookup}

abbrev push : ℕ → Option Text → Option Text
push c none = none
push c (some t) = some (c ∷ t)

-- A text less a suffix, if it has it.
unfoldable pub strip_suffix : Text → Text → Option Text
unfolding text_eq
strip_suffix suffix [] = if is_empty suffix then some [] else none
strip_suffix suffix (c ∷ t) =
    let shorter = push c (strip_suffix suffix t) in
    if text_eq (c ∷ t) suffix then some [] else shorter

abbrev pub or_else {ℓ} : {A : Type ℓ} → Option A → A → A
or_else none a = a
or_else (some b) a = b

abbrev pub non_empty : Option Text → Option Text
non_empty none = none
non_empty (some []) = none
non_empty (some (c ∷ t)) = some (c ∷ t)

-- `${KEY:?}`: the value, unless it is unset or empty.
unfoldable pub required : Dict Text → Text → Option Text
unfolding lookup
required env key = non_empty (lookup key env)

-- `${KEY:-value}`
unfoldable pub defaulted : Dict Text → Text → Text → Text
unfolding required
defaulted env key value = or_else (required env key) value

-- `s/^prefix//`
unfoldable pub strip_prefix : Text → Text → Option Text
unfolding has_prefix
strip_prefix prefix t = if has_prefix t prefix then some (drop (length prefix) t) else none

abbrev pub is_digit : ℕ → Bool
is_digit c = leb b'0' c && leb c b'9'

unfoldable pub all_digits : Text → Bool
all_digits [] = true
all_digits (c ∷ t) = is_digit c && all_digits t

unfoldable pub is_number : Text → Bool
unfolding all_digits
is_number t = if is_empty t then false else all_digits t

is_version : List Text → Bool
unfolding is_number
is_version (major ∷ minor ∷ patch ∷ []) = is_number major && is_number minor && is_number patch
is_version _ = false

version_of : Option Text → Option Text
unfolding is_version split
version_of none = none
version_of (some t) = if is_version (split b'.' t) then some t else none

-- `^actions-runner-linux-x64-\([0-9][0-9]*\.[0-9][0-9]*\.[0-9][0-9]*\)\.tar\.gz$`, on one line.
line_version : Text → Option Text
unfolding version_of strip_prefix strip_suffix codes
line_version line = elim (strip_prefix (codes "actions-runner-linux-x64-") line) [
  | none ↦ none
  | some t ↦ version_of (strip_suffix (codes ".tar.gz") t)
]

unfoldable pub matches : (Text → Option Text) → List Text → List Text
matches f [] = []
matches f (line ∷ lines) =
    let rest = matches f lines in elim (f line) [ none ↦ rest | some t ↦ t ∷ rest ]

-- `expected_runner_version`.
unfoldable pub expected_version : Text → Text
unfolding matches line_version split join
expected_version filename = join 10 (matches line_version (split 10 filename))

unfoldable pub without : ℕ → Text → Text
without c [] = []
without c (d ∷ t) = let rest = without c t in if d == c then rest else d ∷ rest

abbrev pub first : List Text → Text
first [] = []
first (line ∷ lines) = line

-- `tr -d '\r' | sed -n '1p'`.
unfoldable pub first_line : Text → Text
unfolding split without
first_line t = first (split 10 (without 13 t))

-- `sed -n 's/^key//p' | head -n1 | tr -d '"'`.
unfoldable pub os_value : Text → Text → Text
unfolding matches split strip_prefix without
os_value key release = without b'"' (first (matches (strip_prefix key) (split 10 release)))

abbrev is_gap : ℕ → Bool
is_gap c = (leb 9 c && leb c 13) || c == 32

unfoldable pub skip_gap : Text → Text
skip_gap [] = []
skip_gap (c ∷ t) = let rest = skip_gap t in if is_gap c then rest else c ∷ t

unfoldable pub leading_digits : Text → Text
leading_digits [] = []
leading_digits (c ∷ t) = let rest = leading_digits t in if is_digit c then c ∷ rest else []

after_key : Option Text → Option Text
unfolding strip_prefix skip_gap leading_digits codes
after_key none = none
after_key (some t) = elim (strip_prefix (codes ":") (skip_gap t)) [
  | none ↦ none
  | some u ↦ non_empty (some (leading_digits (skip_gap u)))
]

-- The last place of a line where `"agentId"[[:space:]]*:[[:space:]]*\([0-9][0-9]*\)` matches, as
-- the greedy `.*` before it finds it.
line_agent_id : Text → Option Text
unfolding after_key strip_prefix codes
line_agent_id [] = none
line_agent_id (c ∷ t) = elim (line_agent_id t) [
  | some id ↦ some id
  | none ↦ after_key (strip_prefix (codes "\"agentId\"") (c ∷ t))
]

unfoldable pub agent_id : Text → Text
unfolding matches split line_agent_id
agent_id config = first (matches line_agent_id (split 10 config))
