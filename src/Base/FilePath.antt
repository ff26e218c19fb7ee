-- ===== src/Base/FilePath.antt =====
-- What the program uses of package path, of `strings.Split` and of byte lengths.
use garm_provider_truenas.Base.{
  ℕ, ◌+◌, Bool, true, false, not, ◌||◌, List, [], ◌∷◌, ◌++◌, ltb, ◌==◌, if◌then◌else◌, is_empty,
  keep,
}
use garm_provider_truenas.Base.Text.{Text, codes, text_eq}

-- `strings.Split` at one character: the part before the first separator is the head.
abbrev pub push_char : ℕ → List Text → List Text
push_char c [] = (c ∷ []) ∷ []
push_char c (part ∷ parts) = (c ∷ part) ∷ parts

unfoldable pub split : ℕ → Text → List Text
split sep [] = [] ∷ []
split sep (c ∷ t) = let rest = split sep t in if c == sep then [] ∷ rest else push_char c rest

-- `strings.Join` with one character.
unfoldable pub join : ℕ → List Text → Text
join sep [] = []
join sep (part ∷ []) = part
join sep (part ∷ other ∷ parts) = part ++ (sep ∷ join sep (other ∷ parts))

-- One step of `path.Clean`: the stack holds the parts so far, the last one first.
pop_part : Bool → List Text → List Text
unfolding codes
pop_part true [] = []
pop_part false [] = codes ".." ∷ []
pop_part rooted (part ∷ parts) =
    if text_eq part (codes "..") then codes ".." ∷ part ∷ parts else parts

clean_step : Bool → List Text → Text → List Text
unfolding pop_part
clean_step rooted stack part =
    if is_empty part || text_eq part (codes ".")
    then stack
    else (if text_eq part (codes "..") then pop_part rooted stack else part ∷ stack)

clean_parts : Bool → List Text → List Text → List Text
unfolding clean_step
clean_parts rooted stack [] = stack
clean_parts rooted stack (part ∷ parts) = clean_parts rooted (clean_step rooted stack part) parts

reverse_onto : List Text → List Text → List Text
reverse_onto [] done = done
reverse_onto (part ∷ parts) done = reverse_onto parts (part ∷ done)

is_rooted : Text → Bool
is_rooted [] = false
is_rooted (c ∷ t) = c == b'/'

or_dot : Text → Text
unfolding codes
or_dot [] = codes "."
or_dot (c ∷ t) = c ∷ t

-- `path.Clean`
unfoldable pub clean : Text → Text
unfolding clean_parts reverse_onto split join is_rooted or_dot
clean path =
    let parts = clean_parts (is_rooted path) [] (split b'/' path) in
    let joined = join b'/' (reverse_onto parts []) in
    if is_rooted path then b'/' ∷ joined else or_dot joined

-- `path.Join` leaves empty elements out.
unfoldable pub join_path : List Text → Text
unfolding clean keep join
join_path elements =
    let joined = join b'/' (keep (λ part. not (is_empty part)) elements) in
    if is_empty joined then [] else clean joined

-- The bytes of a text in UTF-8.
unfoldable pub byte_length : Text → ℕ
byte_length [] = 0
byte_length (c ∷ t) =
    (if ltb c 0x80 then 1 else (if ltb c 0x800 then 2 else (if ltb c 0x10000 then 3 else 4)))
    + byte_length t
