-- ===== src/Appstore/Reading.antt =====
-- internal/truenasstore/store.go and host_gateway.go: how a configuration is read. An object's keys
-- are taken to be distinct, as those of a Go map are.
use garm_provider_truenas.Base.{
  ℕ, suc, Bool, true, false, ◌&&◌, ◌||◌, List, [], ◌∷◌, Option, none, some, if◌then◌else◌, is_empty,
  ◌==◌,
}
use garm_provider_truenas.Base.Dict.{Dict, lookup, insert}
use garm_provider_truenas.Base.Json.{
  Value, string, array, object, Items, end, item, Fields, close, field,
}
use garm_provider_truenas.Base.Text.{Text, text_eq}

unfoldable pub get_field : Text → Fields → Option Value
get_field key close = none
get_field key (field k v rest) = if text_eq k key then some v else get_field key rest

unfoldable pub count_fields : Fields → ℕ
count_fields close = 0
count_fields (field k v rest) = suc (count_fields rest)

unfoldable pub as_object : Option Value → Option Fields
as_object (some (object fields)) = some fields
as_object _ = none

as_text : Option Value → Option Text
as_text (some (string text)) = some text
as_text _ = none

add_entry : Text → Value → Option (Dict Text) → Option (Dict Text)
unfolding insert
add_entry key (string text) (some rest) = some ((key, text) ∷ rest)
add_entry key _ _ = none

text_fields : Fields → Option (Dict Text)
unfolding add_entry
text_fields close = some []
text_fields (field key value rest) = add_entry key value (text_fields rest)

-- `strings.Cut(text, "=")`
push_key : ℕ → Option (Text × Text) → Option (Text × Text)
push_key c none = none
push_key c (some (key, value)) = some (c ∷ key, value)

unfoldable pub cut_equals : Text → Option (Text × Text)
unfolding push_key
cut_equals [] = none
cut_equals (c ∷ t) = let rest = cut_equals t in if c == b'=' then some ([], t) else push_key c rest

entry_of : Value → Option (Text × Text)
unfolding cut_equals
entry_of (string text) = cut_equals text
entry_of _ = none

-- A later entry overwrites an earlier one.
store_entry : Option (Text × Text) → Dict Text → Option (Dict Text)
unfolding insert
store_entry none found = none
store_entry (some (key, value)) found = if is_empty key then none else some (insert key value found)

abbrev bind_dict : Option (Dict Text) → (Dict Text → Option (Dict Text)) → Option (Dict Text)
bind_dict none f = none
bind_dict (some d) f = f d

text_items : Items → Dict Text → Option (Dict Text)
unfolding entry_of store_entry
text_items end found = some found
text_items (item value rest) found =
    bind_dict (store_entry (entry_of value) found) (text_items rest)

-- `stringMap` reads an object of texts, or a list of `key=value`.
unfoldable pub string_map : Option Value → Option (Dict Text)
unfolding text_fields text_items
string_map (some (object fields)) = text_fields fields
string_map (some (array items)) = text_items items []
string_map _ = none

-- `labelMap` is the same function with other messages.
abbrev pub label_map : Option Value → Option (Dict Text)
label_map value = string_map value

push_text : Option Text → Option (List Text) → Option (List Text)
push_text (some text) (some texts) = some (text ∷ texts)
push_text _ _ = none

texts_of : Items → Option (List Text)
unfolding push_text as_text
texts_of end = some []
texts_of (item value rest) = push_text (as_text (some value)) (texts_of rest)

unfoldable pub string_list : Option Value → Option (List Text)
unfolding texts_of
string_list (some (array items)) = texts_of items
string_list _ = none

-- Whether a value is this very list of texts, this text, this number.
unfoldable pub same_list : Option (List Text) → List Text → Bool
same_list (some (t ∷ ts)) (u ∷ us) = text_eq t u && same_list (some ts) us
same_list (some []) [] = true
same_list _ _ = false

unfoldable pub is_text : Option Value → Text → Bool
unfolding as_text
is_text value text = elim (as_text value) [ none ↦ false | some t ↦ text_eq t text ]

unfoldable pub is_list : Option Value → List Text → Bool
unfolding string_list same_list
is_list value texts = same_list (string_list value) texts

-- The value that Go has for a missing key.
unfoldable pub text_at : Text → Dict Text → Text
unfolding lookup
text_at key d = elim (lookup key d) [ none ↦ [] | some text ↦ text ]

unfoldable pub has_key : Text → Dict Text → Bool
unfolding lookup
has_key key d = elim (lookup key d) [ none ↦ false | some text ↦ true ]

unfoldable pub has_field : Text → Fields → Bool
unfolding get_field
has_field key fields = elim (get_field key fields) [ none ↦ false | some v ↦ true ]

unfoldable pub has_all : List Text → Fields → Bool
unfolding has_field
has_all [] fields = true
has_all (key ∷ keys) fields = has_field key fields && has_all keys fields

unfoldable pub is_one_of : Text → List Text → Bool
is_one_of key [] = false
is_one_of key (k ∷ ks) = text_eq k key || is_one_of key ks

unfoldable pub only_keys : List Text → Fields → Bool
unfolding is_one_of
only_keys keys close = true
only_keys keys (field key value rest) = is_one_of key keys && only_keys keys rest

unfoldable pub only_entries : List Text → Dict Text → Bool
unfolding is_one_of
only_entries keys [] = true
only_entries keys ((key, value) ∷ rest) = is_one_of key keys && only_entries keys rest

unfoldable pub has_entries : List Text → Dict Text → Bool
unfolding has_key
has_entries [] d = true
has_entries (key ∷ keys) d = has_key key d && has_entries keys d
