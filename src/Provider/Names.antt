-- ===== src/Provider/Names.antt =====
-- internal/provider/provider.go: `sanitize` and `ownedName`.
pub mod Slug
pub mod Bounds
pub mod Distinct
use garm_provider_truenas.Base.{
  ℕ, ◌-◌, Bool, true, false, List, ◌∷◌, ◌++◌, [], ltb, leb, ◌==◌, if◌then◌else◌, length, take, trim,
}
use garm_provider_truenas.Base.Text.{Text, codes, to_lower, collapse}
use garm_provider_truenas.Base.Hex.{hex_encode}
use garm_provider_truenas.Provider.{true_nas_app_name_max}

abbrev pub is_dash : ℕ → Bool
is_dash c = c == b'-'

unfoldable pub sanitize : Text → Text
unfolding to_lower collapse trim
sanitize input = trim is_dash (collapse b'-' false (to_lower input))

-- At most twelve characters of the controller's name.
unfoldable pub clip : Text → Text
clip controller = if ltb 12 (length controller) then take 12 controller else controller

-- The name before it is shortened.
unfoldable pub raw_name : Text → Text → Text
unfolding sanitize clip codes trim
raw_name controller_id requested =
    trim is_dash
      (codes "garm-" ++ (clip (sanitize controller_id) ++ (codes "-" ++ sanitize requested)))

module _ (sha256 : Text → List ℕ) where
  -- A readable prefix of a name that is too long, and the head of its digest.
  unfoldable pub shorten : Text → Text
  unfolding codes hex_encode trim
  shorten raw =
      let suffix = hex_encode (take 4 (sha256 raw)) in
      let prefix_len = true_nas_app_name_max - length suffix - 1 in
      trim is_dash (take prefix_len raw) ++ (codes "-" ++ suffix)

  unfoldable pub owned_name : Text → Text → Text
  unfolding raw_name shorten
  owned_name controller_id requested =
      let raw = raw_name controller_id requested in
      if leb (length raw) true_nas_app_name_max then raw else shorten raw
