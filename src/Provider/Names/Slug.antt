-- ===== src/Provider/Names/Slug.antt =====
-- internal/provider/provider.go: what `sanitize` and `ownedName` do to the characters of a name.
use garm_provider_truenas.Base.{◌≡◌, refl, true, false}
use garm_provider_truenas.Base.Text.{Text, is_alnum, to_lower, lower_rune}
use garm_provider_truenas.Base.Slug.{
  is_slug, trim-collapse-is_slug, trim-collapse_slug, to_lower-is_slug,
}
use garm_provider_truenas.Provider.Names.{sanitize}

dash_plain : is_alnum b'-' ≡ false
unfolding is_alnum
dash_plain = refl

dash_fixed : lower_rune b'-' ≡ b'-'
unfolding lower_rune
dash_fixed = refl

-- A sanitized text consists of runs of ASCII lower-case letters and digits joined by single
-- dashes, with no dash at either end.
pub sanitize-is_slug : (t : Text) → is_slug b'-' (sanitize t) ≡ true
unfolding sanitize
sanitize-is_slug t = trim-collapse-is_slug b'-' dash_plain (to_lower t)

-- A text that has this form already is not changed.
pub sanitize_slug : (t : Text) → is_slug b'-' t ≡ true → sanitize t ≡ t
unfolding sanitize
sanitize_slug t h =
    rw (to_lower-is_slug b'-' dash_fixed t h) (trim-collapse_slug b'-' dash_plain t h)

-- So sanitizing twice is sanitizing once.
pub sanitize_idem : (t : Text) → sanitize (sanitize t) ≡ sanitize t
sanitize_idem t = sanitize_slug (sanitize t) (sanitize-is_slug t)
