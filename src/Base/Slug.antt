-- ===== src/Base/Slug.antt =====
-- Slugs: runs of ASCII lower-case letters and digits, joined by single separators. What the three
-- `sanitize` functions share is that they produce slugs and leave slugs alone.
use garm_provider_truenas.Base.{
  ℕ, ◌≡◌, refl, Bool, true, false, not, ◌&&◌, ◌||◌, [], ◌∷◌, arith, ◌==◌, if◌then◌else◌, is_empty,
  trim, trim_left, trim_right,
}
use garm_provider_truenas.Base.Text.{Text, is_alnum, collapse, lower_rune, to_lower}

-- The rest of a slug, by whether a separator (or nothing) stands before it.
unfoldable pub slug_from : ℕ → Bool → Text → Bool
unfolding is_alnum
slug_from sep after_sep [] = not after_sep
slug_from sep after_sep (c ∷ cs) =
    let rest = slug_from sep (not (is_alnum c)) cs in
    if is_alnum c then rest else (c == sep && not after_sep && rest)

-- `([a-z0-9]+(-[a-z0-9]+)*)?`, with `sep` for the dash.
unfoldable pub is_slug : ℕ → Text → Bool
unfolding slug_from
is_slug sep t = is_empty t || slug_from sep true t

module _ (sep : ℕ) (plain : is_alnum sep ≡ false) where
  -- What `collapse` leaves once its trailing separator is cut.
  cut : Bool → Text → Text
  unfolding collapse trim_right
  cut last t = trim_right (λ c. c == sep) (collapse sep last t)

  alnum-ne-sep : (c : ℕ) → is_alnum c ≡ true → (c == sep) ≡ false
  alnum-ne-sep c h = ground arith

  mutual
    unfolding cut is_slug

    cut-is_slug : (t : Text) → is_slug sep (cut true t) ≡ true
    cut-is_slug [] = refl
    cut-is_slug (c ∷ cs) = ground (arith, alnum-ne-sep c, cut-slug_from cs, cut-is_slug cs)

    cut-slug_from : (t : Text) → slug_from sep false (cut false t) ≡ true
    cut-slug_from [] = refl
    cut-slug_from (c ∷ cs) = ground (arith, alnum-ne-sep c, cut-slug_from cs, cut-is_slug cs)

  trim_left-collapse-true :
      (t : Text) → trim_left (λ c. c == sep) (collapse sep true t) ≡ collapse sep true t
  unfolding collapse trim_left
  trim_left-collapse-true [] = refl
  trim_left-collapse-true (c ∷ cs) = ground (arith, alnum-ne-sep c, trim_left-collapse-true cs)

  trim_left-collapse-false :
      (t : Text) → trim_left (λ c. c == sep) (collapse sep false t) ≡ collapse sep true t
  unfolding collapse trim_left
  trim_left-collapse-false [] = refl
  trim_left-collapse-false (c ∷ cs) = ground (arith, alnum-ne-sep c, trim_left-collapse-true cs)

  -- The loop and the final trim make a slug of any text.
  pub trim-collapse-is_slug :
      (t : Text) → is_slug sep (trim (λ c. c == sep) (collapse sep false t)) ≡ true
  unfolding trim cut
  trim-collapse-is_slug t = rw trim_left-collapse-false (cut-is_slug t)

  -- A slug passes through unchanged.
  collapse_slug :
      (t : Text) (last : Bool)
      → slug_from sep last t ≡ true
      → trim_right (λ c. c == sep) (collapse sep last t) ≡ t
  unfolding collapse slug_from trim_right
  collapse_slug [] last h = refl
  collapse_slug (c ∷ cs) last h =
      ground (arith, alnum-ne-sep c, collapse_slug cs true, collapse_slug cs false)

  cut_slug :
      (t : Text) → is_slug sep t ≡ true → trim_right (λ c. c == sep) (collapse sep true t) ≡ t
  unfolding is_slug collapse trim_right
  cut_slug [] h = refl
  cut_slug (c ∷ cs) h = collapse_slug (c ∷ cs) true h

  pub trim-collapse_slug :
      (t : Text) → is_slug sep t ≡ true → trim (λ c. c == sep) (collapse sep false t) ≡ t
  unfolding trim
  trim-collapse_slug t h = rw trim_left-collapse-false (cut_slug t h)

lower_alnum : (c : ℕ) → is_alnum c ≡ true → lower_rune c ≡ c
unfolding is_alnum lower_rune
lower_alnum c h = ground arith

-- Lower-casing leaves a slug alone.
pub to_lower_slug :
    (sep : ℕ) (fixed : lower_rune sep ≡ sep) (t : Text) (last : Bool)
    → slug_from sep last t ≡ true
    → to_lower t ≡ t
unfolding to_lower slug_from
to_lower_slug sep fixed [] last h = refl
to_lower_slug sep fixed (c ∷ cs) last h =
    ground (arith, lower_alnum c, to_lower_slug sep fixed cs true, to_lower_slug sep fixed cs false)

pub to_lower-is_slug :
    (sep : ℕ) (fixed : lower_rune sep ≡ sep) (t : Text) → is_slug sep t ≡ true → to_lower t ≡ t
unfolding is_slug to_lower
to_lower-is_slug sep fixed [] h = refl
to_lower-is_slug sep fixed (c ∷ cs) h = to_lower_slug sep fixed (c ∷ cs) true h
