-- ===== src/Appstore/Listed.antt =====
-- internal/truenasstore/store.go: `plausibleManagedAppName` on the names that `ownedName` of
-- internal/provider makes.
use garm_provider_truenas.Base.{
  length-take, append_assoc, ap, ◌∙◌, ◌%◌, ◌/◌, ◌<◌, ℕ, ◌≡◌, refl, Bool, true, false, not, List, [],
  ◌∷◌, ◌++◌, some, arith, ltb, leb, ◌==◌, length, take, trim, trim_left, trim_right, is_empty,
  Bool-cases, inl, inr,
}
use garm_provider_truenas.Base.Hex.{hex_digit, hex_encode, IsDigest}
use garm_provider_truenas.Base.Slug.{is_slug, slug_from}
use garm_provider_truenas.Base.Text.{Text, codes, is_alnum, is_space, is_blank, trim_space}
use garm_provider_truenas.Provider.Names.{is_dash, sanitize, clip, raw_name, shorten, owned_name}
use garm_provider_truenas.Provider.Names.Slug.{sanitize-is_slug}
use garm_provider_truenas.Provider.Names.Bounds.{length-suffix}
use garm_provider_truenas.Appstore.{cut_dash, push_before, two_parts, plausible_managed_app_name}

-- A text with its last character, which passes a test.
abbrev EndsIn : (ℕ → Bool) → Text → Type 0
EndsIn p t = (q : Text) × (x : ℕ) × (t ≡ q ++ (x ∷ [])) × (p x ≡ true)

EndsIn-cons : (p : ℕ → Bool) (c : ℕ) (t : Text) → EndsIn p t → EndsIn p (c ∷ t)
EndsIn-cons p c t h = (c ∷ h.0, h.1, rw h.2 refl, h.3)

slug_from-EndsIn :
    (c : ℕ) (t : Text) (after : Bool)
    → slug_from b'-' after (c ∷ t) ≡ true
    → EndsIn is_alnum (c ∷ t)
unfolding slug_from
slug_from-EndsIn c [] after h = ([], c, refl, ground arith)
slug_from-EndsIn c (d ∷ t) after h =
    EndsIn-cons is_alnum c (d ∷ t) (slug_from-EndsIn d t (not (is_alnum c)) (ground arith))

is_empty-last : (s : Text) (x : ℕ) → is_empty (s ++ (x ∷ [])) ≡ false
is_empty-last [] x = refl
is_empty-last (c ∷ s) x = refl

module _ (p : ℕ → Bool) where
  trim_right-last : (s : Text) (x : ℕ) → p x ≡ false → trim_right p (s ++ (x ∷ [])) ≡ s ++ (x ∷ [])
  unfolding trim_right
  trim_right-last [] x h = ground arith
  trim_right-last (c ∷ s) x h = rw (trim_right-last s x h, is_empty-last s x) refl

  trim_right-head : (c : ℕ) (s : Text) → p c ≡ false → trim_right p (c ∷ s) ≡ c ∷ trim_right p s
  unfolding trim_right
  trim_right-head c s h = ground arith

  -- What is cut on the left leaves the last character, if it does not pass the test.
  trim_left-last :
      (s : Text) (x : ℕ) → p x ≡ false → (r : Text) × (trim_left p (s ++ (x ∷ [])) ≡ r ++ (x ∷ []))
  unfolding trim_left
  trim_left-last [] x h = ([], ground arith)
  trim_left-last (c ∷ s) x h = elim (Bool-cases (p c)) [
    | inl e ↦ let rest = trim_left-last s x h in (rest.0, rw (e, rest.1) refl)
    | inr e ↦ (c ∷ s, rw e refl)
  ]

is_blank-last : (s : Text) (x : ℕ) → is_space x ≡ false → is_blank (s ++ (x ∷ [])) ≡ false
unfolding is_blank trim_space trim
is_blank-last s x h =
    let cut = trim_left-last is_space s x h in
    rw (cut.1, trim_right-last is_space cut.0 x h, is_empty-last cut.0 x) refl

is_blank-head : (c : ℕ) (s : Text) → is_space c ≡ false → is_blank (c ∷ s) ≡ false
unfolding is_blank trim_space trim trim_left
is_blank-head c s h = rw (h, trim_right-head is_space c s h) refl

-- The first dash cuts the text; what stands behind it keeps the last character.
cut_dash-last :
    (p q : Text) (x : ℕ)
    → (b r : Text) × (cut_dash (p ++ (b'-' ∷ (q ++ (x ∷ [])))) ≡ some (b, r ++ (x ∷ [])))
unfolding cut_dash push_before
cut_dash-last [] q x = ([], q, refl)
cut_dash-last (c ∷ p) q x = elim (Bool-cases (c == b'-')) [
  | inl e ↦ ([], p ++ (b'-' ∷ q), rw (e, append_assoc p (b'-' ∷ q) (x ∷ [])) refl)
  | inr e ↦ let cut = cut_dash-last p q x in (c ∷ cut.0, cut.1, rw (e, cut.2) refl)
]

alnum_plain : (c : ℕ) → is_alnum c ≡ true → (is_space c ≡ false) × ((c == b'-') ≡ false)
unfolding is_alnum is_space
alnum_plain c h = (ground arith, ground arith)

-- A name with the prefix, a letter or digit behind it, and a later dash with something behind that.
named : ℕ → Text → Text → ℕ → Text
unfolding codes
named a p q x = codes "garm-" ++ (a ∷ (p ++ (b'-' ∷ (q ++ (x ∷ [])))))

plausible-named :
    (a : ℕ) (p q : Text) (x : ℕ)
    → is_alnum a ≡ true
    → is_space x ≡ false
    → plausible_managed_app_name (named a p q x) ≡ true
unfolding plausible_managed_app_name named cut_dash push_before two_parts
plausible-named a p q x h k =
    let cut = cut_dash-last p q x in
    rw ((alnum_plain a h).1, cut.2)
      (rw (is_blank-head a cut.0 (alnum_plain a h).0, is_blank-last cut.1 x k) refl)

hex_digit-space : (n : ℕ) → n < 16 → is_space (hex_digit n) ≡ false
unfolding hex_digit is_space
hex_digit-space n h = ground arith

-- The last character of an encoded text.
hex_encode-last :
    (b : ℕ) (bs : List ℕ)
    → (q : Text) × (x : ℕ) × (hex_encode (b ∷ bs) ≡ q ++ (x ∷ [])) × (is_space x ≡ false)
unfolding hex_encode
hex_encode-last b [] =
    (hex_digit (b / 16) ∷ [], hex_digit (b % 16), refl, hex_digit-space (b % 16) (omega arith))
hex_encode-last b (c ∷ bs) =
    let rest = hex_encode-last c bs in
    (hex_digit (b / 16) ∷ hex_digit (b % 16) ∷ rest.0, rest.1, rw rest.2 refl, rest.3)

-- A slug that is not empty begins and ends in a letter or digit.
slug-ends :
    (t : Text)
    → is_slug b'-' t ≡ true
    → is_empty t ≡ false
    → (a : ℕ) × (u : Text) × (t ≡ a ∷ u) × (is_alnum a ≡ true) × EndsIn is_alnum t
unfolding is_slug slug_from
slug-ends [] h k = cc
slug-ends (c ∷ t) h k = (c, t, refl, ground arith, slug_from-EndsIn c t true (ground arith))

clip-head : (a : ℕ) (u : Text) → (v : Text) × (clip (a ∷ u) ≡ a ∷ v)
unfolding clip
clip-head a u = elim (Bool-cases (ltb 12 (length (a ∷ u)))) [
  | inl e ↦ (take 11 u, rw e refl)
  | inr e ↦ (u, rw e refl)
]

-- No dash at the end of a name that ends in another character.
trim-named :
    (a : ℕ) (p q : Text) (x : ℕ)
    → (x == b'-') ≡ false
    → trim is_dash (named a p q x) ≡ named a p q x
unfolding trim trim_left named codes
trim-named a p q x h =
    let whole = trim_right-last is_dash (codes "garm-" ++ (a ∷ (p ++ (b'-' ∷ q)))) x h in
    rw (append_assoc p (b'-' ∷ q) (x ∷ [])) at whole

raw_name-of :
    (controller_id requested : Text) (a : ℕ) (v q : Text) (x : ℕ)
    → clip (sanitize controller_id) ≡ a ∷ v
    → sanitize requested ≡ q ++ (x ∷ [])
    → (x == b'-') ≡ false
    → raw_name controller_id requested ≡ named a v q x
unfolding raw_name named codes
raw_name-of controller_id requested a v q x first second h =
    rw (first, second) (trim-named a v q x h)

raw_name-named :
    (controller_id requested : Text)
    → is_empty (sanitize controller_id) ≡ false
    → is_empty (sanitize requested) ≡ false
    → (a : ℕ) × (p q : Text) × (x : ℕ) × (raw_name controller_id requested ≡ named a p q x)
      × (is_alnum a ≡ true)
      × (is_alnum x ≡ true)
raw_name-named controller_id requested hc hr =
    let first = slug-ends (sanitize controller_id) (sanitize-is_slug controller_id) hc in
    let last = (slug-ends (sanitize requested) (sanitize-is_slug requested) hr).4 in
    let head = clip-head first.0 first.1 in
    (
      first.0,
      head.0,
      last.0,
      last.1,
      raw_name-of controller_id requested first.0 head.0 last.0 last.1 (ap clip first.2 ∙ head.1)
          last.2 (alnum_plain last.1 last.3).1,
      first.3,
      last.3,
    )

module _ (sha256 : Text → List ℕ) (digest : IsDigest sha256) where
  -- The head of a digest, in digits.
  suffix-last :
      (bs : List ℕ)
      → length (take 4 bs) ≡ 4
      → (q : Text) × (x : ℕ) × (hex_encode (take 4 bs) ≡ q ++ (x ∷ [])) × (is_space x ≡ false)
  suffix-last [] h = absurd (omega (arith, h))
  suffix-last (b ∷ bs) h = hex_encode-last b (take 3 bs)

  prefix-named :
      (a : ℕ) (t : Text)
      → (a == b'-') ≡ false
      → trim is_dash (take 31 (codes "garm-" ++ (a ∷ t)))
        ≡ codes "garm-" ++ (a ∷ trim_right is_dash (take 25 t))
  unfolding trim trim_left trim_right codes
  prefix-named a t h = rw (trim_right-head is_dash a (take 25 t) h) refl

  shorten-eq :
      (raw : Text)
      → shorten sha256 raw ≡ trim is_dash (take 31 raw) ++ (b'-' ∷ hex_encode (take 4 (sha256 raw)))
  unfolding shorten codes
  shorten-eq raw = rw (length-suffix sha256 digest raw) refl

  shorten-named :
      (a : ℕ) (p q : Text) (x : ℕ)
      → is_alnum a ≡ true
      → plausible_managed_app_name (shorten sha256 (named a p q x)) ≡ true
  shorten-named a p q x h =
      let raw = named a p q x in
      let tail = p ++ (b'-' ∷ (q ++ (x ∷ []))) in
      let bytes =
        suffix-last (sha256 raw) (length-take 4 (sha256 raw) (omega (arith, digest raw))) in
      rw (shorten-eq raw) (
        unfold named codes in
        rw (prefix-named a tail (alnum_plain a h).1, bytes.2)
          (plausible-named a (trim_right is_dash (take 25 tail)) bytes.0 bytes.1 h bytes.3))

  -- With a digest of 32 bytes, a name that `ownedName` makes of a controller and a runner whose
  -- names each have a character that `sanitize` keeps is one that `ListApps` looks at.
  pub plausible_managed_app_name-owned_name :
      (controller_id requested : Text)
      → is_empty (sanitize controller_id) ≡ false
      → is_empty (sanitize requested) ≡ false
      → plausible_managed_app_name (owned_name sha256 controller_id requested) ≡ true
  unfolding owned_name
  plausible_managed_app_name-owned_name controller_id requested hc hr =
      let raw = raw_name-named controller_id requested hc hr in
      elim (Bool-cases (leb (length (raw_name controller_id requested)) 40)) [
        | inl short ↦
            rw (short, raw.4)
              (plausible-named raw.0 raw.1 raw.2 raw.3 raw.5 (alnum_plain raw.3 raw.6).0)
        | inr long ↦ rw (long, raw.4) (shorten-named raw.0 raw.1 raw.2 raw.3 raw.5)
      ]
