-- ===== src/Provider/Names/Bounds.antt =====
-- internal/provider/provider.go: the length of the app names that `ownedName` makes.
use garm_provider_truenas.Base.{
  ℕ, ◌≤◌, ◌≡◌, List, arith, length, take, length-append, length-take-le, length-take,
  length-trim-le,
}
use garm_provider_truenas.Base.Text.{Text, codes}
use garm_provider_truenas.Base.Hex.{hex_encode, length-hex_encode, IsDigest}
use garm_provider_truenas.Provider.Names.{is_dash, raw_name, shorten, owned_name}

module _ (sha256 : Text → List ℕ) (digest : IsDigest sha256) where
  pub length-suffix : (t : Text) → length (hex_encode (take 4 (sha256 t))) ≡ 8
  length-suffix t = omega (
    arith,
    length-hex_encode (take 4 (sha256 t)),
    length-take 4 (sha256 t) (omega (arith, digest t)),
  )

  length-shorten-le : (raw : Text) → length (shorten sha256 raw) ≤ 40
  unfolding shorten codes
  length-shorten-le raw =
      rw (length-append, length-suffix raw)
        (omega
          (arith, length-suffix raw, length-trim-le is_dash (take 31 raw), length-take-le 31 raw))

  -- With a digest of 32 bytes, whatever the controller and the runner are called, the
  -- app's name has at most 40 characters.
  pub length-owned_name-le :
      (controller_id requested : Text) → length (owned_name sha256 controller_id requested) ≤ 40
  unfolding owned_name
  length-owned_name-le controller_id requested =
      ground (arith, length-shorten-le (raw_name controller_id requested))
