-- ===== src/Provider/Names/Distinct.antt =====
-- internal/provider/provider.go: names that `ownedName` shortens do not collide unless their digests
-- do.
use garm_provider_truenas.Base.{
  ℕ, ◌≡◌, ◌<◌, ◌/◌, ◌%◌, refl, ap, sym, ◌∙◌, false, List, [], ◌∷◌, ◌++◌, arith, length, take, All,
  leb, length-append,
}
use garm_provider_truenas.Base.Hex.{hex_digit, hex_encode, IsDigest}
use garm_provider_truenas.Base.Text.{Text, codes}
use garm_provider_truenas.Provider.Names.{raw_name, shorten, owned_name}
use garm_provider_truenas.Provider.Names.Bounds.{length-suffix}

hex_digit_injective : (a b : ℕ) → a < 16 → b < 16 → hex_digit a ≡ hex_digit b → a ≡ b
unfolding hex_digit
hex_digit_injective a b h k e = ground arith

hex_encode_injective :
    (ys bs : List ℕ)
    → All (λ b. b < 256) ys
    → All (λ b. b < 256) bs
    → hex_encode ys ≡ hex_encode bs
    → ys ≡ bs
unfolding hex_encode
hex_encode_injective [] [] h k e = refl
hex_encode_injective [] (b ∷ bs) h k e = cc
hex_encode_injective (a ∷ ys) [] h k e = cc
hex_encode_injective (a ∷ ys) (b ∷ bs) h k e =
    let high : hex_digit (a / 16) ≡ hex_digit (b / 16) = cc e in
    let low : hex_digit (a % 16) ≡ hex_digit (b % 16) = cc e in
    let rest : ys ≡ bs = hex_encode_injective ys bs h.1 k.1 (cc e) in
    let tens =
      hex_digit_injective (a / 16) (b / 16) (omega (arith, h.0)) (omega (arith, k.0)) high in
    let ones = hex_digit_injective (a % 16) (b % 16) (omega arith) (omega arith) low in
    let same : a ≡ b = omega (arith, tens, ones) in cc (same, rest)

-- Two equal texts with tails of one length have the same tail.
append-tail : (ys bs cs ds : Text) → length cs ≡ length ds → ys ++ cs ≡ bs ++ ds → cs ≡ ds
append-tail [] [] cs ds h e = e
append-tail (a ∷ ys) (b ∷ bs) cs ds h e = append-tail ys bs cs ds h (cc e)
append-tail [] (b ∷ bs) cs ds h e = absurd (omega (arith, h, ap length e, length-append bs ds))
append-tail (a ∷ ys) [] cs ds h e = absurd (omega (arith, h, ap length e, length-append ys cs))

module _ (sha256 : Text → List ℕ) (digest : IsDigest sha256)
    (bytes : (t : Text) → All (λ b. b < 256) (take 4 (sha256 t))) where
  shorten-suffix :
      (raw raw' : Text)
      → shorten sha256 raw ≡ shorten sha256 raw'
      → hex_encode (take 4 (sha256 raw)) ≡ hex_encode (take 4 (sha256 raw'))
  unfolding shorten codes
  shorten-suffix raw raw' e =
      let tails =
        append-tail _ _ (b'-' ∷ hex_encode (take 4 (sha256 raw)))
          (b'-' ∷ hex_encode (take 4 (sha256 raw')))
          (omega (arith, length-suffix sha256 digest raw, length-suffix sha256 digest raw')) e in
      cc tails

  owned_name-long :
      (controller_id requested : Text)
      → 40 < length (raw_name controller_id requested)
      → owned_name sha256 controller_id requested
        ≡ shorten sha256 (raw_name controller_id requested)
  unfolding owned_name
  owned_name-long c r long =
      let too_long : leb (length (raw_name c r)) 40 ≡ false = ground (arith, long) in
      rw too_long refl

  -- With a digest of 32 bytes: two names of more than 40 characters whose digests differ in the first
  -- four bytes, unless the names are the same, are given the same app name only if they are the same.
  pub owned_name_injective :
      (controller_id requested controller_id' requested' : Text)
      → 40 < length (raw_name controller_id requested)
      → 40 < length (raw_name controller_id' requested')
      → (take 4 (sha256 (raw_name controller_id requested))
            ≡ take 4 (sha256 (raw_name controller_id' requested'))
          → raw_name controller_id requested ≡ raw_name controller_id' requested')
      → owned_name sha256 controller_id requested ≡ owned_name sha256 controller_id' requested'
      → raw_name controller_id requested ≡ raw_name controller_id' requested'
  owned_name_injective c r c' r' long long' distinct e = distinct (
      hex_encode_injective (take 4 (sha256 (raw_name c r))) (take 4 (sha256 (raw_name c' r')))
        (bytes (raw_name c r)) (bytes (raw_name c' r'))
        (shorten-suffix (raw_name c r) (raw_name c' r')
          (sym (owned_name-long c r long) ∙ e ∙ owned_name-long c' r' long')))
