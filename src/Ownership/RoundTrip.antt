-- ===== src/Ownership/RoundTrip.antt =====
-- The `ownership` record survives its way through a description.
use garm_provider_truenas.Base.{◌≡◌, refl, some}
use garm_provider_truenas.Base.Text.{codes, equal_fold}
use garm_provider_truenas.Base.Json.{Json, ReadsBack}
use garm_provider_truenas.Ownership.{
  Ownership, ownership_value, encode_ownership, decode_ownership, decode_value,
}

decode_value-ownership_value :
    (owner : Ownership) → decode_value (some (ownership_value owner)) ≡ some owner
unfolding decode_value ownership_value equal_fold codes
decode_value-ownership_value owner = refl

-- Where `json.Unmarshal` reads back what `json.Marshal` wrote, an owner that was encoded is decoded
-- to itself, field by field.
pub decode-encode_ownership :
    (json : Json) (owner : Ownership)
    → ReadsBack json (ownership_value owner)
    → decode_ownership json (encode_ownership json owner) ≡ some owner
unfolding decode_ownership encode_ownership
decode-encode_ownership json owner back = rw back (decode_value-ownership_value owner)
