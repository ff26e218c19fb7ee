-- ===== src/Ownership.antt =====
-- The `ownership` record of internal/vmbackend/manager.go and internal/containerbackend/manager.go,
-- which both keep as JSON in the description of what they create.
pub mod RoundTrip
use garm_provider_truenas.Base.{Bool, ◌||◌, Option, none, some, if◌then◌else◌}
use garm_provider_truenas.Base.Text.{Text, codes, equal_fold}
use garm_provider_truenas.Base.Json.{Value, null, string, object, Fields, close, field, Json}

pub record Ownership : Type 0 where
  pub schema : Text
  pub managed_by : Text
  pub controller_id : Text
  pub pool_id : Text
  pub runner_name : Text
  pub profile : Text

abbrev pub no_owner : Ownership
no_owner = record {
  schema = codes "";
  managed_by = codes "";
  controller_id = codes "";
  pool_id = codes "";
  runner_name = codes "";
  profile = codes "";
}

unfoldable pub ownership_value : Ownership → Value
ownership_value owner = object (
    field (codes "schema") (string owner.schema) (
      field (codes "managed_by") (string owner.managed_by) (
        field (codes "controller_id") (string owner.controller_id) (
          field (codes "pool_id") (string owner.pool_id) (
            field (codes "runner_name") (string owner.runner_name)
              (field (codes "profile") (string owner.profile) close))))))

-- The struct field that a key names, whatever its case; other keys are ignored.
set_field : Text → Text → Ownership → Ownership
set_field key text owner =
    if equal_fold key (codes "schema")
    then record owner { schema = text }
    else (if equal_fold key (codes "managed_by")
        then record owner { managed_by = text }
        else (if equal_fold key (codes "controller_id")
            then record owner { controller_id = text }
            else (if equal_fold key (codes "pool_id")
                then record owner { pool_id = text }
                else (if equal_fold key (codes "runner_name")
                    then record owner { runner_name = text }
                    else (if equal_fold key (codes "profile")
                        then record owner { profile = text }
                        else owner)))))

is_field : Text → Bool
is_field key =
    equal_fold key (codes "schema")
    || equal_fold key (codes "managed_by")
    || equal_fold key (codes "controller_id")
    || equal_fold key (codes "pool_id")
    || equal_fold key (codes "runner_name")
    || equal_fold key (codes "profile")

-- `null` leaves a field as it is; another type than a string is an error.
decode_field : Text → Value → Ownership → Option Ownership
unfolding set_field is_field
decode_field key (string text) owner = some (set_field key text owner)
decode_field key null owner = some owner
decode_field key _ owner = if is_field key then none else some owner

abbrev chain : Option Ownership → (Ownership → Option Ownership) → Option Ownership
chain none f = none
chain (some owner) f = f owner

decode_fields : Fields → Ownership → Option Ownership
unfolding decode_field
decode_fields close owner = some owner
decode_fields (field key value rest) owner =
    chain (decode_field key value owner) (decode_fields rest)

decode_value : Option Value → Option Ownership
unfolding decode_fields
decode_value none = none
decode_value (some (object fields)) = decode_fields fields no_owner
decode_value (some null) = some no_owner
decode_value (some _) = none

unfoldable pub encode_ownership : Json → Ownership → Text
unfolding ownership_value
encode_ownership json owner = json.marshal (ownership_value owner)

unfoldable pub decode_ownership : Json → Text → Option Ownership
unfolding decode_value
decode_ownership json raw = decode_value (json.unmarshal raw)
