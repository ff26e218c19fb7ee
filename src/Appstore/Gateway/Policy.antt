-- ===== src/Appstore/Gateway/Policy.antt =====
-- internal/truenasstore/host_gateway.go: the Compose documents that are sent with the policy on and
-- off, and which of them `validateCallbackHostGatewayAppConfig` takes.
use garm_provider_truenas.Base.{
  ◌≡◌, refl, Bool, true, false, not, some, arith, Result, ok, err, if◌then◌else◌,
}
use garm_provider_truenas.Base.Json.{Fields, close}
use garm_provider_truenas.Base.Text.{Text, codes, text_eq, text_eq_refl, text_lt}
use garm_provider_truenas.Kit.{Kit}
use garm_provider_truenas.Provider.{AppSpec}
use garm_provider_truenas.Appstore.{runner_service, labels, environment}
use garm_provider_truenas.Appstore.Reading.{
  get_field, string_map, string_list, is_list, text_at, has_field, has_key, as_object,
}
use garm_provider_truenas.Appstore.Decode.{compose_object, or_err}
use garm_provider_truenas.Appstore.Decode.RoundTrip.{kept}
use garm_provider_truenas.Appstore.Gateway.{
  Network, callback_host_gateway_entry, put_field, with_gateway, add_gateway, managed_runner,
  validate_enabled, validate_disabled, validate_callback_host_gateway_app_config,
}

-- The same document with the policy on.
unfoldable pub gated : Kit → AppSpec → Text → Fields
unfolding add_gateway with_gateway runner_service labels
gated kit spec entry = elim (add_gateway entry (kept kit spec)) [
  | ok fields ↦ fields
  | err e ↦ close
]

pub add_gateway-kept :
    (kit : Kit) (spec : AppSpec) (entry : Text)
    → add_gateway entry (kept kit spec) ≡ ok (gated kit spec entry)
unfolding gated add_gateway with_gateway put_field runner_service labels get_field has_field
    as_object text_eq text_lt codes or_err
add_gateway-kept kit spec entry = refl

-- The document that is sent, with the policy as it is set.
unfoldable pub sent : Kit → Bool → AppSpec → Text → Fields
unfolding gated
sent kit false spec entry = kept kit spec
sent kit true spec entry = gated kit spec entry

unfoldable pub is_accepted : Result (Unit {0}) → Bool
is_accepted (ok _) = true
is_accepted (err e) = false

-- A document that the store sent is accepted exactly if the policy is set now as it was when the
-- document was sent, where the URLs call for the entry that was put in.
pub validate-sent :
    (kit : Kit) (net : Network) (sent_with expected : Bool) (spec : AppSpec)
    (entry name state : Text)
    → callback_host_gateway_entry net spec.callback_url spec.metadata_url ≡ ok entry
    → is_accepted (
        validate_callback_host_gateway_app_config kit net
          (record { name = name; state = state; config = some (sent kit sent_with spec entry) })
          expected)
      ≡ (if sent_with then expected else not expected)
unfolding validate_callback_host_gateway_app_config managed_runner validate_enabled
    validate_disabled sent gated put_field runner_service labels environment get_field has_field
    has_key as_object string_map string_list is_list text_at text_eq text_lt codes or_err
    compose_object is_accepted
validate-sent kit net false false spec entry name state e = refl
validate-sent kit net false true spec entry name state e = refl
validate-sent kit net true false spec entry name state e = refl
validate-sent kit net true true spec entry name state e = ground (arith, e, text_eq_refl entry)

pub validate-kept :
    (kit : Kit) (net : Network) (spec : AppSpec) (name state : Text)
    → validate_callback_host_gateway_app_config kit net
        (record { name = name; state = state; config = some (kept kit spec) })
        false
      ≡ ok tt
unfolding validate_callback_host_gateway_app_config managed_runner validate_enabled
    validate_disabled sent gated put_field runner_service labels environment get_field has_field
    has_key as_object string_map string_list is_list text_at text_eq text_lt codes or_err
    compose_object is_accepted
validate-kept kit net spec name state = refl

pub of_is_accepted : (r : Result (Unit {0})) → is_accepted r ≡ true → r ≡ ok tt
unfolding is_accepted
of_is_accepted (ok _) h = refl
of_is_accepted (err e) h = cc
