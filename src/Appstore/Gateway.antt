-- ===== src/Appstore/Gateway.antt =====
-- internal/truenasstore/host_gateway.go: the policy that lets a runner reach GARM's host under the
-- name in its callback URL. What packages url and net parse is a parameter.
pub mod Policy
use garm_provider_truenas.Base.{
  Bool, true, false, not, ◌&&◌, ◌||◌, List, [], ◌∷◌, ◌++◌, Option, none, some, if◌then◌else◌,
  is_empty, Error, sentinel, message, wrap, unsupported, Result, ok, err, and_then, String,
}
use garm_provider_truenas.Base.Dict.{Dict}
use garm_provider_truenas.Base.Json.{Value, string, array, object, end, item, Fields, close, field}
use garm_provider_truenas.Base.Text.{
  Text, codes, text_eq, text_lt, trim_space, to_lower, equal_fold,
}
use garm_provider_truenas.Kit.{Kit}
use garm_provider_truenas.Provider.{AppSpec}
use garm_provider_truenas.Appstore.Reading.{
  get_field, as_object, label_map, string_map, string_list, is_list, text_at, has_key, has_field,
}
use garm_provider_truenas.Appstore.Decode.{
  ManagedApp, compose_object, as_map, or_err, label_gateway,
}

-- What `url.Parse` finds in a URL: its scheme, its host, and the host without a port.
pub record UrlParts : Type 0 where
  pub scheme : Text
  pub host : Text
  pub hostname : Text

pub record Network : Type 0 where
  pub parse_url : Text → Option UrlParts
  -- `net.ParseIP(host) != nil`
  pub is_ip : Text → Bool

-- `if bad { return errors.New(text) }`
abbrev pub refuse_if : Bool → String → Result (Unit {0})
refuse_if true text = err (message text)
refuse_if false text = ok tt

host_of : Network → Option UrlParts → Result Text
unfolding trim_space
host_of net none = err (message "URL is invalid")
host_of net (some parts) =
    let host = trim_space parts.hostname in
    and_then
      (refuse_if (not (text_eq parts.scheme (codes "https")) || is_empty parts.host)
        "must be an absolute https URL")
      λ _. and_then (refuse_if (is_empty host) "has no hostname") λ _.
        and_then (refuse_if (net.is_ip host) "must use a DNS hostname, not an IP literal")
          λ _. ok host

unfoldable pub callback_gateway_hostname : Network → Text → Result Text
unfolding host_of
callback_gateway_hostname net raw = host_of net (net.parse_url raw)

unfoldable pub callback_host_gateway_entry : Network → Text → Text → Result Text
unfolding callback_gateway_hostname to_lower
callback_host_gateway_entry net callback_url metadata_url =
    and_then (callback_gateway_hostname net callback_url) λ callback_host.
      and_then (callback_gateway_hostname net metadata_url) λ metadata_host.
        and_then
          (refuse_if (not (equal_fold callback_host metadata_host))
            "callback and metadata URLs must use the same DNS hostname")
          λ _. ok (to_lower callback_host ++ codes ":host-gateway")

-- `m[key] = value`, where the keys stand in the order in which a map is written.
unfoldable pub put_field : Text → Value → Fields → Fields
unfolding text_lt
put_field key value close = field key value close
put_field key value (field k w rest) =
    let later = field k w (put_field key value rest) in
    if text_eq k key
    then field key value rest
    else (if text_lt key k then field key value (field k w rest) else later)

-- The policy's error keeps `ErrUnsupported` only; its cause is formatted with `%v`.
policy_entry : Result Text → Result Text
policy_entry (ok entry) = ok entry
policy_entry (err e) = err (wrap "callback host-gateway policy" (sentinel unsupported))

-- The document with the entry and the label put in.
with_gateway : Fields → Fields → Fields → Fields → Text → Fields
unfolding put_field
with_gateway doc services runner labels entry =
    let labelled = object (put_field label_gateway (string (codes "true")) labels) in
    let hosts = array (item (string entry) end) in
    let runner' =
      put_field (codes "extra_hosts") hosts (put_field (codes "labels") labelled runner) in
    put_field (codes "services") (object (put_field (codes "runner") (object runner') services)) doc

unfoldable pub add_gateway : Text → Fields → Result Fields
unfolding as_object get_field has_field or_err with_gateway
add_gateway entry doc =
    and_then
      (or_err (message "fixed runner Compose has no services object")
        (as_object (get_field (codes "services") doc)))
      λ services.
        and_then
          (or_err (message "fixed runner Compose has no runner service")
            (as_object (get_field (codes "runner") services)))
          λ runner.
            and_then
              (or_err (message "fixed runner Compose has no label object")
                (as_object (get_field (codes "labels") runner)))
              λ labels.
                if has_field (codes "extra_hosts") runner
                then err (
                    wrap "fixed runner Compose unexpectedly already contains extra_hosts"
                      (sentinel unsupported))
                else ok (with_gateway doc services runner labels entry)

unfoldable pub apply_callback_host_gateway : Kit → Network → Text → AppSpec → Bool → Result Text
unfolding policy_entry callback_host_gateway_entry as_map add_gateway
apply_callback_host_gateway kit net compose spec false = ok compose
apply_callback_host_gateway kit net compose spec true =
    and_then (policy_entry (callback_host_gateway_entry net spec.callback_url spec.metadata_url))
      λ entry.
        and_then (as_map (kit.json.unmarshal compose))
          λ doc. and_then (add_gateway entry doc) λ changed. ok (kit.json.marshal (object changed))

-- A managed app's runner service, and its labels.
managed_runner : Kit → ManagedApp → Result (Fields × Dict Text)
unfolding compose_object as_object get_field string_map or_err
managed_runner kit app = and_then (compose_object kit.json app.config) λ compose.
    and_then
      (or_err (message "managed app config has no services object")
        (as_object (get_field (codes "services") compose)))
      λ services.
        and_then
          (or_err (message "managed app config has no runner service")
            (as_object (get_field (codes "runner") services)))
          λ runner.
            and_then
              (or_err (message "labels are not readable")
                (label_map (get_field (codes "labels") runner)))
              λ labels. ok (runner, labels)

-- The policy is on: the label, and the one entry that the URLs call for.
validate_enabled : Network → Fields → Dict Text → Result (Unit {0})
unfolding callback_host_gateway_entry is_list text_at string_map or_err get_field has_key
validate_enabled net runner labels =
    and_then
      (refuse_if
        (not (has_key label_gateway labels)
          || not (text_eq (text_at label_gateway labels) (codes "true")))
        "managed app is missing enabled callback host-gateway ownership metadata")
      λ _.
        and_then
          (or_err (message "read managed app environment")
            (string_map (get_field (codes "environment") runner)))
          λ environment.
            and_then
              (callback_host_gateway_entry net (text_at (codes "GARM_CALLBACK_URL") environment)
                (text_at (codes "GARM_METADATA_URL") environment))
              λ entry.
                refuse_if (not (is_list (get_field (codes "extra_hosts") runner) (entry ∷ [])))
                  "managed app callback host-gateway mapping drifted"

-- The policy is off: neither the label nor an entry.
validate_disabled : Fields → Dict Text → Result (Unit {0})
unfolding has_key has_field
validate_disabled runner labels =
    refuse_if (has_key label_gateway labels || has_field (codes "extra_hosts") runner)
      "managed app carries callback host-gateway state while policy is disabled"

unfoldable pub validate_callback_host_gateway_app_config :
    Kit → Network → ManagedApp → Bool → Result (Unit {0})
unfolding managed_runner validate_enabled validate_disabled
validate_callback_host_gateway_app_config kit net app expected =
    and_then (managed_runner kit app) λ (runner, labels).
      if expected then validate_enabled net runner labels else validate_disabled runner labels
