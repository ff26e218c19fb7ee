-- ===== src/Command/Contract.antt =====
-- cmd/garm-provider-truenas/garm_provider.go: the contract that GARM's bootstrap must meet. What
-- package url parses is a parameter: the scheme and the host of a text, if it parses.
pub mod Accepts
use garm_provider_truenas.Base.{
  ℕ, ◌≡◌, refl, Bool, true, false, not, ◌&&◌, ◌||◌, List, [], ◌∷◌, Option, none, some,
  if◌then◌else◌, is_empty, arith, String, Error, message, Result, ok, err, and_then,
}
use garm_provider_truenas.Base.Json.{Json, Value, null, string, object, Fields, close, field}
use garm_provider_truenas.Base.Text.{Text, codes, text_eq, trim_space, is_blank}
use garm_provider_truenas.Provider.{Bootstrap, flavor_linux_general, runner_image}
use garm_provider_truenas.Command.{BootstrapInstance, refuse_if}
use garm_provider_truenas.Command.RunnerTool.{validate_runner_tool_contract}

-- `url.Parse`: the scheme and the host.
abbrev pub ParseUrl : Type 0
ParseUrl = Text → Option (Text × Text)

check_https : Option (Text × Text) → Result (Unit {0})
check_https none = err (message "url is invalid")
check_https (some (scheme, host)) =
    refuse_if (not (text_eq scheme (codes "https")) || is_empty host)
      "url must use an absolute https URL"

unfoldable pub require_https : ParseUrl → Text → Result (Unit {0})
unfolding check_https
require_https parse raw = check_https (parse raw)

-- The trimmed text is empty or `null`.
is_no_specs : Text → Bool
is_no_specs raw = let t = trim_space raw in is_empty t || text_eq t (codes "null")

-- `json.Unmarshal` into a map: an object, or `null` for an empty one.
as_map : Option Value → Option Fields
as_map (some (object fields)) = some fields
as_map (some null) = some close
as_map _ = none

empty_specs : Option Fields → Result (Unit {0})
empty_specs none = err (message "extra specs must be a JSON object")
empty_specs (some close) = ok tt
empty_specs (some (field key value rest)) =
    err (message "extra specs are not supported by the fixed MVP profile")

unfoldable pub validate_empty_extra_specs : Json → Text → Result (Unit {0})
unfolding is_no_specs as_map empty_specs
validate_empty_extra_specs json raw =
    if is_no_specs raw then ok tt else empty_specs (as_map (json.unmarshal raw))

-- A `null` is read into a string as the empty one.
check_template : Value → Result (Unit {0})
check_template (string template) =
    refuse_if (is_blank template)
      "GARM runner_install_template compatibility metadata must not be empty"
check_template null =
    err (message "GARM runner_install_template compatibility metadata must not be empty")
check_template _ =
    err (message "GARM runner_install_template compatibility metadata must be a string")

-- The fields of an object that lists no key twice.
create_specs : Option Fields → Result (Unit {0})
unfolding check_template
create_specs none = err (message "extra specs must be a JSON object")
create_specs (some close) = ok tt
create_specs (some (field key value close)) =
    if text_eq key (codes "runner_install_template")
    then check_template value
    else err (message "create extra specs may only contain runner_install_template")
create_specs (some (field key value (field key' value' rest))) =
    err (message "create extra specs may only contain runner_install_template")

unfoldable pub validate_create_extra_specs : Json → Text → Result (Unit {0})
unfolding is_no_specs as_map create_specs
validate_create_extra_specs json raw =
    if is_no_specs raw then ok tt else create_specs (as_map (json.unmarshal raw))

-- The last part of `validateBootstrapContract`: what the fixed profile does not offer.
validate_options : Json → BootstrapInstance → Result (Unit {0})
unfolding validate_create_extra_specs
validate_options json b =
    and_then
      (refuse_if (not (is_empty b.ssh_keys))
        "SSH key injection is not supported by the fixed container profile")
      λ _.
        and_then
          (refuse_if (not (is_empty b.ca_cert_bundle))
            "custom CA bundles are not yet supported by the fixed container profile")
          λ _.
            and_then
              (refuse_if b.has_proxy
                "runner proxy configuration is not yet supported by the fixed container profile")
              λ _.
                and_then
                  (refuse_if
                    (b.disable_updates_on_boot
                      || b.enable_boot_debug
                      || not (is_empty b.extra_packages))
                    "VM/cloud-init user-data options are not supported by the container profile")
                  λ _. validate_create_extra_specs json b.extra_specs

-- The middle part. Go visits the fields of its two maps in any order, which shows in the message of
-- the error only.
validate_fields : ParseUrl → BootstrapInstance → Result (Unit {0})
unfolding require_https
validate_fields parse b =
    and_then (refuse_if (not b.jit_config_enabled) "JIT runner configuration is required") λ _.
      and_then
        (refuse_if (is_blank b.name || is_blank b.pool_id) "runner name and pool ID are required")
        λ _.
          and_then
            (refuse_if
              (is_blank b.repo_url
                || is_blank b.callback_url
                || is_blank b.metadata_url
                || is_blank b.instance_token)
              "a field is required")
            λ _. and_then (require_https parse b.repo_url) λ _.
              and_then (require_https parse b.callback_url) λ _. require_https parse b.metadata_url

unfoldable pub validate_bootstrap_contract : Json → ParseUrl → BootstrapInstance → Result (Unit {0})
unfolding validate_fields validate_options
validate_bootstrap_contract json parse b =
    and_then (refuse_if (not (text_eq b.os_type (codes "linux"))) "os_type is unsupported") λ _.
      and_then (refuse_if (not (text_eq b.os_arch (codes "amd64"))) "arch is unsupported") λ _.
        and_then (refuse_if (not (text_eq b.flavor flavor_linux_general)) "flavor is unsupported")
          λ _.
            and_then
              (refuse_if (not (text_eq b.image runner_image))
                "image is not the fixed TrueNAS runner image")
              λ _.
                and_then (validate_runner_tool_contract b.tools)
                  λ _. and_then (validate_fields parse b) λ _. validate_options json b

-- What `CreateInstance` hands to the manager.
unfoldable pub to_bootstrap : BootstrapInstance → Bootstrap
to_bootstrap b = record {
  name = b.name;
  os_type = b.os_type;
  arch = b.os_arch;
  flavor = b.flavor;
  pool_id = b.pool_id;
  callback_url = b.callback_url;
  metadata_url = b.metadata_url;
  token = b.instance_token;
}
