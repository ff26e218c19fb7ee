-- ===== src/Appstore/Decode.antt =====
-- internal/truenasstore/store.go: `decodeApp`, which reads an app back from the configuration that
-- TrueNAS keeps. What Go makes of a JSON number is a parameter: its value, if it is an integer.
pub mod Guards
pub mod RoundTrip
pub mod Profile
pub mod Fixed
pub mod Gated
unfoldable pub use Guards.*
use garm_provider_truenas.Base.{
  ℕ, Bool, true, false, not, ◌&&◌, ◌||◌, List, [], ◌∷◌, Option, none, some, if◌then◌else◌, length,
  ◌==◌, String, Error, sentinel, message, wrap, managed_drift, unmanaged, Result, ok, err, and_then,
}
use garm_provider_truenas.Base.Dict.{Dict, lookup}
use garm_provider_truenas.Base.Int.{ℤ, pos, int_eq}
use garm_provider_truenas.Base.Json.{
  Json, Value, null, number, string, object, Fields, close, field,
}
use garm_provider_truenas.Base.Text.{Text, codes, text_eq, is_blank, trim_space}
use garm_provider_truenas.Kit.{Kit}
use garm_provider_truenas.Provider.{
  App, AppSpec, runner_image, flavor_linux_general, general_cpu, general_memory_bytes,
  runner_tool_url, runner_tool_filename, runner_tool_sha256,
}
use garm_provider_truenas.Appstore.{map_state, container_bootstrap_command, credential_tmpfs_mount}
use garm_provider_truenas.Appstore.Reading.{
  get_field, count_fields, as_object, label_map, string_map, is_text, is_list, text_at, has_key,
  has_field, has_all, only_keys, only_entries, has_entries,
}

-- `truenas.App`, as far as it is read; a configuration may be nil.
pub record ManagedApp : Type 0 where
  pub name : Text
  pub state : Text
  pub config : Option Fields

-- `number.Int64()`, where it is an integer.
unfoldable pub as_map : Option Value → Result Fields
as_map (some (object fields)) = ok fields
as_map (some null) = ok close
as_map _ = err (message "parse returned custom Compose JSON")

-- One of the two keys under which a Compose document may stand; nothing if it holds none.
custom : Json → Option Value → Option (Result Fields)
unfolding as_map
custom json (some (object fields)) = some (ok fields)
custom json (some (string text)) =
    if is_blank text then none else some (as_map (json.unmarshal text))
custom json _ = none

first_custom : Option (Result Fields) → Option (Result Fields) → Result Fields
first_custom (some found) _ = found
first_custom none (some found) = found
first_custom none none = err (message "no recoverable custom Compose payload")

unfoldable pub compose_object : Json → Option Fields → Result Fields
unfolding custom first_custom get_field has_field codes
compose_object json none = err (message "managed app configuration was not returned")
compose_object json (some config) =
    if has_field (codes "services") config
    then ok config
    else first_custom (custom json (get_field (codes "custom_compose_config") config))
        (custom json (get_field (codes "custom_compose_config_string") config))

decoded : ManagedApp → Text → Text → Text → Dict Text → App
unfolding text_at map_state
decoded app controller_id pool_id profile env = record {
  spec = record {
    name = app.name;
    image = runner_image;
    controller_id = controller_id;
    pool_id = pool_id;
    cpu = general_cpu;
    memory_bytes = general_memory_bytes;
    run_as_user = codes "1001:1001";
    cap_drop = codes "ALL" ∷ [];
    no_new_privileges = true;
    workdir_tmpfs = false;
    credential_tmpfs = true;
    host_mounts = [];
    docker_socket = false;
    callback_url = text_at (codes "GARM_CALLBACK_URL") env;
    metadata_url = text_at (codes "GARM_METADATA_URL") env;
    bootstrap_token = [];
    runner_download_url = text_at (codes "GARM_RUNNER_DOWNLOAD_URL") env;
    runner_filename = text_at (codes "GARM_RUNNER_FILENAME") env;
    runner_sha256 = text_at (codes "GARM_RUNNER_SHA256") env;
    execution_profile = profile;
  };
  state = map_state app.state;
}

-- A label, with the blanks around it taken off.
label : Text → Dict Text → Text
unfolding text_at
label key labels = trim_space (text_at key labels)

label_guards : Fields → Dict Text → List (Bool × String)
unfolding count_fields text_at label
label_guards services labels =
    (not (count_fields services == 1), "managed app contains unexpected services")
    ∷ (
      not (text_eq (text_at (codes "io.sempersupra.garm.schema") labels) (codes "1")),
      "unsupported ownership metadata schema",
    )
    ∷ (
      text_eq (label (codes "io.sempersupra.garm.controller-id") labels) []
          || text_eq (label (codes "io.sempersupra.garm.pool-id") labels) []
          || text_eq (label (codes "io.sempersupra.garm.execution-profile") labels) [],
      "managed app ownership metadata is incomplete",
    )
    ∷ (
      not (
          text_eq (label (codes "io.sempersupra.garm.execution-profile") labels)
            flavor_linux_general),
      "managed app execution profile drifted",
    )
    ∷ []

decode_managed : Kit → ReadInteger → ManagedApp → Fields → Fields → Dict Text → Result App
unfolding label validate_fixed_runner_service decoded first_drift label_guards
decode_managed kit read app services runner labels =
    and_then (first_drift (label_guards services labels)) λ _.
      and_then (validate_fixed_runner_service kit read runner labels) λ env. ok (
        decoded app (label (codes "io.sempersupra.garm.controller-id") labels)
          (label (codes "io.sempersupra.garm.pool-id") labels)
          (label (codes "io.sempersupra.garm.execution-profile") labels) env)

decode_labelled : Kit → ReadInteger → ManagedApp → Fields → Fields → Dict Text → Result App
unfolding text_at decode_managed
decode_labelled kit read app services runner labels =
    if not (text_eq (text_at (codes "io.sempersupra.garm.managed") labels) (codes "true"))
    then err (sentinel unmanaged)
    else decode_managed kit read app services runner labels

unfoldable pub decode_app : Kit → ReadInteger → ManagedApp → Result App
unfolding compose_object as_object string_map decode_labelled or_err
decode_app kit read app = and_then (compose_object kit.json app.config) λ compose.
    and_then
      (or_err (message "managed app config has no services object")
        (as_object (get_field (codes "services") compose)))
      λ services.
        and_then
          (or_err (message "managed app config has no runner service")
            (as_object (get_field (codes "runner") services)))
          λ runner.
            and_then
              (or_err (message "managed app runner service has no readable labels")
                (label_map (get_field (codes "labels") runner)))
              λ labels. decode_labelled kit read app services runner labels
