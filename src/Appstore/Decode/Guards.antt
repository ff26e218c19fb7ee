-- ===== src/Appstore/Decode/Guards.antt =====
-- internal/truenasstore/store.go: `validateFixedRunnerService`, the checks of a fixed runner.
use garm_provider_truenas.Base.{
  ℕ, Bool, true, false, not, ◌&&◌, ◌||◌, List, [], ◌∷◌, Option, none, some, if◌then◌else◌, length,
  ◌==◌, String, Error, sentinel, wrap, managed_drift, Result, ok, err, and_then,
}
use garm_provider_truenas.Base.Dict.{Dict}
use garm_provider_truenas.Base.Int.{ℤ, pos, int_eq}
use garm_provider_truenas.Base.Json.{Value, number, Fields}
use garm_provider_truenas.Base.Text.{Text, codes, text_eq, is_blank}
use garm_provider_truenas.Kit.{Kit}
use garm_provider_truenas.Provider.{
  runner_image, general_cpu, general_memory_bytes, runner_tool_url, runner_tool_filename,
  runner_tool_sha256,
}
use garm_provider_truenas.Appstore.{container_bootstrap_command, credential_tmpfs_mount}
use garm_provider_truenas.Appstore.Reading.{
  get_field, string_map, is_text, is_list, text_at, has_key, has_field, has_all, only_keys,
  only_entries, has_entries,
}

abbrev pub ReadInteger : Type 0
ReadInteger = Text → Option ℤ

abbrev pub drift : String → Error
drift text = wrap text (sentinel managed_drift)

-- A row of guards: the first that is met is the error.
unfoldable pub first_drift : List (Bool × String) → Result (Unit {0})
first_drift [] = ok tt
first_drift ((bad, text) ∷ rest) =
    let later = first_drift rest in if bad then err (drift text) else later

unfoldable pub same_integer : Option ℤ → ℕ → Bool
unfolding int_eq
same_integer none n = false
same_integer (some i) n = int_eq i (pos n)

unfoldable pub is_integer : ReadInteger → Option Value → ℕ → Bool
unfolding same_integer
is_integer read (some (number text)) n = same_integer (read text) n
is_integer read _ n = false

abbrev pub required_keys : List Text
required_keys =
    codes "image"
    ∷ codes "user"
    ∷ codes "restart"
    ∷ codes "entrypoint"
    ∷ codes "cap_drop"
    ∷ codes "security_opt"
    ∷ codes "cpus"
    ∷ codes "mem_limit"
    ∷ codes "tmpfs"
    ∷ codes "labels"
    ∷ codes "environment"
    ∷ []

abbrev pub label_gateway : Text
label_gateway = codes "io.sempersupra.garm.callback-host-gateway"

abbrev pub allowed_labels : List Text
allowed_labels =
    codes "io.sempersupra.garm.managed"
    ∷ codes "io.sempersupra.garm.schema"
    ∷ codes "io.sempersupra.garm.controller-id"
    ∷ codes "io.sempersupra.garm.pool-id"
    ∷ codes "io.sempersupra.garm.execution-profile"
    ∷ label_gateway
    ∷ []

abbrev pub required_environment : List Text
required_environment =
    codes "GARM_CALLBACK_URL"
    ∷ codes "GARM_METADATA_URL"
    ∷ codes "GARM_INSTANCE_TOKEN"
    ∷ codes "GARM_RUNNER_DOWNLOAD_URL"
    ∷ codes "GARM_RUNNER_FILENAME"
    ∷ codes "GARM_RUNNER_SHA256"
    ∷ []

unfoldable pub same_presence : Bool → Bool → Bool
same_presence true b = b
same_presence false b = not b

unfoldable pub runner_guards : Kit → ReadInteger → Fields → Dict Text → List (Bool × String)
unfolding is_text is_list is_integer has_field has_all only_keys only_entries has_key text_at
    same_presence container_bootstrap_command
runner_guards kit read runner labels =
    (not (only_keys (codes "extra_hosts" ∷ required_keys) runner), "unexpected field")
    ∷ (not (has_all required_keys runner), "missing required field")
    ∷ (not (is_text (get_field (codes "image") runner) runner_image), "runner image drifted")
    ∷ (not (is_text (get_field (codes "user") runner) (codes "1001:1001")), "runner user drifted")
    ∷ (not (is_text (get_field (codes "restart") runner) (codes "no")), "restart policy drifted")
    ∷ (
      not (
          is_list (get_field (codes "entrypoint") runner)
            (codes "/bin/sh" ∷ codes "-c" ∷ container_bootstrap_command kit ∷ [])),
      "runner bootstrap entrypoint drifted",
    )
    ∷ (
      not (is_list (get_field (codes "cap_drop") runner) (codes "ALL" ∷ [])),
      "runner capability-drop profile drifted",
    )
    ∷ (
      not (is_list (get_field (codes "security_opt") runner) (codes "no-new-privileges:true" ∷ [])),
      "runner security options drifted",
    )
    ∷ (
      not (is_integer read (get_field (codes "cpus") runner) general_cpu),
      "runner CPU limit drifted",
    )
    ∷ (
      not (is_integer read (get_field (codes "mem_limit") runner) general_memory_bytes),
      "runner memory limit drifted",
    )
    ∷ (
      not (is_list (get_field (codes "tmpfs") runner) (credential_tmpfs_mount ∷ [])),
      "runner credential tmpfs drifted",
    )
    ∷ (not (only_entries allowed_labels labels), "unexpected provider label")
    ∷ (
      has_key label_gateway labels && not (text_eq (text_at label_gateway labels) (codes "true")),
      "callback host-gateway ownership label drifted",
    )
    ∷ (
      not (same_presence (has_field (codes "extra_hosts") runner) (has_key label_gateway labels)),
      "callback host-gateway field/label presence drifted",
    )
    ∷ []

unfoldable pub environment_guards : Dict Text → List (Bool × String)
unfolding has_entries text_at
environment_guards env =
    (not (length env == 6), "runner environment field count drifted")
    ∷ (not (has_entries required_environment env), "runner environment is missing a variable")
    ∷ (
      is_blank (text_at (codes "GARM_CALLBACK_URL") env)
          || is_blank (text_at (codes "GARM_METADATA_URL") env)
          || is_blank (text_at (codes "GARM_INSTANCE_TOKEN") env),
      "runner bootstrap callback/metadata/token contract drifted",
    )
    ∷ (
      not (text_eq (text_at (codes "GARM_RUNNER_DOWNLOAD_URL") env) runner_tool_url)
          || not (text_eq (text_at (codes "GARM_RUNNER_FILENAME") env) runner_tool_filename)
          || not (text_eq (text_at (codes "GARM_RUNNER_SHA256") env) runner_tool_sha256),
      "runner payload metadata drifted",
    )
    ∷ []

unfoldable pub or_err {ℓ} : {A : Type ℓ} → Error → Option A → Result A
or_err e none = err e
or_err e (some a) = ok a

unfoldable pub validate_fixed_runner_service :
    Kit → ReadInteger → Fields → Dict Text → Result (Dict Text)
unfolding first_drift runner_guards environment_guards or_err string_map
validate_fixed_runner_service kit read runner labels =
    and_then (first_drift (runner_guards kit read runner labels)) λ _.
      and_then
        (or_err (drift "runner environment is unreadable")
          (string_map (get_field (codes "environment") runner)))
        λ env. and_then (first_drift (environment_guards env)) λ _. ok env

-- `json.Unmarshal` into a map.
