-- ===== src/Appstore.antt =====
-- internal/truenasstore/store.go: the Compose document that an app is created with, the names that
-- are listed, and the states that TrueNAS reports.
pub mod Profile
pub mod States
pub mod Reading
pub mod Decode
pub mod Gateway
pub mod Store
pub mod Listed
pub mod Dollars
use garm_provider_truenas.Base.{
  ℕ, Bool, true, false, not, ◌&&◌, ◌||◌, List, [], ◌∷◌, ◌++◌, Option, none, some, if◌then◌else◌,
  is_empty, ◌==◌, unsupported, sentinel, wrap, String, Result, ok, err, and_then,
}
use garm_provider_truenas.Base.Int.{ℤ, pos, decimal}
use garm_provider_truenas.Base.Json.{
  Value, number, string, array, object, Items, end, item, Fields, close, field,
}
use garm_provider_truenas.Base.Text.{
  Text, codes, text_eq, is_blank, trim_space, to_upper, has_prefix, trim_prefix, replace_all,
}
use garm_provider_truenas.Kit.{Kit}
use garm_provider_truenas.Provider.{
  AppSpec, State, state_running, state_stopped, state_crashed, state_deploying, state_stopping,
  runner_image, flavor_linux_general, general_cpu, general_memory_bytes, runner_tool_url,
  runner_tool_filename, runner_tool_sha256,
}

-- The states by their names in capitals; an unknown one counts as active.
unfoldable pub named_state : Text → State
named_state s =
    if text_eq s (codes "RUNNING")
    then state_running
    else (if text_eq s (codes "STOPPED")
        then state_stopped
        else (if text_eq s (codes "CRASHED")
            then state_crashed
            else (if text_eq s (codes "DEPLOYING") || text_eq s (codes "STARTING")
                then state_deploying
                else (if text_eq s (codes "STOPPING") then state_stopping else state_deploying))))

unfoldable pub map_state : Text → State
unfolding named_state to_upper trim_space
map_state state = named_state (to_upper (trim_space state))

-- `strings.Cut` at a dash.
push_before : ℕ → Option (Text × Text) → Option (Text × Text)
push_before c none = none
push_before c (some (before, after)) = some (c ∷ before, after)

unfoldable pub cut_dash : Text → Option (Text × Text)
unfolding push_before
cut_dash [] = none
cut_dash (c ∷ t) = let rest = cut_dash t in if c == b'-' then some ([], t) else push_before c rest

two_parts : Option (Text × Text) → Bool
two_parts none = false
two_parts (some (controller, requested)) = not (is_blank controller) && not (is_blank requested)

unfoldable pub plausible_managed_app_name : Text → Bool
unfolding cut_dash two_parts has_prefix trim_prefix
plausible_managed_app_name name =
    has_prefix name (codes "garm-") && two_parts (cut_dash (trim_prefix name (codes "garm-")))

abbrev pub credential_tmpfs_mount : Text
credential_tmpfs_mount = codes "/run/garm-jit:rw,nosuid,nodev,noexec,uid=1001,gid=1001,mode=0700"

unfoldable pub container_bootstrap_command : Kit → Text
unfolding replace_all codes
container_bootstrap_command kit =
    replace_all kit.container_bootstrap_script (codes "$") (codes "$$")

abbrev unsupported_if : Bool → String → Result (Unit {0})
unsupported_if true text = err (wrap text (sentinel unsupported))
unsupported_if false text = ok tt

only_all : List Text → Bool
only_all (cap ∷ []) = text_eq cap (codes "ALL")
only_all _ = false

-- The guards of `composeConfig`.
unfoldable pub check_spec : AppSpec → Result (Unit {0})
unfolding only_all
check_spec spec =
    and_then
      (unsupported_if
        (not (text_eq spec.image runner_image)
          || not (text_eq spec.execution_profile flavor_linux_general))
        "image/profile is outside the allowlisted runner profile")
      λ _.
        and_then
          (unsupported_if
            (not (spec.cpu == general_cpu) || not (spec.memory_bytes == general_memory_bytes))
            "resource request is outside the allowlisted runner profile")
          λ _.
            and_then
              (unsupported_if
                (not (text_eq spec.run_as_user (codes "1001:1001"))
                  || not spec.no_new_privileges
                  || spec.workdir_tmpfs
                  || not spec.credential_tmpfs)
                "runtime security profile is not the fixed MVP profile")
              λ _.
                and_then
                  (unsupported_if
                    (not (text_eq spec.runner_download_url runner_tool_url)
                      || not (text_eq spec.runner_filename runner_tool_filename)
                      || not (text_eq spec.runner_sha256 runner_tool_sha256))
                    "runner payload is outside the allowlisted verified tool contract")
                  λ _.
                    and_then
                      (unsupported_if (not (is_empty spec.host_mounts) || spec.docker_socket)
                        "host mounts and Docker socket are forbidden")
                      λ _.
                        unsupported_if (not (only_all spec.cap_drop))
                          "all Linux capabilities must be dropped"

-- A list of one text.
abbrev only : Text → Value
only text = array (item (string text) end)

unfoldable pub labels : AppSpec → Value
labels spec = object (
    field (codes "io.sempersupra.garm.controller-id") (string spec.controller_id) (
      field (codes "io.sempersupra.garm.execution-profile") (string spec.execution_profile) (
        field (codes "io.sempersupra.garm.managed") (string (codes "true")) (
          field (codes "io.sempersupra.garm.pool-id") (string spec.pool_id)
            (field (codes "io.sempersupra.garm.schema") (string (codes "1")) close)))))

unfoldable pub environment : AppSpec → Value
environment spec = object (
    field (codes "GARM_CALLBACK_URL") (string spec.callback_url) (
      field (codes "GARM_INSTANCE_TOKEN") (string spec.bootstrap_token) (
        field (codes "GARM_METADATA_URL") (string spec.metadata_url) (
          field (codes "GARM_RUNNER_DOWNLOAD_URL") (string spec.runner_download_url) (
            field (codes "GARM_RUNNER_FILENAME") (string spec.runner_filename)
              (field (codes "GARM_RUNNER_SHA256") (string spec.runner_sha256) close))))))

-- The keys of a Go map are written in their order.
unfoldable pub runner_service : Kit → AppSpec → Value
unfolding labels environment container_bootstrap_command decimal
runner_service kit spec = object (
    field (codes "cap_drop") (only (codes "ALL")) (
      field (codes "cpus") (number (decimal (pos spec.cpu))) (
        field (codes "entrypoint")
          (array (
            item (string (codes "/bin/sh"))
              (item (string (codes "-c")) (item (string (container_bootstrap_command kit)) end))))
          (field (codes "environment") (environment spec) (
            field (codes "image") (string spec.image) (
              field (codes "labels") (labels spec) (
                field (codes "mem_limit") (number (decimal (pos spec.memory_bytes))) (
                  field (codes "restart") (string (codes "no")) (
                    field (codes "security_opt") (only (codes "no-new-privileges:true")) (
                      field (codes "tmpfs") (only credential_tmpfs_mount)
                        (field (codes "user") (string spec.run_as_user) close)))))))))))

unfoldable pub compose_config : Kit → AppSpec → Result Text
unfolding check_spec runner_service
compose_config kit spec = and_then (check_spec spec) λ _. ok (
    kit.json.marshal (
      object (
        field (codes "services") (object (field (codes "runner") (runner_service kit spec) close))
          close)))
