-- ===== src/Container/Manager/Checks.antt =====
-- internal/containerbackend/manager.go: what the manager checks of a container, of its owner and of a
-- staged file.
use garm_provider_truenas.Base.{
  ◌%◌, Bool, true, false, not, ◌&&◌, ◌||◌, [], ◌∷◌, ◌++◌, Option, none, some, ◌==◌, if◌then◌else◌,
  String, is_empty, length, not_found, foreign, unsupported, unsafe_operation, managed_drift,
  sentinel, message, wrap, errors_is, Result, ok, err, Outcome, done, failed, state_of, Run, return,
  raise, and_then,
}
use garm_provider_truenas.Base.Dict.{Dict, lookup}
use garm_provider_truenas.Base.FilePath.{clean, join_path, byte_length}
use garm_provider_truenas.Base.Int.{ℤ, decimal}
use garm_provider_truenas.Base.Text.{
  Text, codes, text_eq, is_blank, trim_space, trim_prefix, to_lower, to_upper, equal_fold,
  has_prefix,
}
use garm_provider_truenas.Provider.{Instance}
use garm_provider_truenas.Provider.Manager.{wrong_pool}
use garm_provider_truenas.Catalog.{
  RuntimeBackendMatrix, RuntimeBackendCell, resolve_runtime_backend,
}
use garm_provider_truenas.Ownership.{Ownership}
use garm_provider_truenas.Container.{
  Container, FileStat, Client, flavor_linux_general, image_family,
}
use garm_provider_truenas.Container.Plan.{StagedFile, default_init, bootstrap_token_path}

pub record Manager (S : Type 0) : Type 0 where
  pub client : Client S
  pub controller_id : Text
  pub system_version : Text

unfoldable pub is_container_v1 : RuntimeBackendCell → Bool
is_container_v1 cell =
    text_eq cell.driver (codes "container-v1") && text_eq cell.control_surface (codes "container.*")

unfoldable pub new_manager :
    {S : Type 0} → RuntimeBackendMatrix → Option (Client S) → Text → Text → Result (Manager S)
unfolding is_container_v1
new_manager matrix none controller_id system_version = err (message "client is required")
new_manager matrix (some client) controller_id system_version =
    if is_blank controller_id
    then err (message "controller ID is required")
    else and_then (resolve_runtime_backend matrix (codes "container") (trim_space system_version))
        λ resolved.
          if is_container_v1 resolved.1
          then ok (record {
            client = client;
            controller_id = controller_id;
            system_version = trim_space system_version;
          })
          else err (wrap "container-v1 is not the exact driver" (sentinel unsupported))

unfoldable pub provider_id_for : ℤ → Text
unfolding decimal
provider_id_for id = codes "container:" ++ decimal id

unfoldable pub to_instance : Container → Text → Instance
unfolding provider_id_for
to_instance item pool_id = record {
  provider_id = provider_id_for item.id;
  name = item.name;
  os_type = codes "linux";
  os_name = codes "truenas-system-container";
  os_version = item.image.version;
  os_arch = codes "x86_64";
  status = to_lower item.state;
  pool_id = pool_id;
  provider_fault = codes "";
}

abbrev pub is_stopped : Text → Bool
is_stopped state = equal_fold state (codes "STOPPED")

abbrev pub is_running : Text → Bool
is_running state = equal_fold state (codes "RUNNING")

abbrev pub drift_if : Bool → String → Result (Unit {0})
drift_if true text = err (wrap text (sentinel managed_drift))
drift_if false text = ok tt

abbrev pub unsafe_if : Bool → String → Result (Unit {0})
unsafe_if true text = err (wrap text (sentinel unsafe_operation))
unsafe_if false text = ok tt

abbrev pub or_drift : Bool → Result (Unit {0})
or_drift true = ok tt
or_drift false = err (sentinel managed_drift)

unfoldable pub is_base_runtime : Container → Bool
is_base_runtime item =
    not item.autostart
    && text_eq item.idmap_type (codes "DEFAULT")
    && text_eq item.capabilities_policy (codes "DEFAULT")
    && not (is_blank item.dataset)
    && text_eq item.image.name image_family
    && not (is_blank item.image.version)
    && (text_eq (to_upper item.state) (codes "RUNNING")
        || text_eq (to_upper item.state) (codes "STOPPED"))

unfoldable pub verify_base_runtime : Container → Result (Unit {0})
unfolding is_base_runtime
verify_base_runtime item = or_drift (is_base_runtime item)

-- The bootstrap state has been scrubbed.
unfoldable pub is_scrubbed : Container → Bool
is_scrubbed item = text_eq item.init default_init && is_empty item.init_env

unfoldable pub verify_steady_runtime : Container → Result (Unit {0})
unfolding verify_base_runtime is_scrubbed
verify_steady_runtime item = and_then (verify_base_runtime item) λ _. or_drift (is_scrubbed item)

unfoldable pub same_text : Option Text → Text → Bool
same_text none text = false
same_text (some other) text = text_eq other text

unfoldable pub agrees : Dict Text → Dict Text → Bool
unfolding lookup same_text
agrees [] env = true
agrees ((key, value) ∷ rest) env = same_text (lookup key env) value && agrees rest env

-- `reflect.DeepEqual` of two maps, neither of which is nil or lists a key twice.
unfoldable pub same_env : Dict Text → Dict Text → Bool
unfolding agrees
same_env a b = length a == length b && agrees a b

unfoldable pub is_owner : Text → Ownership → Bool
is_owner controller_id owner =
    text_eq owner.schema (codes "semper-supra.garm-container-owner/1")
    && text_eq owner.managed_by (codes "garm-provider-truenas")
    && text_eq owner.controller_id controller_id
    && text_eq owner.profile flavor_linux_general

unfoldable pub checked_identity : Text → Option Ownership → Result Ownership
unfolding is_owner
checked_identity controller_id none = err (sentinel foreign)
checked_identity controller_id (some owner) =
    if is_owner controller_id owner then ok owner else err (sentinel foreign)

unfoldable pub is_listed : Text → Text → Option Ownership → Bool
unfolding wrong_pool
is_listed controller_id pool_id none = false
is_listed controller_id pool_id (some owner) =
    text_eq owner.controller_id controller_id
    && text_eq owner.managed_by (codes "garm-provider-truenas")
    && not (wrong_pool pool_id owner.pool_id)

unfoldable pub pool_mismatch : Text → Ownership → Result (Unit {0})
unfolding wrong_pool
pool_mismatch pool_id owner =
    if wrong_pool pool_id owner.pool_id
    then err (wrap "pool mismatch" (sentinel foreign))
    else ok tt

-- The path of a staged file below the container's root, and whether it leads out of it.
unfoldable pub relative_path : Text → Text
unfolding trim_prefix clean
relative_path path = trim_prefix (clean path) (codes "/")

unfoldable pub is_unsafe_relative : Text → Bool
unfolding has_prefix
is_unsafe_relative relative =
    text_eq relative (codes ".")
    || is_empty relative
    || text_eq relative (codes "..")
    || has_prefix relative (codes "../")

unfoldable pub check_file : Text → StagedFile → Result (Unit {0})
unfolding is_unsafe_relative relative_path join_path has_prefix
check_file mountpoint file =
    let relative = relative_path file.path in
    let full = join_path (mountpoint ∷ relative ∷ []) in
    and_then (unsafe_if (is_unsafe_relative relative) "unsafe staged file path") λ _.
      and_then
        (unsafe_if (not (has_prefix full (mountpoint ++ codes "/")))
          "staged file escaped container root")
        λ _.
          unsafe_if
            (file.contains_secret
              && (not (text_eq file.path bootstrap_token_path) || not (file.mode == 0o600)))
            "refusing unbounded secret-bearing bootstrap file"

unfoldable pub full_path : Text → StagedFile → Text
unfolding relative_path join_path
full_path mountpoint file = join_path (mountpoint ∷ relative_path file.path ∷ [])

-- `stat.Mode & 0o777` is the mode modulo 512.
unfoldable pub is_as_staged : StagedFile → FileStat → Bool
unfolding byte_length
is_as_staged file stat = stat.size == byte_length file.content && stat.mode % 512 == file.mode

-- Runs a clean-up after a failure and keeps the first error, `_ = cleanup(); return err`.
abbrev pub after_failure {ℓ} :
    {S : Type 0} {A : Type ℓ} → Run S (Unit {0}) → Outcome S A → Outcome S A
after_failure cleanup (done a s) = done a s
after_failure cleanup (failed e s) = failed e (state_of (cleanup s))

abbrev pub or_clean {ℓ} : {S : Type 0} {A : Type ℓ} → Run S (Unit {0}) → Run S A → Run S A
or_clean cleanup m s = after_failure cleanup (m s)

-- `if _, err := Get(id); !errors.Is(err, ErrNotFound)`, and so for a file.
abbrev pub expect_absent : {S : Type 0} {A : Type 0} → String → String → Result A → Run S (Unit {0})
expect_absent present unknown (ok _) = raise (wrap present (sentinel managed_drift))
expect_absent present unknown (err e) =
    if errors_is e not_found then return tt else raise (wrap unknown e)
