-- ===== src/Container/Plan.antt =====
-- internal/containerbackend: names, `validateBootstrap`, the bootstrap plan and file staging paths.
pub mod Secrets
pub mod Wrapper
use garm_provider_truenas.Base.{
  ℕ, Bool, true, false, not, ◌&&◌, ◌||◌, List, [], ◌∷◌, ◌++◌, ltb, ◌==◌, if◌then◌else◌, length,
  take, trim, is_empty, sentinel, unsupported, managed_drift, wrap, Result, ok, err, and_then,
}
use garm_provider_truenas.Base.Dict.{Dict, insert, erase}
use garm_provider_truenas.Base.FilePath.{split, join_path}
use garm_provider_truenas.Base.Hex.{hex_encode}
use garm_provider_truenas.Base.Text.{
  Text, codes, text_eq, to_lower, collapse, is_blank, trim_space, contains,
}
use garm_provider_truenas.Provider.{
  Bootstrap, runner_tool_url, runner_tool_filename, runner_tool_sha256,
}
use garm_provider_truenas.Provider.Manager.{is_supported_arch}
use garm_provider_truenas.Provider.Names.{is_dash}
use garm_provider_truenas.Kit.{Kit}
use garm_provider_truenas.Container.{flavor_linux_general}

abbrev pub default_init : Text
default_init = codes "/sbin/init"

abbrev pub bootstrap_init_command : Text
bootstrap_init_command = codes "/bin/sh /usr/local/bin/garm-container-init"

abbrev pub bootstrap_runner_script_path : Text
bootstrap_runner_script_path = codes "/usr/local/bin/garm-runner-bootstrap"

abbrev pub bootstrap_init_script_path : Text
bootstrap_init_script_path = codes "/usr/local/bin/garm-container-init"

abbrev pub bootstrap_token_path : Text
bootstrap_token_path = codes "/var/lib/garm-container/bootstrap-instance-token"

-- The same function as in internal/provider.
unfoldable pub sanitize_name : Text → Text
unfolding to_lower collapse trim
sanitize_name input = trim is_dash (collapse b'-' false (to_lower input))

unfoldable pub clip_prefix : Text → Text
unfolding trim
clip_prefix prefix = if ltb 48 (length prefix) then trim is_dash (take 48 prefix) else prefix

unfoldable pub owned_name : (Text → List ℕ) → Text → Text → Text
unfolding sanitize_name clip_prefix codes hex_encode
owned_name sha256 controller_id requested =
    let raw = sanitize_name controller_id ++ (codes "-" ++ sanitize_name requested) in
    let prefix = trim is_dash (codes "garm-" ++ raw) in
    clip_prefix prefix ++ (codes "-" ++ hex_encode (take 4 (sha256 raw)))

abbrev refuse_if : Bool → Result (Unit {0})
refuse_if true = err (sentinel unsupported)
refuse_if false = ok tt

unfoldable pub validate_bootstrap : Bootstrap → Result (Unit {0})
validate_bootstrap input = and_then (refuse_if (is_blank input.name || is_blank input.pool_id)) λ _.
    and_then
      (refuse_if
        (not (text_eq input.os_type (codes "linux")) || not (is_supported_arch input.arch)))
      λ _. and_then (refuse_if (not (text_eq input.flavor flavor_linux_general))) λ _.
        refuse_if
          (is_blank input.callback_url || is_blank input.metadata_url || is_blank input.token)

unfoldable pub bootstrap_env : Bootstrap → Dict Text
bootstrap_env input =
    (codes "GARM_CALLBACK_URL", input.callback_url)
    ∷ (codes "GARM_METADATA_URL", input.metadata_url)
    ∷ (codes "GARM_INSTANCE_TOKEN", input.token)
    ∷ (codes "GARM_RUNNER_DOWNLOAD_URL", runner_tool_url)
    ∷ (codes "GARM_RUNNER_FILENAME", runner_tool_filename)
    ∷ (codes "GARM_RUNNER_SHA256", runner_tool_sha256)
    ∷ []

unfoldable pub token_present : Dict Text → Text → Bool
token_present [] token = false
token_present ((key, value) ∷ env) token =
    text_eq key (codes "GARM_INSTANCE_TOKEN")
    || (not (is_empty token) && contains value token)
    || token_present env token

pub record StagedFile : Type 0 where
  pub path : Text
  pub mode : ℕ
  pub content : Text
  pub sha256 : Text
  pub contains_secret : Bool

pub record BootstrapPlan : Type 0 where
  pub init : Text
  pub init_env : Dict Text
  pub files : List StagedFile
  pub final_init : Text
  pub final_env : Dict Text

unfoldable pub staged_file : (Text → List ℕ) → Text → ℕ → Text → Bool → StagedFile
unfolding hex_encode
staged_file sha256 path mode content contains_secret = record {
  path = path;
  mode = mode;
  content = content;
  sha256 = hex_encode (sha256 content);
  contains_secret = contains_secret;
}

-- The environment without the token.
unfoldable pub initial_env : Bootstrap → Dict Text
unfolding bootstrap_env insert erase
initial_env input =
    insert (codes "RUNNER_ALLOW_RUNASROOT") (codes "1")
      (erase (codes "GARM_INSTANCE_TOKEN") (bootstrap_env input))

unfoldable pub build_bootstrap_plan : Kit → Bootstrap → BootstrapPlan
unfolding initial_env staged_file
build_bootstrap_plan kit input = record {
  init = bootstrap_init_command;
  init_env = initial_env input;
  files =
      staged_file kit.sha256 bootstrap_runner_script_path 0o755 kit.container_bootstrap_script false
      ∷ staged_file kit.sha256 bootstrap_init_script_path 0o755 kit.container_init_wrapper false
      ∷ staged_file kit.sha256 bootstrap_token_path 0o600 input.token true
      ∷ [];
  final_init = default_init;
  final_env = [];
}

unfoldable pub is_clean_file : Text → StagedFile → Bool
is_clean_file token file = file.contains_secret || not (contains file.content token)

files_contain : List StagedFile → Text → Bool
unfolding is_clean_file
files_contain [] token = false
files_contain (file ∷ files) token = not (is_clean_file token file) || files_contain files token

unfoldable pub plan_contains_token : BootstrapPlan → Text → Bool
unfolding files_contain
plan_contains_token plan token = if is_empty token then false else files_contain plan.files token

is_rootfs : Text → List Text → Bool
is_rootfs name (pool ∷ hidden ∷ kind ∷ last ∷ []) =
    not (is_empty pool)
    && text_eq hidden (codes ".truenas_containers")
    && text_eq kind (codes "containers")
    && text_eq last name
    && not (is_empty name)
is_rootfs name _ = false

first_part : List Text → Text
first_part [] = []
first_part (part ∷ parts) = part

abbrev is_slash : ℕ → Bool
is_slash c = c == b'/'

unfoldable pub container_rootfs_mountpoint : Text → Text → Result Text
unfolding is_rootfs first_part split join_path codes trim
container_rootfs_mountpoint dataset name =
    let parts = split b'/' (trim is_slash (trim_space dataset)) in
    let own = trim_space name in
    if is_rootfs own parts
    then ok (
        join_path (codes "/.truenas_containers" ∷ first_part parts ∷ codes "containers" ∷ own ∷ []))
    else err (wrap "unexpected container root dataset" (sentinel managed_drift))
