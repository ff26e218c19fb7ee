-- ===== src/Command.antt =====
-- cmd/garm-provider-truenas/garm_provider.go: the configuration, GARM's types and the errors that go
-- back to GARM.
pub mod Settings
pub mod Reading
pub mod Contract
pub mod RunnerTool
pub mod Environment
pub mod External
pub mod Linked
pub mod Main
use garm_provider_truenas.Base.{
  ℕ, Bool, List, Option, none, some, if◌then◌else◌, Error, Sentinel, sentinel, wrap, message, true,
  false, errors_is, not_found, foreign, unsupported, unsafe_operation, active, garm_not_found,
  garm_unauthorized, garm_bad_request, garm_unprocessable, Result, ok, err, String, ◌||◌,
}
use garm_provider_truenas.Base.Int.{ℤ}
use garm_provider_truenas.Base.Text.{Text, codes, text_eq, to_lower, trim_space}
use garm_provider_truenas.Provider.{Instance}

pub record TrueNasConfig : Type 0 where
  pub host : Text
  pub username : Text
  pub api_key_env : Text
  pub backend : Text
  pub port : ℤ
  pub insecure_skip_verify : Bool
  pub callback_host_gateway : Bool

pub record Config : Type 0 where
  pub mode : Text
  pub state_file : Text
  pub true_nas : Option TrueNasConfig

-- `params.RunnerApplicationDownload` of garm-provider-common, read through its getters.
pub record Tool : Type 0 where
  pub os : Text
  pub architecture : Text
  pub download_url : Text
  pub filename : Text
  pub temp_download_token : Text
  pub sha256_checksum : Text

-- `params.BootstrapInstance`, as far as the provider reads it.
pub record BootstrapInstance : Type 0 where
  pub name : Text
  pub tools : List Tool
  pub repo_url : Text
  pub callback_url : Text
  pub metadata_url : Text
  pub instance_token : Text
  pub ssh_keys : List Text
  pub extra_specs : Text
  pub ca_cert_bundle : Text
  pub os_arch : Text
  pub os_type : Text
  pub flavor : Text
  pub image : Text
  pub pool_id : Text
  pub has_proxy : Bool
  pub disable_updates_on_boot : Bool
  pub enable_boot_debug : Bool
  pub extra_packages : List Text
  pub jit_config_enabled : Bool

pub data InstanceStatus : Type 0 where
  instance_running instance_stopped instance_error instance_creating : InstanceStatus
  instance_status_unknown : InstanceStatus

-- `params.ProviderInstance`, as the provider fills it; the OS is Linux and the architecture amd64.
pub record ProviderInstance : Type 0 where
  pub provider_id : Text
  pub name : Text
  pub os_name : Text
  pub os_version : Text
  pub status : InstanceStatus
  pub provider_fault : Text

unfoldable pub to_garm_status : Text → InstanceStatus
unfolding to_lower trim_space
to_garm_status status =
    let s = to_lower (trim_space status) in
    if text_eq s (codes "running")
    then instance_running
    else (if text_eq s (codes "stopped")
        then instance_stopped
        else (if text_eq s (codes "crashed")
            then instance_error
            else (if text_eq s (codes "deploying")
                then instance_creating
                else instance_status_unknown)))

unfoldable pub to_garm_instance : Instance → ProviderInstance
unfolding to_garm_status
to_garm_instance instance_ = record {
  provider_id = instance_.provider_id;
  name = instance_.name;
  os_name = instance_.os_name;
  os_version = instance_.os_version;
  status = to_garm_status instance_.status;
  provider_fault = instance_.provider_fault;
}

-- The cause is formatted with `%v`, so only GARM's sentinel is left to `errors.Is`.
unfoldable pub normalize_provider_error : Error → Error
unfolding errors_is
normalize_provider_error e =
    if errors_is e not_found
    then sentinel garm_not_found
    else (if errors_is e foreign
        then sentinel garm_unauthorized
        else (if errors_is e unsupported || errors_is e unsafe_operation
            then sentinel garm_bad_request
            else (if errors_is e active then sentinel garm_unprocessable else e)))

abbrev pub bad_request : String → Error
bad_request text = wrap text (sentinel garm_bad_request)

abbrev pub bad_request_if : Bool → String → Result (Unit {0})
bad_request_if true text = err (bad_request text)
bad_request_if false text = ok tt

abbrev pub refuse_if : Bool → String → Result (Unit {0})
refuse_if true text = err (message text)
refuse_if false text = ok tt
