-- ===== src/Provider.antt =====
-- internal/provider/provider.go: the data model of the TrueNAS Apps backend, and its `Client`.
pub mod Names
pub mod Manager
pub mod Contract
use garm_provider_truenas.Base.{ℕ, Bool, List, Run}
use garm_provider_truenas.Base.Text.{Text, codes}

abbrev pub flavor_linux_general : Text
flavor_linux_general = codes "truenas-linux-general"

abbrev pub runner_image : Text
runner_image =
    codes
      "ghcr.io/actions/actions-runner:2.337.0@sha256:e5496277be5d09bc968b3d64911b74e219ac4a3f2edce956a3ecf9271bea1ef4"

abbrev pub runner_tool_filename : Text
runner_tool_filename = codes "actions-runner-linux-x64-2.337.0.tar.gz"

abbrev pub runner_tool_url : Text
runner_tool_url =
    codes
      "https://github.com/actions/runner/releases/download/v2.337.0/actions-runner-linux-x64-2.337.0.tar.gz"

abbrev pub runner_tool_sha256 : Text
runner_tool_sha256 = codes "70920811a4f8ad4328818682bca5c6469c1c942fab52448868071d0063816613"

abbrev pub general_cpu : ℕ
general_cpu = 4

-- 8 * 1024 * 1024 * 1024
abbrev pub general_memory_bytes : ℕ
general_memory_bytes = 8589934592

abbrev pub true_nas_app_name_max : ℕ
true_nas_app_name_max = 40

-- `type State string`
abbrev pub State : Type 0
State = Text

abbrev pub state_deploying : State
state_deploying = codes "DEPLOYING"

abbrev pub state_running : State
state_running = codes "RUNNING"

abbrev pub state_stopping : State
state_stopping = codes "STOPPING"

abbrev pub state_stopped : State
state_stopped = codes "STOPPED"

abbrev pub state_crashed : State
state_crashed = codes "CRASHED"

pub record Bootstrap : Type 0 where
  pub name : Text
  pub os_type : Text
  pub arch : Text
  pub flavor : Text
  pub pool_id : Text
  pub callback_url : Text
  pub metadata_url : Text
  pub token : Text

pub record AppSpec : Type 0 where
  pub name : Text
  pub image : Text
  pub controller_id : Text
  pub pool_id : Text
  pub cpu : ℕ
  pub memory_bytes : ℕ
  pub run_as_user : Text
  pub cap_drop : List Text
  pub no_new_privileges : Bool
  pub workdir_tmpfs : Bool
  pub credential_tmpfs : Bool
  pub host_mounts : List Text
  pub docker_socket : Bool
  pub callback_url : Text
  pub metadata_url : Text
  pub bootstrap_token : Text
  pub runner_download_url : Text
  pub runner_filename : Text
  pub runner_sha256 : Text
  pub execution_profile : Text

pub record App : Type 0 where
  pub spec : AppSpec
  pub state : State

pub record Instance : Type 0 where
  pub provider_id : Text
  pub name : Text
  pub os_type : Text
  pub os_name : Text
  pub os_version : Text
  pub os_arch : Text
  pub status : Text
  pub pool_id : Text
  pub provider_fault : Text

-- What the manager reaches TrueNAS through, over an unknown state of the outside.
pub record Client (S : Type 0) : Type 0 where
  pub create_app : AppSpec → Run S App
  pub get_app : Text → Run S App
  pub list_apps : Run S (List App)
  pub delete_app : Text → Run S (Unit {0})
