-- ===== src/Tests/Commands.antt =====
-- cmd/garm-provider-truenas over the mock store and a world of two texts.
use garm_provider_truenas.Base.{
  ◌≡◌, refl, ◌↔◌, true, false, [], ◌∷◌, some, return, ok, err, is_empty, done,
}
use garm_provider_truenas.Base.Dict.{Dict}
use garm_provider_truenas.Base.Int.{pos}
use garm_provider_truenas.Base.Text.{Text, codes, text_eq, is_blank}
use garm_provider_truenas.Provider.{runner_image, flavor_linux_general}
use garm_provider_truenas.Provider.Manager.{new_manager}
use garm_provider_truenas.Provider.Names.{sanitize}
use garm_provider_truenas.Mockstore.{Disk, store}
use garm_provider_truenas.Command.{Config, TrueNasConfig, Tool, BootstrapInstance, bad_request}
use garm_provider_truenas.Command.RunnerTool.{validate_runner_tool_contract, runner_version}
use garm_provider_truenas.Command.Settings.{validate_config, is_usable, validate_config_iff}
use garm_provider_truenas.Command.Contract.{ParseUrl, validate_bootstrap_contract}
use garm_provider_truenas.Command.Environment.{Commands}
use garm_provider_truenas.Command.External.{World, ExternalProvider, open_manager}
use garm_provider_truenas.Tests.Data.{disk, json, manager}

abbrev pub server : TrueNasConfig
server = record {
  host = codes "nas";
  username = codes "root";
  api_key_env = codes "";
  backend = codes "";
  port = pos 443;
  insecure_skip_verify = false;
  callback_host_gateway = false;
}

abbrev pub settings : Config
settings = record { mode = codes "truenas"; state_file = codes ""; true_nas = some server }

abbrev bad_settings : Config
bad_settings = record settings { true_nas = some (record server { port = pos 70000 }) }

validate_config_iff_example : (validate_config settings ≡ ok tt) ↔ (is_usable settings ≡ true)
validate_config_iff_example = validate_config_iff settings

is_refused : validate_config bad_settings ≡ err (bad_request "truenas port is invalid")
unfolding validate_config codes text_eq is_blank
is_refused = refl

abbrev pub tool : Tool
tool = record {
  os = codes "linux";
  architecture = codes "x64";
  download_url =
      codes
        "https://github.com/actions/runner/releases/download/v2.1.0/actions-runner-linux-x64-2.1.0.tar.gz";
  filename = codes "actions-runner-linux-x64-2.1.0.tar.gz";
  temp_download_token = codes "";
  sha256_checksum = codes "6a81c37564db9b1ee84e141922625e1d7c5b389b99bb3c572e0243607d5bb4d2";
}

abbrev pub instance_ : BootstrapInstance
instance_ = record {
  name = codes "Runner_A 1";
  tools = tool ∷ [];
  repo_url = codes "https://github.com/a/b";
  callback_url = codes "https://garm/cb";
  metadata_url = codes "https://garm/md";
  instance_token = codes "secret";
  ssh_keys = [];
  extra_specs = codes "{}";
  ca_cert_bundle = codes "";
  os_arch = codes "amd64";
  os_type = codes "linux";
  flavor = flavor_linux_general;
  image = runner_image;
  pool_id = codes "pool";
  has_proxy = false;
  disable_updates_on_boot = false;
  enable_boot_debug = false;
  extra_packages = [];
  jit_config_enabled = true;
}

abbrev pub parse : ParseUrl
parse t = some (codes "https", codes "garm")

abbrev pub bare : BootstrapInstance
bare = record instance_ { extra_specs = codes "" }

is_accepted : validate_bootstrap_contract json parse bare ≡ ok tt
unfolding validate_bootstrap_contract codes text_eq is_blank validate_runner_tool_contract
    runner_version
is_accepted = refl

pub is_named : is_empty (sanitize (codes "Runner_A 1")) ≡ false
unfolding sanitize codes
is_named = refl

abbrev commands : Commands
commands = record {
  create_instance = codes "CreateInstance";
  delete_instance = codes "DeleteInstance";
  get_instance = codes "GetInstance";
  list_instances = codes "ListInstances";
  start_instance = codes "StartInstance";
  stop_instance = codes "StopInstance";
  remove_all_instances = codes "RemoveAllInstances";
}

abbrev environment : Dict Text
environment = (codes "GARM_COMMAND", codes "GetInstance") ∷ []

-- Closing takes the disk's file away, so that a run shows whether it happened.
abbrev world : World Disk
world = record {
  load_config = λ path. ok settings;
  getenv = λ name. codes "key";
  mock_store = λ path. store;
  connect = λ connection. return store;
  close = λ d. record d { can_read = false };
}

abbrev provider : ExternalProvider
provider = record { cfg = settings; config_path = codes "p"; controller_id = codes "ctl" }

is_opened :
    open_manager world provider disk ≡ done (record { manager = manager; connected = true }) disk
unfolding open_manager codes text_eq is_blank new_manager sanitize
is_opened = refl
