-- ===== src/Tests/Linked.antt =====
-- cmd/garm-provider-truenas over internal/truenasstore and a TrueNAS that keeps custom apps.
use garm_provider_truenas.Base.{[], ◌≡◌, refl, true, false, none, some, ok, done, is_empty, Result}
use garm_provider_truenas.Base.Text.{Text, codes, text_eq, is_blank, trim_space}
use garm_provider_truenas.Provider.{AppSpec, Client}
use garm_provider_truenas.Provider.Manager.{app_spec}
use garm_provider_truenas.Provider.Names.{sanitize, owned_name}
use garm_provider_truenas.Appstore.{check_spec, runner_service}
use garm_provider_truenas.Appstore.Gateway.Policy.{gated}
use garm_provider_truenas.Appstore.Store.{Transport, client}
use garm_provider_truenas.Appstore.Store.Refine.{linked}
use garm_provider_truenas.Appstore.Store.Sent.{IsAdmitted, shown}
use garm_provider_truenas.Command.{TrueNasConfig, Config}
use garm_provider_truenas.Command.Settings.{validate_config, normalize_true_nas_backend}
use garm_provider_truenas.Command.Contract.{validate_bootstrap_contract, to_bootstrap}
use garm_provider_truenas.Command.RunnerTool.{validate_runner_tool_contract, runner_version}
use garm_provider_truenas.Command.Linked.Created.{Creates, create_instance-linked}
use garm_provider_truenas.Tests.Configs.{reads}
use garm_provider_truenas.Tests.Configs
use garm_provider_truenas.Tests.Commands.{server, settings, bare, parse}
use garm_provider_truenas.Tests.Stores.{
  net, entry, two_kit, Apps, service, jobs, truenas, entry_ok, with_hosts,
}

abbrev transport : Transport Apps
transport = record {
  configure = λ config. ok tt;
  connect = λ config s. done tt s;
  apps = service;
  caller = jobs;
  close = λ s. s;
}

abbrev gated_server : TrueNasConfig
gated_server = record server { callback_host_gateway = true }

abbrev load_config : Text → Result Config
load_config path = ok settings

abbrev getenv : Text → Text
getenv name = codes "key"

abbrev mock_store : Text → Client Apps
mock_store path =
    client two_kit net Configs.read (linked two_kit net Configs.read true service jobs)

abbrev empty : Apps
empty k = none

abbrev request : AppSpec
request =
    app_spec (codes "ctl") (owned_name two_kit.sha256 (codes "ctl") bare.name) (to_bootstrap bare)

accepted : validate_bootstrap_contract two_kit.json parse bare ≡ ok tt
unfolding validate_bootstrap_contract codes text_eq is_blank validate_runner_tool_contract
    runner_version
accepted = refl

named : (is_empty (sanitize bare.name) ≡ false) × (is_empty (sanitize (codes "ctl")) ≡ false)
unfolding sanitize codes
named = (refl, refl)

valid :
    validate_config
      (record { mode = codes "truenas"; state_file = []; true_nas = some gated_server })
    ≡ ok tt
unfolding validate_config codes text_eq is_blank normalize_true_nas_backend
valid = refl

not_blank : (is_blank (codes "key") ≡ false) × (is_blank (codes "ctl") ≡ false)
unfolding is_blank codes
not_blank = (refl, refl)

admitted : IsAdmitted two_kit net Configs.read true request
unfolding app_spec to_bootstrap check_spec codes text_eq trim_space is_blank with_hosts gated
    runner_service
admitted = record {
  fixed = refl;
  controller = (refl, refl);
  pool = (refl, refl);
  callback = refl;
  metadata = refl;
  token = refl;
  reads_back = refl;
  sendable = (entry, entry_ok, refl);
}

absent : shown two_kit net Configs.read true none ≡ none
unfolding shown
absent = refl

create_instance-linked_example :
    Creates two_kit net Configs.read transport load_config getenv mock_store gated_server [] []
      (codes "ctl")
      (λ s name. s name)
      truenas
      reads.0
      reads.1
      parse
      bare
      empty
      empty
create_instance-linked_example =
    create_instance-linked two_kit net Configs.read transport load_config getenv mock_store
      gated_server [] [] (codes "ctl") (λ s name. s name) truenas reads.0 reads.1 parse bare empty
      empty valid not_blank.0 not_blank.1 named.1 refl refl accepted named.0 tt admitted absent
