-- ===== src/Tests/Scripts.antt =====
-- The shell programs of internal/truenasstore/bootstrap.go, internal/containerbackend/bootstrap.go and
-- internal/vmbackend/manager.go on concrete inputs.
use garm_provider_truenas.Base.{◌+◌, ◌*◌, ◌≤◌, ◌≡◌, refl, [], ◌∷◌, ◌++◌, some, ok, arith, length}
use garm_provider_truenas.Base.Text.{Text, codes, is_blank, text_eq}
use garm_provider_truenas.Provider.{
  Bootstrap, runner_tool_url, runner_tool_filename, runner_tool_sha256,
}
use garm_provider_truenas.Provider.Manager.{is_supported_arch}
use garm_provider_truenas.Vm
use garm_provider_truenas.Vm.Seed
use garm_provider_truenas.Vm.Seed.{owned_name, seed_for, bootstrap_env, cloud_config_file}
use garm_provider_truenas.Vm.Seed.Blocks.{cloud_config_file-bootstrap_env, indented, IsPlain}
use garm_provider_truenas.Vm.Seed.Launched.{entry, launch-seed_for, launch_with, variables_of}
use garm_provider_truenas.Vm.Seed.Chain.{read_settings-launched, IsVmSettings}
use garm_provider_truenas.Container
use garm_provider_truenas.Container.Plan
use garm_provider_truenas.Container.Plan.{initial_env}
use garm_provider_truenas.Container.Plan.Wrapper.{init_wrapper-Handed, Handed, IsStripped}
use garm_provider_truenas.Script.Shell.{◌>>=◌, replied, signalled, sleep, is_alive}
use garm_provider_truenas.Script.Words.{expected_version, agent_id, os_value}
use garm_provider_truenas.Script.Settings.{token_key, Settings, Dialect, read_settings}
use garm_provider_truenas.Script.Bootstrap.{
  bootstrap, run_bootstrap, prepare_runner, install_runner, check_runner, fetch_credentials,
  start_runner, attend_runner, check_started, announce_runner, read_release, or_report, or_kill,
  report,
}
use garm_provider_truenas.Script.Steps.{
  prestaged_runner_matches, trapping, leave, leave_trapped, terminate_runner, cleanup_credentials,
  post_status, post_json, post_attempts, fetch_metadata, fetch_attempts, keep_fetched,
  download_runner, download_attempts, version_matches,
}
use garm_provider_truenas.Script.Launcher.{launch, launch_environment}
use garm_provider_truenas.Script.Init.{init_wrapper}
use garm_provider_truenas.Script.Runs.{Shell, exited, run, IsWarranted, Returning}
use garm_provider_truenas.Script.Verified.{Warrant}
use garm_provider_truenas.Script.Traps.{Leaves, run_bootstrap-IsWarranted}
use garm_provider_truenas.Script.Traps.Cleared.{Covered, run_bootstrap-clears}
use garm_provider_truenas.Script.Secrecy.{masked_log}
use garm_provider_truenas.Script.Secrecy.Environment.{bootstrap-masked}
use garm_provider_truenas.Base.Dict.{Dict, insert}
use garm_provider_truenas.Script.Runs.Goes.{Obliges}
use garm_provider_truenas.Script.Success.Whole.{Served, run_bootstrap-Served}
use garm_provider_truenas.Script.Bounds.Exits.{length-run_bootstrap-le}
use garm_provider_truenas.Tests.Data.{kit, input}

abbrev script_settings : Settings
script_settings = record {
  callback_url = codes "https://garm/cb";
  metadata_url = codes "https://garm/md/";
  token = codes "secret";
  download_url = codes "https://github/r.tar.gz";
  filename = codes "actions-runner-linux-x64-2.337.0.tar.gz";
  sha256 = codes "70";
  runner_home = codes "/h";
  prestaged_runner_home = codes "/p";
  jit_dir = codes "/j";
  runner_archive = codes "/a";
  max_attempts = 1;
  retry_delay = codes "2";
  ready_delay = codes "2";
  started_message = codes "container runner started";
  environment = [];
}

-- Every command succeeds and writes the same.
abbrev agreeable : Shell
agreeable log c = replied 0 (codes "17")

abbrev dialect : Dialect
dialect = record { numeral = λ t. 5; unset_status = 2 }

version_read : expected_version script_settings.filename ≡ codes "2.337.0"
unfolding expected_version
version_read = refl

version_unknown : expected_version (codes "actions-runner-linux-x64-2.337.tar.gz") ≡ []
unfolding expected_version
version_unknown = refl

-- The last match of a line counts, and the first line that has one.
agent_read : agent_id (codes "{\"agentId\": 7, \"agentId\" :42x}\n{\"agentId\":9}") ≡ codes "42"
unfolding agent_id
agent_read = refl

os_read : os_value (codes "NAME=") (codes "ID=x\nNAME=\"Ubuntu\"\n") ≡ codes "Ubuntu"
unfolding os_value codes
os_read = refl

-- The status of a runner that ended well, of one that died while it started, and after a signal.
abbrev deadly : Shell
deadly log (is_alive pid) = replied 1 []
deadly log c = replied 0 (codes "17")

abbrev stopping : Shell
stopping log (sleep delay) = signalled
stopping log c = replied 0 (codes "17")

ended_well : (run agreeable (run_bootstrap script_settings) []).0 ≡ exited 0
unfolding run run_bootstrap prepare_runner install_runner check_runner fetch_credentials
    start_runner attend_runner check_started announce_runner read_release or_report or_kill report
    prestaged_runner_matches trapping leave leave_trapped terminate_runner cleanup_credentials
    post_status post_json post_attempts fetch_metadata fetch_attempts keep_fetched download_runner
    download_attempts version_matches codes ◌>>=◌ expected_version
ended_well = refl

died_early : (run deadly (run_bootstrap script_settings) []).0 ≡ exited 29
unfolding run run_bootstrap prepare_runner install_runner check_runner fetch_credentials
    start_runner attend_runner check_started announce_runner read_release or_report or_kill report
    prestaged_runner_matches trapping leave leave_trapped terminate_runner cleanup_credentials
    post_status post_json post_attempts fetch_metadata fetch_attempts keep_fetched download_runner
    download_attempts version_matches codes ◌>>=◌ expected_version
died_early = refl

stopped : (run stopping (run_bootstrap script_settings) []).0 ≡ exited 143
unfolding run run_bootstrap prepare_runner install_runner check_runner fetch_credentials
    start_runner attend_runner check_started announce_runner read_release or_report or_kill report
    prestaged_runner_matches trapping leave leave_trapped terminate_runner cleanup_credentials
    post_status post_json post_attempts fetch_metadata fetch_attempts keep_fetched download_runner
    download_attempts version_matches codes ◌>>=◌ expected_version
stopped = refl

run_bootstrap-IsWarranted_example :
    (home : Text) × IsWarranted
      (Warrant script_settings home)
      (run agreeable (run_bootstrap script_settings) []).1
run_bootstrap-IsWarranted_example = run_bootstrap-IsWarranted script_settings agreeable

run_bootstrap-clears_example :
    (home : Text) × (left : Leaves script_settings home
      (run agreeable (run_bootstrap script_settings) []))
    × IsWarranted (λ c _. Covered script_settings home c) left.before
run_bootstrap-clears_example = run_bootstrap-clears script_settings agreeable

-- An environment without the token.
abbrev given_env : Dict Text
given_env =
    (codes "GARM_CALLBACK_URL", codes "https://garm/cb")
    ∷ (codes "GARM_METADATA_URL", codes "https://garm/md")
    ∷ (codes "GARM_RUNNER_DOWNLOAD_URL", codes "https://github/r.tar.gz")
    ∷ (codes "GARM_RUNNER_FILENAME", codes "r.tar.gz")
    ∷ (codes "GARM_RUNNER_SHA256", codes "70")
    ∷ []

bootstrap-masked_example :
    ((run agreeable (bootstrap dialect [] (insert token_key (codes "a") given_env)) []).0
      ≡ (run agreeable (bootstrap dialect [] (insert token_key (codes "b") given_env)) []).0)
    × (masked_log
          (run agreeable (bootstrap dialect [] (insert token_key (codes "a") given_env)) []).1
        ≡ masked_log
            (run agreeable (bootstrap dialect [] (insert token_key (codes "b") given_env)) []).1)
unfolding codes
bootstrap-masked_example =
    bootstrap-masked dialect [] given_env (codes "a") (codes "b") agreeable refl refl
      (λ log c. refl)

length-run_bootstrap-le_example :
    length (run agreeable (run_bootstrap script_settings) []).1
    ≤ 46 * script_settings.max_attempts + 43
length-run_bootstrap-le_example = length-run_bootstrap-le script_settings agreeable

abbrev vm_input : Bootstrap
vm_input = record input { flavor = Vm.flavor_linux_general }

abbrev hostname : Text
hostname = owned_name kit.sha256 (codes "ctl") vm_input.name

vm_valid : Vm.Seed.validate_bootstrap vm_input ≡ ok tt
unfolding Vm.Seed.validate_bootstrap is_blank codes text_eq is_supported_arch
vm_valid = refl

launch-seed_for_example :
    launch 2
      (codes "/run/garm/bootstrap.env")
      (seed_for kit vm_input hostname).consumption_marker
      (bootstrap_env vm_input)
    ≡ launch_with
        (codes "/run/garm/bootstrap.env")
        (seed_for kit vm_input hostname).consumption_marker
        (variables_of vm_input)
unfolding codes
launch-seed_for_example =
    launch-seed_for kit vm_input (codes "ctl") (codes "/run/garm/bootstrap.env") 2
      (λ t. omega arith) vm_valid refl

read_settings-launched_example :
    (s : Settings) × (read_settings dialect
        (codes "vm runner started")
        (launch_environment (variables_of vm_input) ++ [])
      ≡ some s)
    × IsVmSettings vm_input s
read_settings-launched_example =
    read_settings-launched dialect (codes "vm runner started") vm_input [] vm_valid

abbrev box_input : Bootstrap
box_input = record input { flavor = Container.flavor_linux_general }

box_valid : Container.Plan.validate_bootstrap box_input ≡ ok tt
unfolding Container.Plan.validate_bootstrap is_blank codes text_eq is_supported_arch
box_valid = refl

init_wrapper-Handed_example :
    IsWarranted
      (Handed dialect (codes "container runner started") box_input)
      (run agreeable (init_wrapper (initial_env box_input)) []).1
    × Returning IsStripped (run agreeable (init_wrapper (initial_env box_input)) []).0
init_wrapper-Handed_example =
    init_wrapper-Handed dialect (codes "container runner started") box_input box_valid agreeable

cloud_config_file-bootstrap_env_example :
    (cloud_config_file
        (codes "/run/garm/bootstrap.env")
        (codes "0600")
        (codes "root:root")
        (bootstrap_env vm_input)
      ≡ cloud_config_file (codes "/run/garm/bootstrap.env") (codes "0600") (codes "root:root") []
        ++ indented (
            entry (codes "GARM_CALLBACK_URL") vm_input.callback_url
            ∷ entry (codes "GARM_METADATA_URL") vm_input.metadata_url
            ∷ entry (codes "GARM_INSTANCE_TOKEN") vm_input.token
            ∷ entry (codes "GARM_RUNNER_DOWNLOAD_URL") runner_tool_url
            ∷ entry (codes "GARM_RUNNER_FILENAME") runner_tool_filename
            ∷ entry (codes "GARM_RUNNER_SHA256") runner_tool_sha256
            ∷ []))
    × IsPlain vm_input.callback_url
    × IsPlain vm_input.metadata_url
    × IsPlain vm_input.token
cloud_config_file-bootstrap_env_example =
    cloud_config_file-bootstrap_env (codes "/run/garm/bootstrap.env") (codes "0600")
      (codes "root:root") vm_input vm_valid

agreeable-Obliges : Obliges agreeable
agreeable-Obliges log c = (0, codes "17", refl, λ _. refl)

run_bootstrap-Served_example :
    Served script_settings (run agreeable (run_bootstrap script_settings) [])
run_bootstrap-Served_example =
    run_bootstrap-Served script_settings agreeable agreeable-Obliges 0 refl
