-- ===== src/Vm/Seed/Chain.antt =====
-- internal/vmbackend/manager.go and internal/truenasstore/bootstrap.go: the environment in which
-- the launcher of a VM executes the runner bootstrap.
use garm_provider_truenas.Base.{◌≡◌, refl, ◌++◌, some, ok}
use garm_provider_truenas.Base.Text.{Text, codes, text_eq}
use garm_provider_truenas.Base.Dict.{Dict, lookup}
use garm_provider_truenas.Provider.{
  Bootstrap, runner_tool_url, runner_tool_filename, runner_tool_sha256,
}
use garm_provider_truenas.Vm.Seed.{validate_bootstrap}
use garm_provider_truenas.Vm.Seed.Launched.{IsSound, IsSound-of_valid, variables_of}
use garm_provider_truenas.Script.Launcher.{launch_environment}
use garm_provider_truenas.Script.Words.{defaulted, expected_version}
use garm_provider_truenas.Script.Settings.{Dialect, Settings, read_settings, with_defaults}
use garm_provider_truenas.Script.Settings.Given.{IsGiven, required-some, read_settings_given}

IsGiven-launched :
    (input : Bootstrap) (inherited : Dict Text)
    → IsSound input
    → IsGiven
        (launch_environment (variables_of input) ++ inherited)
        input.callback_url
        input.metadata_url
        input.token
        runner_tool_url
        runner_tool_filename
        runner_tool_sha256
unfolding launch_environment variables_of codes lookup text_eq
IsGiven-launched input inherited sound = record {
  callback_set = required-some _ _ input.callback_url refl sound.callback_full;
  metadata_set = required-some _ _ input.metadata_url refl sound.metadata_full;
  token_set = required-some _ _ input.token refl sound.token_full;
  url_set = required-some _ _ runner_tool_url refl refl;
  filename_set = required-some _ _ runner_tool_filename refl refl;
  sha256_set = required-some _ _ runner_tool_sha256 refl refl;
}

-- What the bootstrap of a VM is to take from its environment.
pub record IsVmSettings (input : Bootstrap) (s : Settings) : Type 0 where
  pub callback_url_is : s.callback_url ≡ input.callback_url
  pub metadata_url_is : s.metadata_url ≡ input.metadata_url
  pub token_is : s.token ≡ input.token
  pub download_url_is : s.download_url ≡ runner_tool_url
  pub sha256_is : s.sha256 ≡ runner_tool_sha256
  pub version_is : expected_version s.filename ≡ codes "2.337.0"
  pub home_is : s.runner_home ≡ codes "/home/garm-runner/actions-runner"
  pub jit_is : s.jit_dir ≡ codes "/run/garm-jit"
  pub archive_is :
      s.runner_archive ≡ codes "/home/garm-runner/actions-runner-linux-x64-2.337.0.tar.gz"

-- In the environment that the launcher adds to its own for a bootstrap that the manager accepts, the
-- runner bootstrap finds its settings: the three values of the bootstrap, the pinned archive with its
-- digest and version, and the directories that the launcher made.
pub read_settings-launched :
    (dialect : Dialect) (started : Text) (input : Bootstrap) (inherited : Dict Text)
    → validate_bootstrap input ≡ ok tt
    → (s : Settings) × (read_settings dialect started
          (launch_environment (variables_of input) ++ inherited)
        ≡ some s)
      × IsVmSettings input s
unfolding with_defaults launch_environment variables_of codes lookup text_eq defaulted
    expected_version
read_settings-launched dialect started input inherited valid =
    let given = IsGiven-launched input inherited (IsSound-of_valid input valid) in
    (
      _,
      read_settings_given dialect started given,
      record {
        callback_url_is = refl;
        metadata_url_is = refl;
        token_is = refl;
        download_url_is = refl;
        sha256_is = refl;
        version_is = refl;
        home_is = refl;
        jit_is = refl;
        archive_is = refl;
      },
    )
