-- ===== src/Command/Main.antt =====
-- cmd/garm-provider-truenas/main.go: `runCLI`. The library of providers reads the environment, calls
-- the provider and turns an error into an exit code; it is a parameter.
use garm_provider_truenas.Base.{
  ℕ, List, [], ◌∷◌, Error, wrap, Result, ok, err, Outcome, done, failed, Run,
}
use garm_provider_truenas.Base.Dict.{Dict}
use garm_provider_truenas.Base.Text.{Text}
use garm_provider_truenas.Command.Environment.{
  Commands, ensure_scale_set_lifecycle_pool_placeholder,
}
use garm_provider_truenas.Command.External.{World, ExternalProvider, new_external_provider}

-- `execution.Environment`, as far as the command reads it.
pub record Environment : Type 0 where
  pub provider_config_file : Text
  pub controller_id : Text

-- `execution` of garm-provider-common.
pub record Execution (S : Type 0) : Type 0 where
  pub commands : Commands
  pub get_environment : Dict Text → Result Environment
  pub run : Environment → ExternalProvider → Run S Text
  pub resolve_error_to_exit_code : Error → ℕ

-- What the process leaves: the exit code, the standard output, the errors that it reports.
pub record Exit : Type 0 where
  pub exit_code : ℕ
  pub stdout : Text
  pub stderr : List Error

module _ {S : Type 0} (execution : Execution S) (world : World S) where
  abbrev fails : ℕ → Error → Exit
  fails code e = record { exit_code = code; stdout = []; stderr = e ∷ [] }

  ran : Outcome S Text → Exit × S
  ran (done result s) = (record { exit_code = 0; stdout = result; stderr = [] }, s)
  ran (failed e s) =
      (fails (execution.resolve_error_to_exit_code e) (wrap "failed to run command" e), s)

  run_provider : Environment → Result ExternalProvider → S → Exit × S
  unfolding ran
  run_provider environment (err e) s = (fails (execution.resolve_error_to_exit_code e) e, s)
  run_provider environment (ok p) s = ran (execution.run environment p s)

  run_environment : Result Environment → S → Exit × S
  unfolding run_provider
  run_environment (err e) s = (fails 1 e, s)
  run_environment (ok environment) s =
      run_provider environment
        (new_external_provider world environment.provider_config_file environment.controller_id) s

  unfoldable pub run_cli : Dict Text → S → Exit × S
  unfolding run_environment
  run_cli env s =
      run_environment
        (execution.get_environment
          (ensure_scale_set_lifecycle_pool_placeholder execution.commands env))
        s
