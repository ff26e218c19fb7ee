-- ===== src/Container/Plan/Secrets.antt =====
-- internal/containerbackend/bootstrap.go: where the instance token goes.
use garm_provider_truenas.Base.{
  ◌≡◌, refl, Bool, false, not, ◌&&◌, List, [], ◌∷◌, arith, any, is_empty, ◌==◌,
}
use garm_provider_truenas.Base.Dict.{insert, erase}
use garm_provider_truenas.Base.Text.{Text, codes, text_eq, contains}
use garm_provider_truenas.Kit.{Kit}
use garm_provider_truenas.Provider.{
  Bootstrap, runner_tool_url, runner_tool_filename, runner_tool_sha256,
}
use garm_provider_truenas.Container.Plan.{
  StagedFile, bootstrap_token_path, bootstrap_env, initial_env, build_bootstrap_plan, token_present,
  plan_contains_token, files_contain, is_clean_file, staged_file,
}

-- A text that holds a token that is not empty.
unfoldable pub holds : Text → Text → Bool
holds token t = not (is_empty token) && contains t token

-- What a container's environment is made of at its creation.
unfoldable pub public_values : Bootstrap → List Text
unfolding codes
public_values input =
    input.callback_url
    ∷ input.metadata_url
    ∷ runner_tool_url
    ∷ runner_tool_filename
    ∷ runner_tool_sha256
    ∷ codes "1"
    ∷ []

env-secret :
    (input : Bootstrap)
    → token_present (initial_env input) input.token ≡ any (holds input.token) (public_values input)
unfolding token_present initial_env bootstrap_env insert erase text_eq codes any holds public_values
env-secret input = refl

files-secret :
    (kit : Kit) (input : Bootstrap)
    → plan_contains_token (build_bootstrap_plan kit input) input.token
      ≡ any (holds input.token) (kit.container_bootstrap_script ∷ kit.container_init_wrapper ∷ [])
unfolding plan_contains_token build_bootstrap_plan files_contain is_clean_file staged_file any holds
files-secret kit input = ground arith

-- A file that is said to hold the secret, but is not the token file that root alone reads.
unfoldable pub is_exposed : StagedFile → Bool
unfolding text_eq codes
is_exposed file =
    file.contains_secret && not (text_eq file.path bootstrap_token_path && file.mode == 0o600)

files-exposed :
    (kit : Kit) (input : Bootstrap) → any is_exposed (build_bootstrap_plan kit input).files ≡ false
unfolding build_bootstrap_plan is_exposed staged_file any text_eq codes
files-exposed kit input = refl

-- The environment that a container is created with shows the token exactly if one of the values that
-- are public holds it, and the environment that it is left with never does; the plan counts as one
-- that leaks the token exactly if one of the two scripts holds it; and the only file that is said to
-- hold the secret is the token file, with mode 0600.
pub build_bootstrap_plan-secret :
    (kit : Kit) (input : Bootstrap)
    → (token_present (build_bootstrap_plan kit input).init_env input.token
        ≡ any (holds input.token) (public_values input))
      × (token_present (build_bootstrap_plan kit input).final_env input.token ≡ false)
      × (plan_contains_token (build_bootstrap_plan kit input) input.token
          ≡ any
              (holds input.token)
              (kit.container_bootstrap_script ∷ kit.container_init_wrapper ∷ []))
      × (any is_exposed (build_bootstrap_plan kit input).files ≡ false)
unfolding build_bootstrap_plan token_present
build_bootstrap_plan-secret kit input =
    (env-secret input, refl, files-secret kit input, files-exposed kit input)
