-- ===== src/Script/Settings/Given.antt =====
-- internal/truenasstore/bootstrap.go: the settings of the script when its required variables are set.
use garm_provider_truenas.Base.{◌≡◌, refl, false, [], ◌∷◌, some, is_empty}
use garm_provider_truenas.Base.Text.{Text, codes}
use garm_provider_truenas.Base.Dict.{Dict, lookup}
use garm_provider_truenas.Script.Words.{required}
use garm_provider_truenas.Script.Settings.{Dialect, read_settings, with_defaults, token_key}

pub required-some :
    (env : Dict Text) (key value : Text)
    → lookup key env ≡ some value
    → is_empty value ≡ false
    → required env key ≡ some value
unfolding required
required-some env key [] e h = cc
required-some env key (c ∷ value) e h = rw e refl

-- An environment in which the six required variables have these values.
pub record IsGiven (env : Dict Text) (callback metadata token url filename sha256 : Text)
    : Type 0 where
  pub callback_set : required env (codes "GARM_CALLBACK_URL") ≡ some callback
  pub metadata_set : required env (codes "GARM_METADATA_URL") ≡ some metadata
  pub token_set : required env token_key ≡ some token
  pub url_set : required env (codes "GARM_RUNNER_DOWNLOAD_URL") ≡ some url
  pub filename_set : required env (codes "GARM_RUNNER_FILENAME") ≡ some filename
  pub sha256_set : required env (codes "GARM_RUNNER_SHA256") ≡ some sha256

pub read_settings_given :
    (dialect : Dialect) (started : Text) {env : Dict Text}
    {callback metadata token url filename sha256 : Text}
    → IsGiven env callback metadata token url filename sha256
    → read_settings dialect started env
      ≡ some (with_defaults dialect started env callback metadata token url filename sha256)
unfolding read_settings
read_settings_given dialect started g =
    rw (g.callback_set, g.metadata_set, g.token_set, g.url_set, g.filename_set, g.sha256_set) refl
