-- ===== src/Script/Settings.antt =====
-- internal/truenasstore/bootstrap.go: what the script takes from its environment.
pub mod Given
use garm_provider_truenas.Base.{ℕ, List, [], ◌∷◌, ◌++◌, Option, none, some}
use garm_provider_truenas.Base.Text.{Text, codes, cut_suffix_char}
use garm_provider_truenas.Base.Dict.{Dict, lookup, erase}
use garm_provider_truenas.Script.Words.{required, defaulted, strip_suffix, or_else}

-- What differs between shells: the number that `[` reads in a text, with 0 where it finds none, and
-- the status of a failed `${x:?}`.
pub record Dialect : Type 0 where
  pub numeral : Text → ℕ
  pub unset_status : ℕ

pub record Settings : Type 0 where
  pub callback_url : Text
  pub metadata_url : Text
  pub token : Text
  pub download_url : Text
  pub filename : Text
  pub sha256 : Text
  pub runner_home : Text
  pub prestaged_runner_home : Text
  pub jit_dir : Text
  pub runner_archive : Text
  pub max_attempts : ℕ
  pub retry_delay : Text
  pub ready_delay : Text
  -- What the script reports of a runner that has started; the provider's two scripts differ in it.
  pub started_message : Text
  -- The environment of the commands.
  pub environment : Dict Text

abbrev pub token_key : Text
token_key = codes "GARM_INSTANCE_TOKEN"

-- The optional settings.
unfoldable pub with_defaults :
    Dialect → Text → Dict Text → Text → Text → Text → Text → Text → Text → Settings
unfolding defaulted lookup erase codes
with_defaults dialect started env callback metadata token url filename sha256 = record {
  callback_url = callback;
  metadata_url = metadata;
  token = token;
  download_url = url;
  filename = filename;
  sha256 = sha256;
  runner_home =
      defaulted env (codes "GARM_BOOTSTRAP_RUNNER_HOME") (codes "/home/runner/actions-runner");
  prestaged_runner_home =
      or_else (lookup (codes "GARM_BOOTSTRAP_PRESTAGED_RUNNER_HOME") env) (codes "/home/runner");
  jit_dir = defaulted env (codes "GARM_BOOTSTRAP_JIT_DIR") (codes "/run/garm-jit");
  runner_archive =
      defaulted env (codes "GARM_BOOTSTRAP_RUNNER_ARCHIVE") (codes "/home/runner/" ++ filename);
  max_attempts = dialect.numeral (defaulted env (codes "GARM_BOOTSTRAP_MAX_ATTEMPTS") (codes "5"));
  retry_delay = defaulted env (codes "GARM_BOOTSTRAP_RETRY_DELAY_SECONDS") (codes "2");
  ready_delay = defaulted env (codes "GARM_BOOTSTRAP_READY_DELAY_SECONDS") (codes "2");
  started_message = started;
  environment = erase token_key env;
}

abbrev pub when_set : Option Text → (Text → Option Settings) → Option Settings
when_set none f = none
when_set (some value) f = f value

unfoldable pub read_settings : Dialect → Text → Dict Text → Option Settings
read_settings dialect started env = when_set (required env (codes "GARM_CALLBACK_URL")) λ callback.
    when_set (required env (codes "GARM_METADATA_URL")) λ metadata.
      when_set (required env token_key) λ token.
        when_set (required env (codes "GARM_RUNNER_DOWNLOAD_URL")) λ url.
          when_set (required env (codes "GARM_RUNNER_FILENAME")) λ filename.
            when_set (required env (codes "GARM_RUNNER_SHA256")) λ sha256.
              some (with_defaults dialect started env callback metadata token url filename sha256)

-- `status_url`, `callback_base` and `metadata_base`.
unfoldable pub status_url_of : Text → Text
unfolding cut_suffix_char strip_suffix codes
status_url_of callback =
    let url = cut_suffix_char b'/' callback in
    elim (strip_suffix (codes "/status") url) [ some base ↦ url | none ↦ url ++ codes "/status" ]

unfoldable pub callback_base_of : Text → Text
unfolding status_url_of strip_suffix codes
callback_base_of callback =
    let url = status_url_of callback in or_else (strip_suffix (codes "/status") url) url

unfoldable pub metadata_base_of : Text → Text
unfolding cut_suffix_char
metadata_base_of metadata = cut_suffix_char b'/' metadata
