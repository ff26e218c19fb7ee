-- ===== src/Script/Secrecy/Environment.antt =====
-- The script from its environment on, which holds the instance token: `bootstrap_token` and `unset`.
use garm_provider_truenas.Base.{
  ◌≡◌, refl, false, [], ◌∷◌, ◌++◌, Option, none, some, arith, is_empty,
}
use garm_provider_truenas.Base.Text.{Text, codes, text_eq, text_eq_refl, text_eq_iff}
use garm_provider_truenas.Base.Dict.{Dict, lookup, insert, erase, lookup-insert}
use garm_provider_truenas.Script.Words.{required, defaulted}
use garm_provider_truenas.Script.Settings.{
  Dialect, Settings, token_key, when_set, with_defaults, read_settings,
}
use garm_provider_truenas.Script.Shell.{Prog, exits}
use garm_provider_truenas.Script.Bootstrap.{run_bootstrap, bootstrap}
use garm_provider_truenas.Script.Runs.{Shell, run}
use garm_provider_truenas.Script.Secrecy
use garm_provider_truenas.Script.Secrecy.{Alike, both_exit}
use garm_provider_truenas.Script.Secrecy.Phases.{run_bootstrap-Alike}

erase-insert :
    (key value : Text) (env : Dict Text) → erase key (insert key value env) ≡ erase key env
unfolding erase insert
erase-insert key value [] = ground (arith, text_eq_refl key)
erase-insert key value ((k, v) ∷ env) =
    ground (arith, text_eq_refl key, text_eq_iff k key, erase-insert key value env)

abbrev IsOther : Text → Type 0
IsOther key = text_eq token_key key ≡ false

-- The other variables that the script reads.
others :
    IsOther (codes "GARM_CALLBACK_URL")
    × IsOther (codes "GARM_METADATA_URL")
    × IsOther (codes "GARM_RUNNER_DOWNLOAD_URL")
    × IsOther (codes "GARM_RUNNER_FILENAME")
    × IsOther (codes "GARM_RUNNER_SHA256")
    × IsOther (codes "GARM_BOOTSTRAP_PRESTAGED_RUNNER_HOME")
    × IsOther (codes "GARM_BOOTSTRAP_RUNNER_HOME")
    × IsOther (codes "GARM_BOOTSTRAP_JIT_DIR")
    × IsOther (codes "GARM_BOOTSTRAP_RUNNER_ARCHIVE")
    × IsOther (codes "GARM_BOOTSTRAP_MAX_ATTEMPTS")
    × IsOther (codes "GARM_BOOTSTRAP_RETRY_DELAY_SECONDS")
    × IsOther (codes "GARM_BOOTSTRAP_READY_DELAY_SECONDS")
unfolding text_eq codes
others = (refl, refl, refl, refl, refl, refl, refl, refl, refl, refl, refl, refl)

lookup-other :
    (key value : Text) (env : Dict Text)
    → text_eq token_key key ≡ false
    → lookup key (insert token_key value env) ≡ lookup key env
lookup-other key value env h = rw (lookup-insert token_key key value env) (rw h refl)

module _ (dialect : Dialect) (started : Text) (env : Dict Text) where
  required-token :
      (token : Text)
      → is_empty token ≡ false
      → required (insert token_key token env) token_key ≡ some token
  unfolding required
  required-token [] h = cc
  required-token (c ∷ t) h =
      rw (lookup-insert token_key token_key (c ∷ t) env) (rw (text_eq_refl token_key) refl)

  required-other :
      (key value : Text)
      → text_eq token_key key ≡ false
      → required (insert token_key value env) key ≡ required env key
  unfolding required
  required-other key value h = rw (lookup-other key value env h) refl

  defaulted-other :
      (key value text : Text)
      → text_eq token_key key ≡ false
      → defaulted (insert token_key value env) key text ≡ defaulted env key text
  unfolding defaulted
  defaulted-other key value text h = rw (required-other key value h) refl

  with_defaults-insert :
      (value callback metadata token url filename sha256 : Text)
      → with_defaults dialect started
          (insert token_key value env)
          callback
          metadata
          token
          url
          filename
          sha256
        ≡ with_defaults dialect started env callback metadata token url filename sha256
  unfolding with_defaults
  with_defaults-insert value callback metadata token url filename sha256 =
      rw
        (
          erase-insert token_key value env,
          lookup-other (codes "GARM_BOOTSTRAP_PRESTAGED_RUNNER_HOME") value env others.5,
          defaulted-other (codes "GARM_BOOTSTRAP_RUNNER_HOME") value
              (codes "/home/runner/actions-runner") others.6,
          defaulted-other (codes "GARM_BOOTSTRAP_JIT_DIR") value (codes "/run/garm-jit") others.7,
          defaulted-other (codes "GARM_BOOTSTRAP_RUNNER_ARCHIVE") value
              (codes "/home/runner/" ++ filename) others.8,
          defaulted-other (codes "GARM_BOOTSTRAP_MAX_ATTEMPTS") value (codes "5") others.9,
          defaulted-other (codes "GARM_BOOTSTRAP_RETRY_DELAY_SECONDS") value (codes "2") others.10,
          defaulted-other (codes "GARM_BOOTSTRAP_READY_DELAY_SECONDS") value (codes "2") others.11,
        )
        refl

  -- The script, where its settings have been read.
  abbrev with_settings : Option Settings → Prog (Unit {0})
  with_settings none = exits dialect.unset_status
  with_settings (some s) = run_bootstrap s

  when_set-Alike :
      (o : Option Text) (f g : Text → Option Settings)
      → ((a : Text) → Alike (with_settings (f a)) (with_settings (g a)))
      → Alike (with_settings (when_set o f)) (with_settings (when_set o g))
  when_set-Alike none f g h = both_exit
  when_set-Alike (some a) f g h = h a

  module _ (t u : Text) where
    set-Alike :
        (key : Text) (f g : Text → Option Settings)
        → text_eq token_key key ≡ false
        → ((a : Text) → Alike (with_settings (f a)) (with_settings (g a)))
        → Alike
            (with_settings (when_set (required (insert token_key t env) key) f))
            (with_settings (when_set (required (insert token_key u env) key) g))
    set-Alike key f g other h =
        rw (required-other key t other, required-other key u other)
          (when_set-Alike (required env key) f g h)

    defaults-Alike :
        (callback metadata url filename sha256 : Text)
        → Alike
            (run_bootstrap
              (with_defaults dialect started env callback metadata t url filename sha256))
            (run_bootstrap
              (with_defaults dialect started env callback metadata u url filename sha256))
    unfolding with_defaults
    defaults-Alike callback metadata url filename sha256 =
        run_bootstrap-Alike
          (with_defaults dialect started env callback metadata t url filename sha256) t u

    bootstrap-Alike :
        is_empty t ≡ false
        → is_empty u ≡ false
        → Alike
            (bootstrap dialect started (insert token_key t env))
            (bootstrap dialect started (insert token_key u env))
    unfolding bootstrap read_settings
    bootstrap-Alike full_t full_u = set-Alike (codes "GARM_CALLBACK_URL") _ _ others.0 λ callback.
        set-Alike (codes "GARM_METADATA_URL") _ _ others.1 λ metadata.
          rw (required-token t full_t, required-token u full_u)
            (set-Alike (codes "GARM_RUNNER_DOWNLOAD_URL") _ _ others.2 λ url.
              set-Alike (codes "GARM_RUNNER_FILENAME") _ _ others.3 λ filename.
                set-Alike (codes "GARM_RUNNER_SHA256") _ _ others.4 λ sha256.
                  rw
                    (
                      with_defaults-insert t callback metadata t url filename sha256,
                      with_defaults-insert u callback metadata u url filename sha256,
                    )
                    (defaults-Alike callback metadata url filename sha256))

-- Two runs of the script in environments that differ in the instance token only, neither of which is
-- empty, against the same outside, which does not look at the standard input of `curl`, end alike and
-- ask for the same commands with the same arguments and the same environments: the token reaches
-- nothing but the standard input of `curl`, and no process that the script starts.
pub bootstrap-masked :
    (dialect : Dialect) (started : Text) (env : Dict Text) (t u : Text) (shell : Shell)
    → is_empty t ≡ false
    → is_empty u ≡ false
    → Secrecy.Blind shell
    → ((run shell (bootstrap dialect started (insert token_key t env)) []).0
        ≡ (run shell (bootstrap dialect started (insert token_key u env)) []).0)
      × (Secrecy.masked_log (run shell (bootstrap dialect started (insert token_key t env)) []).1
          ≡ Secrecy.masked_log
              (run shell (bootstrap dialect started (insert token_key u env)) []).1)
bootstrap-masked dialect started env t u shell full_t full_u blind =
    Secrecy.run-Alike shell blind (bootstrap-Alike dialect started env t u full_t full_u) [] [] refl
