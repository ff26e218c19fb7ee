-- ===== src/Script/Success/Phases.antt =====
-- internal/truenasstore/bootstrap.go: the phases of the script where its commands succeed.
use garm_provider_truenas.Base.{
  String, ℕ, suc, ◌≡◌, refl, Bool, true, false, In, ◌==◌, if◌then◌else◌, is_empty,
}
use garm_provider_truenas.Base.Text.{Text, codes, text_eq}
use garm_provider_truenas.Base.Dict.{erase}
use garm_provider_truenas.Script.Shell.{Command, replied, post, start, Prog, ret, test, negated}
use garm_provider_truenas.Script.Words.{agent_id, first_line}
use garm_provider_truenas.Script.Settings.{Settings, token_key, status_url_of}
use garm_provider_truenas.Script.Steps.{
  post_status, fetch_metadata, absent, version_matches, prestaged_runner_matches,
}
use garm_provider_truenas.Script.Bootstrap.{
  or_exit, or_report, or_kill, reuse_runner, install_runner, check_runner, fetch_credentials,
  start_runner, prepare_runner, check_started, read_release, announce_runner, ready_payload,
}
use garm_provider_truenas.Script.Runs.{Log, Shell, Did}
use garm_provider_truenas.Script.Runs.Goes.{
  IsNeeded, Obliges, Goes, Goes-bind, Goes-then, Goes-ret, Goes-if, Goes-answered, Goes-test,
  Goes-must, Goes-any, Goes-read, Goes-and_also,
}
use garm_provider_truenas.Script.Success.{
  Goes-post_json, Goes-post_status, Goes-holds, Goes-both, Goes-fetch_metadata,
  Goes-download_runner,
}

-- The runner was started as the process with this ID.
abbrev pub Started : Settings → Text → Log → Type 0
Started s pid log =
    (status : ℕ) × In (start (erase token_key s.environment) (codes "./run.sh"), replied status pid)
      log

-- The post that says that the runner is idle was answered with success.
abbrev pub Announced : Settings → Log → Type 0
Announced s log =
    (id : Text) × Did (post s.token (status_url_of s.callback_url) (ready_payload s id)) log

module _ (s : Settings) (shell : Shell) (obliges : Obliges shell) (left : ℕ)
    (enough : s.max_attempts ≡ suc left) where
  Goes-absent : (file : Text) (log : Log) → Goes shell (absent file) log (λ _ _. Unit {0})
  Goes-absent file log = Goes-and_also shell _ _ log (Goes-negated _ log) (Goes-negated _)
    where
      Goes-negated : (c : Command) (log : Log) → Goes shell (negated (test c)) log (λ _ _. Unit {0})
      Goes-negated c log =
          Goes-bind shell _ _ log (Goes-any shell obliges c log) λ b l _. Goes-ret shell _ l tt

  if_ret : (b x y : Bool) → (if b then ret x else ret y) ≡ ret (if b then x else y)
  if_ret true x y = refl
  if_ret false x y = refl

  Goes-version_matches :
      (home expected : Text) (log : Log)
      → Goes shell (version_matches s home expected) log (λ _ _. Unit {0})
  unfolding version_matches
  Goes-version_matches home expected log =
      Goes-answered shell obliges _ _
        (λ status output. if status == 0 then text_eq (first_line output) expected else false) log
        λ status output z. (if_ret (status == 0) _ _, tt)

  pub Goes-prestaged : (log : Log) → Goes shell (prestaged_runner_matches s) log (λ _ _. Unit {0})
  unfolding prestaged_runner_matches
  Goes-prestaged log =
      Goes-if shell (is_empty s.prestaged_runner_home) _ _ log (Goes-ret shell false log tt) (
        Goes-if shell (is_empty _) _ _ log (Goes-ret shell false log tt) (
          Goes-and_also shell _ _ log (Goes-any shell obliges _ log) λ l1.
            Goes-and_also shell _ _ l1 (Goes-any shell obliges _ l1) λ l2.
              Goes-and_also shell _ _ l2 (Goes-any shell obliges _ l2) λ l3.
                Goes-and_also shell _ _ l3 (Goes-any shell obliges _ l3) λ l4.
                  Goes-and_also shell _ _ l4 (Goes-absent _ l4) λ l5.
                    Goes-and_also shell _ _ l5 (Goes-absent _ l5) λ l6.
                      Goes-and_also shell _ _ l6 (Goes-absent _ l6) (Goes-version_matches _ _)))

  Goes-or_exit :
      (p : Prog Bool) (status : ℕ) (log : Log)
      → Goes shell p log (λ b _. b ≡ true)
      → Goes shell (or_exit p status) log (λ _ _. Unit {0})
  Goes-or_exit p status log h = Goes-bind shell p _ log h λ b l e. rw e (Goes-ret shell tt l tt)

  Goes-or_report :
      (p : Prog Bool) (message : String) (status : ℕ) (log : Log)
      → Goes shell p log (λ b _. b ≡ true)
      → Goes shell (or_report s p message status) log (λ _ _. Unit {0})
  unfolding or_report
  Goes-or_report p message status log h =
      Goes-bind shell p _ log h λ b l e. rw e (Goes-ret shell tt l tt)

  Goes-or_kill :
      {P : Log → Type 0} (pid : Text) (p : Prog Bool) (status : ℕ) (log : Log)
      → Goes shell p log (λ b l. (b ≡ true) × P l)
      → Goes shell (or_kill pid p status) log (λ _ l. P l)
  unfolding or_kill
  Goes-or_kill pid p status log h =
      Goes-bind shell p _ log h λ b l e. rw e.0 (Goes-ret shell tt l e.1)

  -- A test that is needed.
  Goes-yes :
      (c : Command) (needed : IsNeeded c) (log : Log) → Goes shell (test c) log (λ b _. b ≡ true)
  Goes-yes c needed log =
      Goes-holds s shell obliges left enough _ log (Goes-test shell obliges c log needed)

  Goes-reported :
      (status message : String) (code : ℕ) (log : Log)
      → Goes shell (or_exit (post_status s status message) code) log (λ _ _. Unit {0})
  Goes-reported status message code log =
      Goes-or_exit _ code log (Goes-post_status s shell obliges left enough status message log)

  Goes-reuse_runner : (log : Log) → Goes shell (reuse_runner s) log (λ _ _. Unit {0})
  unfolding reuse_runner
  Goes-reuse_runner log =
      Goes-then shell _ _ log (Goes-reported _ _ 20 log) λ l. Goes-must shell obliges _ l tt

  Goes-install_runner : (log : Log) → Goes shell (install_runner s) log (λ _ _. Unit {0})
  unfolding install_runner
  Goes-install_runner log = Goes-then shell _ _ log (Goes-reported _ _ 20 log) λ l1.
      Goes-then shell _ _ l1
        (Goes-or_report _ _ 21 l1 (Goes-download_runner s shell obliges left enough l1))
        λ l2. Goes-then shell _ _ l2 (Goes-must shell obliges _ l2 tt) λ l3.
          Goes-then shell _ _ l3 (Goes-must shell obliges _ l3 tt) λ l4.
            Goes-then shell _ _ l4 (Goes-or_report _ _ 22 l4 (Goes-yes _ tt l4))
              λ l5. Goes-must shell obliges _ l5 tt

  Goes-check_runner :
      (home : Text) (log : Log) → Goes shell (check_runner s home) log (λ _ _. Unit {0})
  unfolding check_runner
  Goes-check_runner home log =
      Goes-then shell _ _ log
        (Goes-or_report _ _ 23 log (
          Goes-both s shell obliges left enough _ _ log (Goes-test shell obliges _ log tt)
            (Goes-yes _ tt)))
        λ l1.
          Goes-then shell _ _ l1 (Goes-or_report _ _ 24 l1 (Goes-yes _ tt l1))
            λ l2. Goes-must shell obliges _ l2 tt

  Goes-fetched :
      (path destination : Text) (message : String) (code : ℕ) (log : Log)
      → Goes shell
          (or_report s (fetch_metadata s path destination) message code)
          log
          (λ _ _. Unit {0})
  Goes-fetched path destination message code log =
      Goes-or_report _ message code log
        (Goes-fetch_metadata s shell obliges left enough path destination log)

  Goes-fetch_credentials : (log : Log) → Goes shell (fetch_credentials s) log (λ _ _. Unit {0})
  unfolding fetch_credentials
  Goes-fetch_credentials log = Goes-then shell _ _ log (Goes-reported _ _ 25 log) λ l1.
      Goes-then shell _ _ l1 (Goes-fetched _ _ _ 26 l1) λ l2.
        Goes-then shell _ _ l2 (Goes-fetched _ _ _ 27 l2) λ l3.
          Goes-then shell _ _ l3 (Goes-fetched _ _ _ 28 l3) λ l4.
            Goes-then shell _ _ l4 (Goes-must shell obliges _ l4 tt) λ l5.
              Goes-then shell _ _ l5 (Goes-must shell obliges _ l5 tt)
                λ l6. Goes-must shell obliges _ l6 tt

  pub Goes-prepare_runner :
      (matched : Bool) (home : Text) (log : Log)
      → Goes shell (prepare_runner s matched home) log (Started s)
  unfolding prepare_runner start_runner
  Goes-prepare_runner matched home log =
      Goes-then shell _ _ log
        (Goes-if shell matched _ _ log (Goes-reuse_runner log) (Goes-install_runner log))
        λ l1. Goes-then shell _ _ l1 (Goes-check_runner home l1) λ l2.
          Goes-then shell _ _ l2 (Goes-fetch_credentials l2) λ l3. Goes-read shell obliges _ l3

  pub Goes-check_started :
      (pid : Text) (log : Log) → Goes shell (check_started s pid) log (λ _ _. Unit {0})
  unfolding check_started
  Goes-check_started pid log =
      Goes-then shell _ _ log (Goes-must shell obliges _ log tt)
        λ l1. Goes-bind shell _ _ l1 (Goes-yes _ tt l1) λ alive l2 e. rw e (Goes-ret shell tt l2 tt)

  Goes-read_release : (log : Log) → Goes shell read_release log (λ _ _. Unit {0})
  unfolding read_release
  Goes-read_release log = Goes-bind shell _ _ log (Goes-any shell obliges _ log) λ found l1 _.
      Goes-if shell found _ _ l1
        (Goes-bind shell _ _ l1 (Goes-read shell obliges _ l1) λ named l2 _.
          Goes-bind shell _ _ l2 (Goes-read shell obliges _ l2)
            λ versioned l3 _. Goes-ret shell _ l3 tt)
        (Goes-ret shell _ l1 tt)

  pub Goes-announce_runner :
      (pid : Text) (log : Log) → Goes shell (announce_runner s pid) log (λ _. Announced s)
  unfolding announce_runner
  Goes-announce_runner pid log = Goes-bind shell _ _ log (Goes-read_release log) λ release l1 _.
      Goes-bind shell _ _ l1 (Goes-read shell obliges _ l1) λ config l2 _.
        Goes-bind shell _ _ l2
          (Goes-or_kill pid _ 30 l2 (Goes-post_json s shell obliges left enough _ _ l2))
          λ _ l3 _.
            let (b, l4, e, q) = Goes-post_json s shell obliges left enough _ _ l3 in
            Goes-or_kill pid _ 31 l3 (b, l4, e, (q.0, (agent_id config, q.1)))
