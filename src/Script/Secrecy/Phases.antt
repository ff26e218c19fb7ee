-- ===== src/Script/Secrecy/Phases.antt =====
-- The script is the same for every token, but for what it gives to the standard input of `curl`.
use garm_provider_truenas.Base.{String, ℕ, zero, suc, ◌≡◌, refl, Bool, []}
use garm_provider_truenas.Base.Text.{Text}
use garm_provider_truenas.Script.Shell.{Command, Prog, test}
use garm_provider_truenas.Script.Settings.{Settings}
use garm_provider_truenas.Script.Steps.{
  pause, post_attempts, post_json, post_status, fetch_attempts, fetch_metadata, download_attempts,
  download_runner, prestaged_runner_matches, trapping, leave, leave_trapped, cleanup_credentials,
  version_matches,
}
use garm_provider_truenas.Script.Bootstrap.{
  or_exit, report, or_report, reuse_runner, install_runner, check_runner, fetch_credentials,
  start_runner, prepare_runner, check_started, read_release, or_kill, announce_runner,
  attend_runner, home_of, run_bootstrap, ready_payload,
}
use garm_provider_truenas.Script.Secrecy.{
  masked, Alike, both_ret, both_exit, both_trapped, both_ask, Alike-refl, Alike-bind, Alike-if,
}

module _ (s : Settings) (t u : Text) where
  abbrev one : Settings
  one = record s { token = t }

  abbrev two : Settings
  two = record s { token = u }

  test-Alike : (c d : Command) → masked c ≡ masked d → Alike (test c) (test d)
  test-Alike c d e = both_ask e (λ r. Alike-refl _)

  post_attempts-Alike :
      (url payload : Text) (left : ℕ)
      → Alike (post_attempts one url payload left) (post_attempts two url payload left)
  unfolding post_attempts
  post_attempts-Alike url payload zero = both_ret
  post_attempts-Alike url payload (suc left) = Alike-bind (test-Alike _ _ refl) λ sent.
      Alike-if sent both_ret
        (Alike-bind (Alike-refl (pause s left)) (λ _. post_attempts-Alike url payload left))

  post_status-Alike :
      (status message : String)
      → Alike (post_status one status message) (post_status two status message)
  unfolding post_status post_json
  post_status-Alike status message = post_attempts-Alike _ _ s.max_attempts

  fetch_attempts-Alike :
      (url destination : Text) (left : ℕ)
      → Alike (fetch_attempts one url destination left) (fetch_attempts two url destination left)
  unfolding fetch_attempts
  fetch_attempts-Alike url destination zero = both_ret
  fetch_attempts-Alike url destination (suc left) =
      Alike-bind (Alike-bind (test-Alike _ _ refl) λ sent. Alike-if sent (Alike-refl _) both_ret)
        λ kept. Alike-if kept both_ret (
          Alike-bind (Alike-refl _) λ _.
            Alike-bind (Alike-refl (pause s left)) λ _. fetch_attempts-Alike url destination left)

  fetch_metadata-Alike :
      (path destination : Text)
      → Alike (fetch_metadata one path destination) (fetch_metadata two path destination)
  unfolding fetch_metadata
  fetch_metadata-Alike path destination =
      Alike-bind (Alike-refl _) λ _. fetch_attempts-Alike _ _ s.max_attempts

  download_attempts-Alike :
      (left : ℕ) → Alike (download_attempts one left) (download_attempts two left)
  unfolding download_attempts
  download_attempts-Alike zero = both_ret
  download_attempts-Alike (suc left) = Alike-bind (Alike-refl _) λ kept.
      Alike-if kept (Alike-refl _) (
        Alike-bind (Alike-refl _)
          λ _. Alike-bind (Alike-refl (pause s left)) λ _. download_attempts-Alike left)

  report-Alike :
      (message : String) (status : ℕ)
      → Alike (report one message status) (report two message status)
  unfolding report
  report-Alike message status = Alike-bind (post_status-Alike "failed" message) (λ _. both_exit)

  or_report-Alike :
      (p q : Prog Bool) (message : String) (status : ℕ)
      → Alike p q
      → Alike (or_report one p message status) (or_report two q message status)
  unfolding or_report
  or_report-Alike p q message status h =
      Alike-bind h λ b. Alike-if b both_ret (report-Alike message status)

  or_exit-Alike :
      (p q : Prog Bool) (status : ℕ) → Alike p q → Alike (or_exit p status) (or_exit q status)
  or_exit-Alike p q status h = Alike-bind h (λ b. Alike-refl _)

  prestaged-Alike : Alike (prestaged_runner_matches one) (prestaged_runner_matches two)
  unfolding prestaged_runner_matches version_matches
  prestaged-Alike = Alike-refl _

  reuse_runner-Alike : Alike (reuse_runner one) (reuse_runner two)
  unfolding reuse_runner
  reuse_runner-Alike = Alike-bind (or_exit-Alike _ _ 20 (post_status-Alike _ _)) (λ _. Alike-refl _)

  install_runner-Alike : Alike (install_runner one) (install_runner two)
  unfolding install_runner download_runner
  install_runner-Alike = Alike-bind (or_exit-Alike _ _ 20 (post_status-Alike _ _)) λ _.
      Alike-bind
        (or_report-Alike _ _ _ 21
          (Alike-bind (Alike-refl _) (λ _. download_attempts-Alike s.max_attempts)))
        λ _. Alike-bind (Alike-refl _) λ _.
          Alike-bind (Alike-refl _)
            λ _. Alike-bind (or_report-Alike _ _ _ 22 (Alike-refl _)) λ _. Alike-refl _

  check_runner-Alike : (home : Text) → Alike (check_runner one home) (check_runner two home)
  unfolding check_runner
  check_runner-Alike home =
      Alike-bind (or_report-Alike _ _ _ 23 (Alike-refl _))
        λ _. Alike-bind (or_report-Alike _ _ _ 24 (Alike-refl _)) λ _. Alike-refl _

  fetch_credentials-Alike : Alike (fetch_credentials one) (fetch_credentials two)
  unfolding fetch_credentials
  fetch_credentials-Alike = Alike-bind (or_exit-Alike _ _ 25 (post_status-Alike _ _)) λ _.
      Alike-bind (or_report-Alike _ _ _ 26 (fetch_metadata-Alike _ _)) λ _.
        Alike-bind (or_report-Alike _ _ _ 27 (fetch_metadata-Alike _ _))
          λ _. Alike-bind (or_report-Alike _ _ _ 28 (fetch_metadata-Alike _ _)) λ _. Alike-refl _

  prepare_runner-Alike :
      (matched : Bool) (home : Text)
      → Alike (prepare_runner one matched home) (prepare_runner two matched home)
  unfolding prepare_runner start_runner
  prepare_runner-Alike matched home =
      Alike-bind (Alike-if matched reuse_runner-Alike install_runner-Alike) λ _.
        Alike-bind (check_runner-Alike home)
          λ _. Alike-bind fetch_credentials-Alike λ _. Alike-refl _

  check_started-Alike : (pid : Text) → Alike (check_started one pid) (check_started two pid)
  unfolding check_started
  check_started-Alike pid = Alike-bind (Alike-refl _) λ _.
      Alike-bind (Alike-refl _)
        λ alive. Alike-if alive both_ret (Alike-bind (Alike-refl _) (λ _. report-Alike _ 29))

  or_kill-Alike :
      (pid : Text) (p q : Prog Bool) (status : ℕ)
      → Alike p q
      → Alike (or_kill pid p status) (or_kill pid q status)
  unfolding or_kill
  or_kill-Alike pid p q status h = Alike-bind h (λ b. Alike-refl _)

  announce_runner-Alike : (pid : Text) → Alike (announce_runner one pid) (announce_runner two pid)
  unfolding announce_runner post_json ready_payload
  announce_runner-Alike pid = Alike-bind (Alike-refl read_release) λ _.
      Alike-bind (Alike-refl _) λ _.
        Alike-bind (or_kill-Alike pid _ _ 30 (post_attempts-Alike _ _ s.max_attempts))
          λ _. or_kill-Alike pid _ _ 31 (post_attempts-Alike _ _ s.max_attempts)

  attend_runner-Alike : (pid : Text) → Alike (attend_runner one pid) (attend_runner two pid)
  unfolding attend_runner
  attend_runner-Alike pid =
      Alike-bind (check_started-Alike pid)
        λ _. Alike-bind (announce_runner-Alike pid) λ _. Alike-refl _

  trapping-Alike :
      {A B : Type 0} (home pid : Text) (f g : A → Prog B) {p q : Prog A}
      → Alike p q
      → ((a : A) → Alike (f a) (g a))
      → Alike (trapping one home pid p f) (trapping two home pid q g)
  unfolding trapping leave_trapped leave cleanup_credentials
  trapping-Alike home pid f g both_ret h = h _
  trapping-Alike home pid f g both_exit h = Alike-refl _
  trapping-Alike home pid f g both_trapped h = Alike-refl _
  trapping-Alike home pid f g (both_ask e k) h =
      both_ask e (λ r. trapping-Alike home pid f g (k r) h)

  pub run_bootstrap-Alike : Alike (run_bootstrap one) (run_bootstrap two)
  unfolding run_bootstrap leave cleanup_credentials
  run_bootstrap-Alike = trapping-Alike s.runner_home [] _ _ prestaged-Alike λ matched.
      let home = home_of s matched in
      trapping-Alike home [] _ _ (prepare_runner-Alike matched home)
        λ pid. trapping-Alike home pid _ _ (attend_runner-Alike pid) (λ _. Alike-refl _)
