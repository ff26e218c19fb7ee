-- ===== src/Script/Bounds/Exits.antt =====
-- The phases of the script, its traps, and the whole ask for boundedly many commands.
use garm_provider_truenas.Base.{ℕ, ◌+◌, ◌*◌, ◌≤◌, Bool, [], arith, ◌==◌, length, is_empty}
use garm_provider_truenas.Base.Text.{Text}
use garm_provider_truenas.Script.Shell.{Command, Prog, ◌>>=◌, test, and_also, negated}
use garm_provider_truenas.Script.Words.{expected_version}
use garm_provider_truenas.Script.Settings.{Settings}
use garm_provider_truenas.Script.Steps.{
  absent, version_matches, prestaged_runner_matches, cleanup_credentials, terminate_runner, leave,
  leave_trapped, trapping, in_trap,
}
use garm_provider_truenas.Script.Bootstrap.{
  reuse_runner, install_runner, check_runner, fetch_credentials, start_runner, prepare_runner,
  check_started, read_release, or_kill, announce_runner, attend_runner, home_of, run_bootstrap,
}
use garm_provider_truenas.Script.Runs.{Shell, run}
use garm_provider_truenas.Script.Bounds.{
  Within, within_ret, within_exit, within_trap, within_ask, Within-le, Within-bind, Within-if,
  Within-answer, Within-test, Within-must, Within-ignore, Within-read, length-run-le,
}
use garm_provider_truenas.Script.Bounds.Loops.{
  Within-post_json, Within-post_status, Within-fetch_metadata, Within-download_runner,
  Within-report, Within-or_report, Within-or_exit,
}

Within-probe :
    {n : ℕ} (m : ℕ) (p : Prog Bool) {q : Prog Bool}
    → Within n p
    → Within m q
    → Within (n + m) (and_also p q)
Within-probe m p h k = Within-bind m (λ b. Within-if b k within_ret) h

Within-in_trap : (c : Command) → Within 1 (in_trap c)
Within-in_trap c = within_ask {m = 0} (omega arith) (λ _. within_ret)

Within-negated : (c : Command) → Within 1 (negated (test c))
Within-negated c = Within-bind 0 (λ _. within_ret) (Within-test c)

Within-absent : (file : Text) → Within 2 (absent file)
Within-absent file = Within-probe 1 _ (Within-negated _) (Within-negated _)

module _ (s : Settings) where
  Within-prestaged : Within 11 (prestaged_runner_matches s)
  unfolding prestaged_runner_matches version_matches
  Within-prestaged = Within-if (is_empty s.prestaged_runner_home) within_ret (
      Within-if (is_empty (expected_version s.filename)) within_ret (
        Within-probe 10 _ (Within-test _) (
          Within-probe 9 _ (Within-test _) (
            Within-probe 8 _ (Within-test _) (
              Within-probe 7 _ (Within-test _) (
                Within-probe 5 _ (Within-absent _) (
                  Within-probe 3 _ (Within-absent _) (
                    Within-probe 1 _ (Within-absent _) (
                      Within-answer _ _
                        (λ status _. Within-if (status == 0) within_ret within_ret))))))))))

  Within-reuse_runner : Within (2 * s.max_attempts + 1) (reuse_runner s)
  unfolding reuse_runner
  Within-reuse_runner =
      Within-bind 1 (λ _. Within-must _) (Within-or_exit s _ 20 (Within-post_status s _ _))

  Within-install_runner : Within (10 * s.max_attempts + 6) (install_runner s)
  unfolding install_runner
  Within-install_runner =
      let m = s.max_attempts in
      Within-le (omega arith) (
        Within-bind (2 + 4 * m + 2 * m + (1 + (1 + (1 + 2 * m + 1))))
          (λ _.
            Within-bind (1 + (1 + (1 + 2 * m + 1)))
              (λ _.
                Within-bind (1 + (1 + 2 * m + 1))
                  (λ _.
                    Within-bind (1 + 2 * m + 1)
                      (λ _.
                        Within-bind 1 (λ _. Within-must _)
                          (Within-or_report s _ _ 22 (Within-test _)))
                      (Within-must _))
                  (Within-must _))
              (Within-or_report s _ _ 21 (Within-download_runner s)))
          (Within-or_exit s _ 20 (Within-post_status s _ _)))

  Within-check_runner : (home : Text) → Within (4 * s.max_attempts + 4) (check_runner s home)
  unfolding check_runner
  Within-check_runner home =
      let m = s.max_attempts in
      Within-le (omega arith) (
        Within-bind (1 + 2 * m + 1)
          (λ _. Within-bind 1 (λ _. Within-must _) (Within-or_report s _ _ 24 (Within-test _)))
          (Within-or_report s _ _ 23 (Within-probe 1 _ (Within-test _) (Within-test _))))

  Within-fetch_credentials : Within (26 * s.max_attempts + 6) (fetch_credentials s)
  unfolding fetch_credentials
  Within-fetch_credentials =
      let m = s.max_attempts in
      let one = 1 + 6 * m + 2 * m in
      Within-le (omega arith) (
        Within-bind (one + (one + (one + 3)))
          (λ _.
            Within-bind (one + (one + 3))
              (λ _.
                Within-bind (one + 3)
                  (λ _.
                    Within-bind 3
                      (λ _.
                        Within-bind 2 (λ _. Within-bind 1 (λ _. Within-must _) (Within-must _))
                          (Within-must _))
                      (Within-or_report s _ _ 28 (Within-fetch_metadata s _ _)))
                  (Within-or_report s _ _ 27 (Within-fetch_metadata s _ _)))
              (Within-or_report s _ _ 26 (Within-fetch_metadata s _ _)))
          (Within-or_exit s _ 25 (Within-post_status s _ _)))

  Within-prepare_runner :
      (matched : Bool) (home : Text)
      → Within (40 * s.max_attempts + 17) (prepare_runner s matched home)
  unfolding prepare_runner start_runner
  Within-prepare_runner matched home =
      let m = s.max_attempts in
      Within-le (omega arith) (
        Within-bind (4 * m + 4 + (26 * m + 6 + 1))
          (λ _.
            Within-bind (26 * m + 6 + 1)
              (λ _. Within-bind 1 (λ _. Within-read _) Within-fetch_credentials)
              (Within-check_runner home))
          (Within-if matched (Within-le (omega arith) Within-reuse_runner) Within-install_runner))

  Within-check_started : (pid : Text) → Within (2 * s.max_attempts + 3) (check_started s pid)
  unfolding check_started
  Within-check_started pid =
      let m = s.max_attempts in
      Within-le (omega arith) (
        Within-bind (1 + (1 + 2 * m))
          (λ _.
            Within-bind (1 + 2 * m)
              (λ alive.
                Within-if alive within_ret
                  (Within-bind (2 * m) (λ _. Within-report s _ 29) (Within-ignore _)))
              (Within-test _))
          (Within-must _))

  Within-or_kill :
      {n : ℕ} (pid : Text) (p : Prog Bool) (status : ℕ)
      → Within n p
      → Within (n + 2) (or_kill pid p status)
  unfolding or_kill
  Within-or_kill pid p status h =
      Within-bind 2
        (λ b. Within-if b within_ret (
          Within-bind 1
            (λ _. Within-le (omega arith) (Within-bind 0 (λ _. within_exit) (Within-ignore _)))
            (Within-ignore _)))
        h

  Within-read_release : Within 3 read_release
  unfolding read_release
  Within-read_release =
      Within-bind 2
        (λ found.
          Within-if found
            (Within-bind 1
              (λ _. Within-le (omega arith) (Within-bind 0 (λ _. within_ret) (Within-read _)))
              (Within-read _))
            within_ret)
        (Within-test _)

  Within-attend_runner : (pid : Text) → Within (6 * s.max_attempts + 12) (attend_runner s pid)
  unfolding attend_runner announce_runner
  Within-attend_runner pid =
      let m = s.max_attempts in
      Within-le (omega arith) (
        Within-bind (3 + (1 + (2 * m + 2 + (2 * m + 2))) + 1)
          (λ _.
            Within-bind 1 (λ _. Within-answer _ _ (λ _ _. within_exit))
              (Within-bind (1 + (2 * m + 2 + (2 * m + 2)))
                (λ _.
                  Within-bind (2 * m + 2 + (2 * m + 2))
                    (λ _.
                      Within-bind (2 * m + 2)
                        (λ _. Within-or_kill pid _ 31 (Within-post_json s _ _))
                        (Within-or_kill pid _ 30 (Within-post_json s _ _)))
                    (Within-read _))
                Within-read_release))
          (Within-check_started pid))

  Within-leave : {A : Type 0} (home : Text) (status : ℕ) → Within 1 (leave {A = A} s home status)
  unfolding leave cleanup_credentials ◌>>=◌
  Within-leave home status = within_ask {m = 0} (omega arith) (λ _. within_exit)

  Within-leave_trapped :
      {A : Type 0} (home pid : Text) → Within 3 (leave_trapped {A = A} s home pid)
  unfolding leave_trapped terminate_runner
  Within-leave_trapped home pid =
      Within-bind 1 (λ _. Within-leave home 143)
        (Within-if (is_empty pid) within_ret
          (Within-bind 1 (λ _. Within-in_trap _) (Within-in_trap _)))

  Within-trapping :
      {A B : Type 0} (home pid : Text) (m : ℕ) (f : A → Prog B)
      → 3 ≤ m
      → ((a : A) → Within m (f a))
      → {n : ℕ} {p : Prog A} → Within n p
      → Within (n + m) (trapping s home pid p f)
  unfolding trapping
  Within-trapping home pid m f three h within_ret = Within-le (omega arith) (h _)
  Within-trapping home pid m f three h within_exit = Within-le (omega arith) (Within-leave home _)
  Within-trapping home pid m f three h within_trap =
      Within-le (omega arith) (Within-leave_trapped home pid)
  Within-trapping home pid m f three h (within_ask {m = j} e k) =
      within_ask {m = j + m} (omega arith) (λ r. Within-trapping home pid m f three h (k r))

  -- The script gives up by itself: whatever the commands answer, it asks for no more than
  -- 46 commands for each attempt that it is allowed, and 43 besides.
  pub length-run_bootstrap-le :
      (shell : Shell) → length (run shell (run_bootstrap s) []).1 ≤ 46 * s.max_attempts + 43
  unfolding run_bootstrap
  length-run_bootstrap-le shell =
      let m = s.max_attempts in
      omega (
        arith,
        length-run-le shell [] (
            Within-trapping s.runner_home [] (40 * m + 17 + (6 * m + 12 + 3)) _ (omega arith)
              (λ matched.
                Within-trapping (home_of s matched) [] (6 * m + 12 + 3) _ (omega arith)
                  (λ pid.
                    Within-trapping (home_of s matched) pid 3 _ (omega arith)
                      (λ _. Within-le (omega arith) (Within-leave (home_of s matched) 0))
                      (Within-attend_runner pid))
                  (Within-prepare_runner matched (home_of s matched)))
              Within-prestaged),
      )
