-- ===== src/Script/Bounds/Loops.antt =====
-- The script asks for a number of commands that is linear in its attempts.
use garm_provider_truenas.Base.{String, ℕ, zero, suc, ◌+◌, ◌*◌, Bool, arith}
use garm_provider_truenas.Base.Text.{Text}
use garm_provider_truenas.Script.Shell.{Prog}
use garm_provider_truenas.Script.Settings.{Settings}
use garm_provider_truenas.Script.Steps.{
  pause, post_attempts, post_json, post_status, keep_fetched, fetch_attempts, fetch_metadata,
  download_attempts, download_runner,
}
use garm_provider_truenas.Script.Bootstrap.{or_exit, report, or_report}
use garm_provider_truenas.Script.Bounds.{
  Within, within_ret, within_exit, Within-le, Within-bind, Within-if, Within-exit_unless,
  Within-test, Within-ignore,
}

module _ (s : Settings) where
  Within-pause : (left : ℕ) → Within 1 (pause s left)
  Within-pause zero = within_ret
  Within-pause (suc left) = Within-ignore _

  Within-post_attempts :
      (url payload : Text) (left : ℕ) → Within (2 * left) (post_attempts s url payload left)
  unfolding post_attempts
  Within-post_attempts url payload zero = within_ret
  Within-post_attempts url payload (suc left) = Within-le (omega arith) (
      Within-bind (1 + 2 * left)
        (λ sent.
          Within-if sent within_ret (
            Within-bind (2 * left) (λ _. Within-post_attempts url payload left)
              (Within-pause left)))
        (Within-test _))

  pub Within-post_json :
      (url payload : Text) → Within (2 * s.max_attempts) (post_json s url payload)
  unfolding post_json
  Within-post_json url payload = Within-post_attempts url payload s.max_attempts

  pub Within-post_status :
      (status message : String) → Within (2 * s.max_attempts) (post_status s status message)
  unfolding post_status
  Within-post_status status message = Within-post_json _ _

  Within-keep_fetched : (tmp destination : Text) → Within 3 (keep_fetched tmp destination)
  unfolding keep_fetched
  Within-keep_fetched tmp destination =
      Within-bind 2
        (λ full.
          Within-if full
            (Within-bind 1 (λ _. Within-bind 0 (λ _. within_ret) (Within-ignore _))
              (Within-ignore _))
            within_ret)
        (Within-test _)

  Within-fetch_attempts :
      (url destination : Text) (left : ℕ)
      → Within (6 * left) (fetch_attempts s url destination left)
  unfolding fetch_attempts
  Within-fetch_attempts url destination zero = within_ret
  Within-fetch_attempts url destination (suc left) = Within-le (omega arith) (
      Within-bind (1 + (1 + 6 * left))
        (λ kept. Within-if kept within_ret (
          Within-bind (1 + 6 * left)
            (λ _.
              Within-bind (6 * left) (λ _. Within-fetch_attempts url destination left)
                (Within-pause left))
            (Within-ignore _)))
        (Within-bind 3 (λ sent. Within-if sent (Within-keep_fetched _ destination) within_ret)
          (Within-test _)))

  pub Within-fetch_metadata :
      (path destination : Text)
      → Within (1 + 6 * s.max_attempts) (fetch_metadata s path destination)
  unfolding fetch_metadata
  Within-fetch_metadata path destination =
      Within-bind (6 * s.max_attempts) (λ _. Within-fetch_attempts _ destination s.max_attempts)
        (Within-ignore _)

  Within-download_attempts : (left : ℕ) → Within (1 + 4 * left) (download_attempts s left)
  unfolding download_attempts
  Within-download_attempts zero = within_ret
  Within-download_attempts (suc left) = Within-le (omega arith) (
      Within-bind (1 + (1 + (1 + 4 * left)))
        (λ verified.
          Within-if verified
            (Within-le (omega arith) (Within-bind 0 (λ _. within_ret) (Within-ignore _)))
            (Within-bind (1 + (1 + 4 * left))
              (λ _.
                Within-bind (1 + 4 * left) (λ _. Within-download_attempts left) (Within-pause left))
              (Within-ignore _)))
        (Within-bind 1 (λ sent. Within-if sent (Within-test _) within_ret) (Within-test _)))

  pub Within-download_runner : Within (2 + 4 * s.max_attempts) (download_runner s)
  unfolding download_runner
  Within-download_runner = Within-le (omega arith) (
      Within-bind (1 + 4 * s.max_attempts) (λ _. Within-download_attempts s.max_attempts)
        (Within-ignore _))

  pub Within-report :
      (message : String) (status : ℕ) → Within (2 * s.max_attempts) (report s message status)
  unfolding report
  Within-report message status =
      Within-le (omega arith)
        (Within-bind 0 (λ _. within_exit) (Within-post_status "failed" message))

  pub Within-or_report :
      {n : ℕ} (p : Prog Bool) (message : String) (status : ℕ)
      → Within n p
      → Within (n + 2 * s.max_attempts) (or_report s p message status)
  unfolding or_report
  Within-or_report p message status h =
      Within-bind (2 * s.max_attempts) (λ b. Within-if b within_ret (Within-report message status))
        h

  pub Within-or_exit :
      {n : ℕ} (p : Prog Bool) (status : ℕ) → Within n p → Within n (or_exit p status)
  Within-or_exit p status h =
      Within-le (omega arith) (Within-bind 0 (λ b. Within-exit_unless b status) h)
