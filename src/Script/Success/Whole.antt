-- ===== src/Script/Success/Whole.antt =====
-- internal/truenasstore/bootstrap.go: the whole script where its commands succeed.
use garm_provider_truenas.Base.{ℕ, suc, ◌≡◌, refl, ap, subst, ◌∙◌, arith, [], ◌∷◌, In, inl, inr}
use garm_provider_truenas.Base.Text.{Text, codes}
use garm_provider_truenas.Base.Dict.{erase}
use garm_provider_truenas.Script.Shell.{
  Command, replied, start, wait, Prog, ret, exits, trapped, ask, ◌>>=◌, unless_signalled,
}
use garm_provider_truenas.Script.Settings.{Settings, token_key}
use garm_provider_truenas.Script.Steps.{trapping, leave, cleanup_credentials}
use garm_provider_truenas.Script.Bootstrap.{run_bootstrap, attend_runner, home_of}
use garm_provider_truenas.Script.Runs.{Log, Shell, End, returned, exited, run}
use garm_provider_truenas.Script.Runs.Goes.{Obliges, run-In, run-bind}
use garm_provider_truenas.Script.Success.Phases.{
  Started, Announced, Goes-prestaged, Goes-prepare_runner, Goes-check_started, Goes-announce_runner,
}

-- The runner was started, announced and waited for, and the end is the runner's own status.
pub record Served (s : Settings) (ending : End (Unit {0}) × Log) : Type 0 where
  pid : Text
  status : ℕ
  output : Text
  is_started : Started s pid ending.1
  is_announced : Announced s ending.1
  is_awaited : In (wait pid, replied status output) ending.1
  is_over : ending.0 ≡ exited status

module _ (s : Settings) (shell : Shell) where
  run-trapping :
      {A B : Type 0} (home pid : Text) (p : Prog A) (f : A → Prog B) (log : Log) (a : A)
      (log' : Log)
      → run shell p log ≡ (returned a, log')
      → run shell (trapping s home pid p f) log ≡ run shell (f a) log'
  unfolding run trapping
  run-trapping home pid (ret b) f log a log' e = ground arith
  run-trapping home pid (exits n) f log a log' e = cc
  run-trapping home pid trapped f log a log' e = cc
  run-trapping home pid (ask c k) f log a log' e =
      run-trapping home pid (k (shell log c)) f ((c, shell log c) ∷ log) a log' e

  run-trapping_exit :
      {A B : Type 0} (home pid : Text) (p : Prog A) (f : A → Prog B) (log : Log) (n : ℕ)
      (log' : Log)
      → run shell p log ≡ (exited n, log')
      → run shell (trapping s home pid p f) log ≡ run shell (leave s home n) log'
  unfolding run trapping
  run-trapping_exit home pid (ret b) f log n log' e = cc
  run-trapping_exit home pid (exits m) f log n log' e = ground arith
  run-trapping_exit home pid trapped f log n log' e = cc
  run-trapping_exit home pid (ask c k) f log n log' e =
      run-trapping_exit home pid (k (shell log c)) f ((c, shell log c) ∷ log) n log' e

  run-leave :
      (home : Text) (n : ℕ) (log : Log)
      → (x : Command × _) × (run shell (leave {A = Unit {0}} s home n) log ≡ (exited n, x ∷ log))
  unfolding run leave cleanup_credentials ◌>>=◌
  run-leave home n log = (_, refl)

  module _ (obliges : Obliges shell) (left : ℕ) (enough : s.max_attempts ≡ suc left) where
    run-attend_runner :
        (pid : Text) (log : Log)
        → (status : ℕ) × (output : Text) × (before : Log) × (run shell (attend_runner s pid) log
            ≡ (exited status, (wait pid, replied status output) ∷ before))
          × Announced s before
    unfolding attend_runner run
    run-attend_runner pid log =
        let (_, l1, e1, _) = Goes-check_started s shell obliges left enough pid log in
        let (_, l2, e2, announced) = Goes-announce_runner s shell obliges left enough pid l1 in
        let (status, output, e3, _) = obliges l2 (wait pid) in
        (
          status,
          output,
          l2,
          run-bind shell _ _ log tt l1 e1
              ∙ (run-bind shell _ _ l1 tt l2 e2
                  ∙ ap (λ r. run shell (unless_signalled (λ n _. exits n) r) ((wait pid, r) ∷ l2))
                      e3),
          announced,
        )

    -- Where at least one attempt is allowed, no signal comes and every command is answered with
    -- success, those left aside that look for credential files, ask a listener for its version or
    -- wait for a process: the script starts the runner, its post that the runner is idle is
    -- answered with success, it waits for the runner, and it ends with the status that the wait
    -- was answered.
    pub run_bootstrap-Served : Served s (run shell (run_bootstrap s) [])
    unfolding run_bootstrap
    run_bootstrap-Served =
        let (matched, l1, e1, _) = Goes-prestaged s shell obliges left enough [] in
        let home = home_of s matched in
        let (pid, l2, e2, started) =
          Goes-prepare_runner s shell obliges left enough matched home l1 in
        let (status, output, before, e3, announced) = run-attend_runner pid l2 in
        let (last, e4) = run-leave home status ((wait pid, replied status output) ∷ before) in
        let attended =
          subst
            (λ r.
              In (start (erase token_key s.environment) (codes "./run.sh"), replied started.0 pid)
                r.1)
            e3 (run-In shell _ (attend_runner s pid) l2 started.1) in
        let ended : (run shell (run_bootstrap s) []
            ≡ (exited status, last ∷ (wait pid, replied status output) ∷ before)) =
          run-trapping s.runner_home [] _ _ [] matched l1 e1
          ∙ (run-trapping home [] _ _ l1 pid l2 e2
              ∙ (run-trapping_exit home pid _ _ l2 status _ e3 ∙ e4)) in
        rw ended record {
          pid = pid;
          status = status;
          output = output;
          is_started = (started.0, inr attended);
          is_announced = (announced.0, (announced.1.0, inr (inr announced.1.1)));
          is_awaited = inr (inl refl);
          is_over = refl;
        }
