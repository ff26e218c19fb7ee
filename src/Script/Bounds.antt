-- ===== src/Script/Bounds.antt =====
-- internal/truenasstore/bootstrap.go: how many commands the script asks for.
pub mod Loops
pub mod Exits
use garm_provider_truenas.Base.{
  String, ℕ, zero, suc, ◌+◌, ◌*◌, ◌≤◌, Bool, true, false, [], ◌∷◌, ◌++◌, arith, ◌==◌, if◌then◌else◌,
  length,
}
use garm_provider_truenas.Base.Text.{Text}
use garm_provider_truenas.Script.Shell.{
  Command, Reply, replied, signalled, Prog, ret, exits, trapped, ask, ◌>>=◌, ◌>>◌, unless_signalled,
  test, exit_unless, must, ignore, read,
}
use garm_provider_truenas.Script.Settings.{Settings}
use garm_provider_truenas.Script.Steps.{
  pause, post_attempts, post_json, post_status, keep_fetched, fetch_attempts, fetch_metadata,
  download_attempts, download_runner,
}
use garm_provider_truenas.Script.Bootstrap.{or_exit, report, or_report}
use garm_provider_truenas.Script.Runs.{Log, Shell, run}

-- A program asks for at most so many commands, whatever they answer.
pub data Within {A : Type 0} : ℕ → Prog A → Type 0 where
  within_ret : {n : ℕ} {a : A} → Within n (ret a)
  within_exit : {n m : ℕ} → Within n (exits m)
  within_trap : {n : ℕ} → Within n trapped
  within_ask :
      {n m : ℕ} {c : Command} {k : Reply → Prog A}
      → suc m ≤ n
      → ((r : Reply) → Within m (k r))
      → Within n (ask c k)

pub Within-le : {A : Type 0} {n m : ℕ} → n ≤ m → {p : Prog A} → Within n p → Within m p
Within-le h within_ret = within_ret
Within-le h within_exit = within_exit
Within-le h within_trap = within_trap
Within-le h (within_ask e k) = within_ask (omega arith) k

pub Within-bind :
    {A B : Type 0} (m : ℕ) {f : A → Prog B}
    → ((a : A) → Within m (f a))
    → {n : ℕ} {p : Prog A} → Within n p
    → Within (n + m) (p >>= f)
unfolding ◌>>=◌
Within-bind m h within_ret = Within-le (omega arith) (h _)
Within-bind m h within_exit = within_exit
Within-bind m h within_trap = within_trap
Within-bind m h (within_ask {m = j} e k) =
    within_ask {m = j + m} (omega arith) (λ r. Within-bind m h (k r))

pub Within-if :
    {A : Type 0} {n : ℕ} (b : Bool) {p q : Prog A}
    → Within n p
    → Within n q
    → Within n (if b then p else q)
Within-if true h k = h
Within-if false h k = k

-- The log of a run grows by no more than that.
pub length-run-le :
    {A : Type 0} (shell : Shell) {n : ℕ} {p : Prog A} (log : Log)
    → Within n p
    → length (run shell p log).1 ≤ length log + n
unfolding run
length-run-le shell log within_ret = omega arith
length-run-le shell log within_exit = omega arith
length-run-le shell log within_trap = omega arith
length-run-le shell log (within_ask {n} {m} {c} e k) =
    omega (arith, length-run-le shell ((c, shell log c) ∷ log) (k (shell log c)))

-- A command of which the script looks at the answer, and goes on without another.
pub Within-answer :
    {A : Type 0} (c : Command) (f : ℕ → Text → Prog A)
    → ((status : ℕ) (output : Text) → Within 0 (f status output))
    → Within 1 (ask c (unless_signalled f))
Within-answer c f h = within_ask (omega arith) λ r. answered r
  where
    answered : (r : Reply) → Within 0 (unless_signalled f r)
    answered (replied status output) = h status output
    answered signalled = within_trap

pub Within-test : (c : Command) → Within 1 (test c)
Within-test c = Within-answer c _ (λ _ _. within_ret)

pub Within-exit_unless : (b : Bool) (status : ℕ) → Within 0 (exit_unless b status)
Within-exit_unless true status = within_ret
Within-exit_unless false status = within_exit

pub Within-must : (c : Command) → Within 1 (must c)
Within-must c = Within-answer c _ (λ status _. Within-exit_unless (status == 0) status)

pub Within-ignore : (c : Command) → Within 1 (ignore c)
Within-ignore c = Within-answer c _ (λ _ _. within_ret)

pub Within-read : (c : Command) → Within 1 (read c)
Within-read c = Within-answer c _ (λ _ _. within_ret)
