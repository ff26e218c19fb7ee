-- ===== src/Script/Traps.antt =====
-- internal/truenasstore/bootstrap.go: the EXIT trap of the script.
pub mod Cleared
use garm_provider_truenas.Base.{
  sym, subst, true, false, ℕ, ◌≡◌, refl, Bool, true, false, List, [], ◌∷◌, ◌++◌, ◌⊎◌, inl, inr, In,
}
use garm_provider_truenas.Base.Text.{Text, codes}
use garm_provider_truenas.Script.Shell.{
  Command, Reply, enter, fetch, download, move, link, remove, terminate, wait, Prog, ret, exits,
  trapped, ask, ◌>>=◌,
}
use garm_provider_truenas.Script.Settings.{Settings}
use garm_provider_truenas.Script.Steps.{
  credential_files, staged_paths, credential_paths, cleanup_credentials, terminate_runner, leave,
  leave_trapped, trapping, prestaged_runner_matches,
}
use garm_provider_truenas.Script.Bootstrap.{run_bootstrap, home_of, prepare_runner, attend_runner}
use garm_provider_truenas.Script.Runs.{
  Log, Shell, End, exited, run, IsWarranted, Holds, returns, stops, traps, asks, Holds-ret,
  Holds-ask,
}
use garm_provider_truenas.Script.Verified
use garm_provider_truenas.Script.Verified.Prestaged.{Holds-prestaged_runner_matches}
use garm_provider_truenas.Script.Verified.Whole.{Holds-prepare_runner, Holds-attend_runner}

-- A run has exited, and its last command was the removal of the credentials for this RUNNER_HOME.
pub record Leaves (s : Settings) (home : Text) (out : End (Unit {0}) × Log) : Type 0 where
  pub status : ℕ
  pub answer : Reply
  pub before : Log
  pub exits_with : out.0 ≡ exited status
  pub removes : out.1 ≡ (remove (credential_paths s home), answer) ∷ before

-- So has a run whose commands before that were warranted, with that RUNNER_HOME.
abbrev pub LeavesWell : Settings → Text → End (Unit {0}) × Log → Type 0
LeavesWell s home out =
    (left : Leaves s home out) × IsWarranted (Verified.Warrant s home) left.before

module _ (s : Settings) (home : Text) (shell : Shell) where
  leave_lem :
      (status : ℕ) (log : Log)
      → IsWarranted (Verified.Warrant s home) log
      → LeavesWell s home (run shell (leave s home status) log)
  unfolding run leave cleanup_credentials ◌>>=◌
  leave_lem status log w = (
    record {
      status = status;
      answer = shell log (remove (credential_paths s home));
      before = log;
      exits_with = refl;
      removes = refl;
    },
    w,
  )

  leave_trapped_lem :
      (pid : Text) (log : Log)
      → IsWarranted (Verified.Warrant s home) log
      → LeavesWell s home (run shell (leave_trapped s home pid) log)
  unfolding run leave_trapped terminate_runner ◌>>=◌
  leave_trapped_lem [] log w = leave_lem 143 log w
  leave_trapped_lem (c ∷ pid) log w =
      let log' = (terminate (c ∷ pid), shell log (terminate (c ∷ pid))) ∷ log in
      leave_lem 143 ((wait (c ∷ pid), shell log' (wait (c ∷ pid))) ∷ log') (tt, (tt, w))

  -- A part of the script under the traps, and what follows it.
  trapping_lem :
      {A : Type 0} {Q : A → Log → Type 0} (pid : Text) (f : A → Prog (Unit {0})) {p : Prog A}
      {log : Log}
      → Holds (Verified.Warrant s home) Q p log
      → IsWarranted (Verified.Warrant s home) log
      → ((a : A) (log' : Log)
          → Q a log'
          → IsWarranted (Verified.Warrant s home) log'
          → LeavesWell s home (run shell (f a) log'))
      → LeavesWell s home (run shell (trapping s home pid p f) log)
  unfolding run trapping
  trapping_lem pid f (returns h) w then_f = then_f _ _ h w
  trapping_lem pid f (stops {n} {log}) w then_f = leave_lem n log w
  trapping_lem pid f (traps {log}) w then_f = leave_trapped_lem pid log w
  trapping_lem pid f (asks {c} {k} {log} v h) w then_f =
      trapping_lem pid f (h (shell log c)) (v, w) then_f

  -- From the choice of the payload to the end.
  attended_lem :
      (matched : Bool) (log : Log)
      → home ≡ home_of s matched
      → (matched ≡ true → Verified.Matched s log)
      → IsWarranted (Verified.Warrant s home) log
      → LeavesWell s home (
          run shell
            (trapping s home []
              (prepare_runner s matched home)
              λ pid. trapping s home pid (attend_runner s pid) λ _. leave s home 0)
            log)
  attended_lem matched log e h w =
      trapping_lem [] _ (Holds-prepare_runner s home matched e h) w λ pid log' begun w'.
        trapping_lem pid _ (Holds-attend_runner s home pid begun) w'
          λ _ log'' _ w''. leave_lem 0 log'' w''

-- A run that leaves well with one of the two homes.
abbrev pub IsOver : Settings → End (Unit {0}) × Log → Type 0
IsOver s out =
    (home : Text) × ((home ≡ s.runner_home) ⊎ (home ≡ s.prestaged_runner_home))
    × LeavesWell s home out

-- The first part of the script, of which every home warrants the commands.
chosen_lem :
    {A : Type 0} {Q : A → Log → Type 0} (s : Settings) (shell : Shell) (f : A → Prog (Unit {0}))
    (p : Prog A) (log : Log)
    → ((home : Text) → Holds (Verified.Warrant s home) Q p log)
    → ((home : Text) → IsWarranted (Verified.Warrant s home) log)
    → ((a : A) (log' : Log)
        → Q a log'
        → ((home : Text) → IsWarranted (Verified.Warrant s home) log')
        → IsOver s (run shell (f a) log'))
    → IsOver s (run shell (trapping s s.runner_home [] p f) log)
unfolding run trapping
chosen_lem s shell f (ret a) log h w then_f = then_f a log (Holds-ret (h s.runner_home)) w
chosen_lem s shell f (exits n) log h w then_f =
    (s.runner_home, inl refl, leave_lem s s.runner_home shell n log (w s.runner_home))
chosen_lem s shell f trapped log h w then_f =
    (s.runner_home, inl refl, leave_trapped_lem s s.runner_home shell [] log (w s.runner_home))
chosen_lem s shell f (ask c k) log h w then_f =
    chosen_lem s shell f (k (shell log c)) ((c, shell log c) ∷ log)
      (λ home. (Holds-ask (h home)).1 (shell log c)) (λ home. ((Holds-ask (h home)).0, w home))
      then_f

home_of_is :
    (s : Settings) (matched : Bool)
    → (home_of s matched ≡ s.runner_home) ⊎ (home_of s matched ≡ s.prestaged_runner_home)
home_of_is s true = inr refl
home_of_is s false = inl refl

pub run_bootstrap-IsOver :
    (s : Settings) (shell : Shell) → IsOver s (run shell (run_bootstrap s) [])
unfolding run_bootstrap
run_bootstrap-IsOver s shell =
    chosen_lem s shell _ (prestaged_runner_matches s) []
      (λ home. Holds-prestaged_runner_matches s home {E = λ _. Unit {0}} (λ _ _ _. tt) tt)
      (λ home. tt)
      λ matched log h w.
        let home = home_of s matched in
        (home, home_of_is s matched, attended_lem s home shell matched log refl h.1 (w home))

-- Whatever the commands answer and wherever a signal comes: the runner is started without the
-- instance token in its environment, and only after its files came from the image with a listener
-- of the pinned version or were unpacked from the archive, after the scripts and binaries that it
-- needs were found executable, and after each of the three credentials was fetched with content; the
-- archive is unpacked only when, in this order, the removal of an older one was asked for, a download
-- to a temporary file succeeded, the check of this file against the pinned digest succeeded, and its
-- move to the place of the archive was asked for; and `idle` is reported only of a runner that was
-- started and seen alive.
pub run_bootstrap-IsWarranted :
    (s : Settings) (shell : Shell)
    → (home : Text) × IsWarranted (Verified.Warrant s home) (run shell (run_bootstrap s) []).1
run_bootstrap-IsWarranted s shell =
    let (home, is, (left, w)) = run_bootstrap-IsOver s shell in
    (home, subst (IsWarranted (Verified.Warrant s home)) (sym left.removes) (tt, w))
