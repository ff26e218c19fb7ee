-- ===== src/Script/Verified/Phases.antt =====
-- The script from its settings to its exit asks for warranted commands.
use garm_provider_truenas.Base.{String, ℕ, ◌≡◌, refl, Bool, true, ◌++◌, In, inl, inr}
use garm_provider_truenas.Base.Text.{Text, codes, has_prefix}
use garm_provider_truenas.Script.Shell.{extract, is_executable, Prog}
use garm_provider_truenas.Script.Settings.{Settings}
use garm_provider_truenas.Script.Steps.{post_status, temporary, staged_paths}
use garm_provider_truenas.Script.Bootstrap.{
  or_exit, report, or_report, reuse_runner, install_runner, check_runner, fetch_credentials,
}
use garm_provider_truenas.Script.Runs.{
  Log, Did, Lasts, Lasts-and, Lasts-Did, Holds-weaken, Holds, returns, stops, Holds-bind,
  Holds-test, Holds-must, Holds-if, Holds-exit_unless,
}
use garm_provider_truenas.Script.Verified
use garm_provider_truenas.Script.Verified.Steps.{Holds-post_json, Holds-fetch_metadata}
use garm_provider_truenas.Script.Verified.Archive.{Holds-download_runner}
use garm_provider_truenas.Script.Runs.Order.{Lasts-After}

staged-runner :
    (s : Settings)
    → In (temporary (s.jit_dir ++ codes "/.runner")) (staged_paths s)
      × In (s.jit_dir ++ codes "/.runner") (staged_paths s)
unfolding staged_paths
staged-runner s = (inr (inr (inr (inl refl))), inl refl)

staged-credentials :
    (s : Settings)
    → In (temporary (s.jit_dir ++ codes "/.credentials")) (staged_paths s)
      × In (s.jit_dir ++ codes "/.credentials") (staged_paths s)
unfolding staged_paths
staged-credentials s = (inr (inr (inr (inr (inl refl)))), inr (inl refl))

staged-rsa :
    (s : Settings)
    → In (temporary (s.jit_dir ++ codes "/.credentials_rsaparams")) (staged_paths s)
      × In (s.jit_dir ++ codes "/.credentials_rsaparams") (staged_paths s)
unfolding staged_paths
staged-rsa s = (inr (inr (inr (inr (inr (inl refl))))), inr (inr (inl refl)))

module _ (s : Settings) (own : Text) {E : Log → Type 0} (lasts : Lasts E) where
  pub Holds-failed :
      (message : String) {log : Log}
      → E log
      → Holds (Verified.Warrant s own) (λ _ log'. E log') (post_status s "failed" message) log
  unfolding post_status codes has_prefix
  Holds-failed message e = Holds-post_json s own lasts _ _ (λ _ _ h. absurd (cc)) e

  pub Holds-installing :
      (message : String) {log : Log}
      → E log
      → Holds (Verified.Warrant s own) (λ _ log'. E log') (post_status s "installing" message) log
  unfolding post_status codes has_prefix
  Holds-installing message e = Holds-post_json s own lasts _ _ (λ _ _ h. absurd (cc)) e

  pub Holds-report :
      {Q : Unit {0} → Log → Type 0} (message : String) (status : ℕ) {log : Log}
      → E log
      → Holds (Verified.Warrant s own) Q (report s message status) log
  unfolding report
  Holds-report message status e = Holds-bind (Holds-failed message e) (λ _ _ _. stops)

  pub Holds-or_exit :
      (p : Prog Bool) (status : ℕ) {log : Log}
      → Holds (Verified.Warrant s own) (λ _ log'. E log') p log
      → Holds (Verified.Warrant s own) (λ _ log'. E log') (or_exit p status) log
  Holds-or_exit p status h = Holds-bind h λ b log' e. Holds-exit_unless b status (λ _. e)

  pub Holds-or_report :
      {F : Log → Type 0} (p : Prog Bool) (message : String) (status : ℕ) {log : Log}
      → Holds (Verified.Warrant s own) (λ b log'. E log' × (b ≡ true → F log')) p log
      → Holds
          (Verified.Warrant s own)
          (λ _ log'. E log' × F log')
          (or_report s p message status)
          log
  unfolding or_report
  Holds-or_report p message status h =
      Holds-bind h
        λ b log' k. Holds-if b (λ f. returns (k.0, k.1 f)) (λ _. Holds-report message status k.0)

module _ (s : Settings) (own : Text) {E : Log → Type 0} (lasts : Lasts E) where
  pub Holds-reuse_runner :
      {log : Log} → E log → Holds (Verified.Warrant s own) (λ _ log'. E log') (reuse_runner s) log
  unfolding reuse_runner
  Holds-reuse_runner e =
      Holds-bind (Holds-or_exit s own lasts _ 20 (Holds-installing s own lasts _ e))
        λ _ _ k. Holds-weaken (Holds-must lasts tt k) (λ _ _ k'. k'.0)

  pub Holds-install_runner :
      {log : Log}
      → E log
      → Holds
          (Verified.Warrant s own)
          (λ _ log'.
            E log' × Verified.Placed s log' × Did (extract s.runner_archive s.runner_home) log')
          (install_runner s)
          log
  unfolding install_runner
  Holds-install_runner e =
      let checked = Lasts-and lasts (Lasts-After _ _ _) in
      Holds-bind (Holds-or_exit s own lasts _ 20 (Holds-installing s own lasts _ e)) λ _ _ k.
        Holds-bind (Holds-or_report s own lasts _ _ 21 (Holds-download_runner s own lasts k))
          λ _ _ k1. Holds-bind (Holds-must checked tt k1) λ _ _ k2.
            Holds-bind (Holds-must checked tt k2.0) λ _ _ k3.
              Holds-bind
                (Holds-or_report s own checked _ _ 22 (Holds-test checked (refl, k3.0.1) k3.0))
                λ _ _ k4.
                  Holds-weaken (Holds-must (Lasts-and checked (Lasts-Did _)) tt k4)
                    (λ _ _ k5. (k5.0.0.0, k5.0.0.1, k5.0.1))

  pub Holds-check_runner :
      {log : Log}
      → E log
      → Holds
          (Verified.Warrant s own)
          (λ _ log'. E log' × Verified.Complete own log')
          (check_runner s own)
          log
  unfolding check_runner
  Holds-check_runner e =
      let script = Lasts-and lasts (Lasts-Did _) in
      let listener = Lasts-and script (Lasts-Did _) in
      let node = Lasts-and listener (Lasts-Did _) in
      Holds-bind
        (Holds-or_report s own lasts
          {F = λ l.
            Did (is_executable (own ++ codes "/run.sh")) l
            × Did (is_executable (own ++ codes "/bin/Runner.Listener")) l}
          _ _ 23
          (Holds-bind (Holds-test lasts tt e) λ b _ k.
            Holds-if b
              (λ f.
                Holds-weaken (Holds-test script tt (k.0, k.1 f))
                  (λ _ _ k'. (k'.0.0, λ t. (k'.0.1, k'.1 t))))
              (λ _. returns (k.0, λ h. cc))))
        λ _ _ k1.
          Holds-bind
            (Holds-or_report s own listener _ _ 24
              (Holds-test listener tt ((k1.0, k1.1.0), k1.1.1)))
            λ _ _ k2.
              Holds-weaken (Holds-must node refl k2)
                (λ _ _ k3. (k3.0.0.0.0, (k3.0.0.0.1, k3.0.0.1, k3.0.1, k3.1)))

  pub Holds-fetch_credentials :
      {log : Log}
      → E log
      → Holds
          (Verified.Warrant s own)
          (λ _ log'. E log' × Verified.Credentials s log')
          (fetch_credentials s)
          log
  unfolding fetch_credentials codes
  Holds-fetch_credentials e =
      let one = Lasts-and lasts (Lasts-and (Lasts-Did _) (Lasts-Did _)) in
      let two = Lasts-and one (Lasts-and (Lasts-Did _) (Lasts-Did _)) in
      let three = Lasts-and two (Lasts-and (Lasts-Did _) (Lasts-Did _)) in
      Holds-bind (Holds-or_exit s own lasts _ 25 (Holds-installing s own lasts _ e)) λ _ _ k.
        Holds-bind
          (Holds-or_report s own lasts _ _ 26
            (Holds-fetch_metadata s own lasts _ _ (staged-runner s).0 (staged-runner s).1 k))
          λ _ _ k1.
            Holds-bind
              (Holds-or_report s own one _ _ 27 (
                Holds-fetch_metadata s own one _ _ (staged-credentials s).0 (staged-credentials s).1
                  k1))
              λ _ _ k2.
                Holds-bind
                  (Holds-or_report s own two _ _ 28
                    (Holds-fetch_metadata s own two _ _ (staged-rsa s).0 (staged-rsa s).1 k2))
                  λ _ _ k3. Holds-bind (Holds-must three (λ _. inl refl) k3) λ _ _ k4.
                    Holds-bind (Holds-must three (λ _. inr (inl refl)) k4.0) λ _ _ k5.
                      Holds-weaken (Holds-must three (λ _. inr (inr (inl refl))) k5.0)
                        (λ _ _ k6. (k6.0.0.0.0, (k6.0.0.0.1, k6.0.0.1, k6.0.1)))
