-- ===== src/Script/Verified/Prestaged.antt =====
-- The test of the runner in the image asks for warranted commands.
use garm_provider_truenas.Base.{
  ◌≡◌, Bool, true, false, ◌∷◌, ◌++◌, ◌==◌, is_empty, In, inl, arith, if◌then◌else◌,
}
use garm_provider_truenas.Base.Text.{Text, codes, text_eq}
use garm_provider_truenas.Script.Shell.{
  Command, Reply, replied, signalled, test, Prog, ret, and_also, exists, is_link, listener_version,
  unless_signalled,
}
use garm_provider_truenas.Script.Settings.{Settings}
use garm_provider_truenas.Script.Steps.{absent, version_matches, prestaged_runner_matches}
use garm_provider_truenas.Script.Runs.{
  Log, Lasts, asks, traps, Holds-weaken, Holds, returns, Holds-bind, Holds-test, Holds-if,
}
use garm_provider_truenas.Script.Verified
use garm_provider_truenas.Script.Words.{expected_version, first_line}

module _ (s : Settings) (own : Text) {E : Log → Type 0} (lasts : Lasts E) where
  Holds-probe :
      {F : Log → Type 0} (p : Prog Bool) {q : Prog Bool} {log : Log}
      → Holds (Verified.Warrant s own) (λ _ log'. E log') p log
      → ((log' : Log)
          → E log'
          → Holds (Verified.Warrant s own) (λ b log''. E log'' × (b ≡ true → F log'')) q log')
      → Holds (Verified.Warrant s own) (λ b log'. E log' × (b ≡ true → F log')) (and_also p q) log
  Holds-probe p h rest =
      Holds-bind h λ b log' e. Holds-if b (λ _. rest log' e) (λ _. returns (e, λ h'. cc))

  Holds-plain :
      (c : Command)
      → ((log : Log) → Verified.Warrant s own c log)
      → {log : Log} → E log
      → Holds (Verified.Warrant s own) (λ _ log'. E log') (test c) log
  Holds-plain c w e = Holds-weaken (Holds-test lasts (w _) e) (λ b l k. k.0)

  Holds-absent :
      (file : Text) {log : Log}
      → E log
      → Holds (Verified.Warrant s own) (λ _ log'. E log') (absent file) log
  Holds-absent file e =
      Holds-bind (Holds-bind (Holds-plain (exists file) (λ _. tt) e) (λ b l k. returns k)) λ b l k.
        Holds-if b
          (λ _. Holds-bind (Holds-plain (is_link file) (λ _. tt) k) (λ b' l' k'. returns k'))
          (λ _. returns k)

  abbrev Reported : Text → Text → Log → Type 0
  Reported home expected log =
      (output : Text) × In
        (listener_version s.environment (home ++ codes "/bin/Runner.Listener"), replied 0 output)
        log
      × (text_eq (first_line output) expected ≡ true)

  Holds-version_matches :
      (home expected : Text) {log : Log}
      → E log
      → Holds
          (Verified.Warrant s own)
          (λ b log'. E log' × (b ≡ true → Reported home expected log'))
          (version_matches s home expected)
          log
  unfolding version_matches
  Holds-version_matches home expected {log} e = asks tt answered
    where
      answered :
          (r : Reply)
          → Holds
              (Verified.Warrant s own)
              (λ b log'. E log' × (b ≡ true → Reported home expected log'))
              (unless_signalled
                (λ status output.
                  if status == 0 then ret (text_eq (first_line output) expected) else ret false)
                r)
              ((listener_version s.environment (home ++ codes "/bin/Runner.Listener"), r) ∷ log)
      answered (replied status output) =
          Holds-if (status == 0)
            (λ f. returns (lasts _ log e, λ t. (output, inl (ground arith), t)))
            (λ _. returns (lasts _ log e, λ h. cc))
      answered signalled = traps

  pub Holds-prestaged_runner_matches :
      {log : Log}
      → E log
      → Holds
          (Verified.Warrant s own)
          (λ b log'. E log' × (b ≡ true → Verified.Matched s log'))
          (prestaged_runner_matches s)
          log
  unfolding prestaged_runner_matches
  Holds-prestaged_runner_matches e =
      Holds-if (is_empty s.prestaged_runner_home) (λ _. returns (e, λ h. cc))
        λ _.
          Holds-if (is_empty (expected_version s.filename)) (λ _. returns (e, λ h. cc))
            λ known. Holds-probe _ (Holds-plain _ (λ _. tt) e) λ _ e1.
              Holds-probe _ (Holds-plain _ (λ _. tt) e1) λ _ e2.
                Holds-probe _ (Holds-plain _ (λ _. tt) e2) λ _ e3.
                  Holds-probe _ (Holds-plain _ (λ _. tt) e3) λ _ e4.
                    Holds-probe _ (Holds-absent _ e4) λ _ e5.
                      Holds-probe _ (Holds-absent _ e5) λ _ e6.
                        Holds-probe _ (Holds-absent _ e6) λ _ e7.
                          Holds-weaken (Holds-version_matches _ _ e7)
                            (λ b l k. (k.0, λ t. (known, k.1 t)))
