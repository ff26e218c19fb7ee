-- ===== src/Script/Verified/Archive.antt =====
-- The download of the archive asks for warranted commands, and puts a checked file in its place.
use garm_provider_truenas.Base.{ℕ, zero, suc, ◌≡◌, refl, true, In, inl, inr}
use garm_provider_truenas.Base.Text.{Text}
use garm_provider_truenas.Script.Shell.{download, checksum, test, and_also}
use garm_provider_truenas.Script.Settings.{Settings}
use garm_provider_truenas.Script.Steps.{download_attempts, download_runner, temporary, staged_paths}
use garm_provider_truenas.Script.Runs.{
  Log, Lasts, Lasts-and, Holds, returns, Holds-bind, Holds-ignore, Holds-if,
}
use garm_provider_truenas.Script.Runs.Order.{Lasts-After, Holds-test-After, Holds-ignore-After}
use garm_provider_truenas.Script.Verified
use garm_provider_truenas.Script.Verified.Steps.{Holds-pause}

staged-archive : (s : Settings) → In s.runner_archive (staged_paths s)
unfolding staged_paths
staged-archive s = inr (inr (inr (inr (inr (inr (inl refl))))))

staged-temporary : (s : Settings) → In (temporary s.runner_archive) (staged_paths s)
unfolding staged_paths
staged-temporary s = inr (inr (inr (inr (inr (inr (inr (inl refl)))))))

module _ (s : Settings) (own : Text) {E : Log → Type 0} (lasts : Lasts E) where
  abbrev Kept : Log → Type 0
  Kept log = E log × Verified.Cleared s log

  Lasts-Kept : Lasts Kept
  Lasts-Kept = Lasts-and lasts (Lasts-After _ _ _)

  Holds-round :
      {log : Log}
      → Kept log
      → Holds
          (Verified.Warrant s own)
          (λ b log'. Kept log' × (b ≡ true → Verified.Checked s log'))
          (and_also
            (test (download s.download_url (temporary s.runner_archive)))
            (test (checksum s.sha256 (temporary s.runner_archive))))
          log
  Holds-round e = Holds-bind (Holds-test-After Lasts-Kept _ (staged-temporary s) e e.1) λ sent _ h.
      Holds-if sent (λ f. Holds-test-After Lasts-Kept _ tt h.0 (h.1 f))
        (λ _. returns (h.0, λ h'. cc))

  Holds-download_attempts :
      (left : ℕ) {log : Log}
      → Kept log
      → Holds
          (Verified.Warrant s own)
          (λ b log'. E log' × (b ≡ true → Verified.Placed s log'))
          (download_attempts s left)
          log
  unfolding download_attempts
  Holds-download_attempts zero e = returns (e.0, λ h. cc)
  Holds-download_attempts (suc left) e = Holds-bind (Holds-round e) λ verified _ h.
      Holds-if verified
        (λ f.
          Holds-bind (Holds-ignore-After Lasts-Kept _ (staged-archive s) h.0 (h.1 f))
            λ _ _ k. returns (k.0.0, λ _. k.1))
        (λ _. Holds-bind (Holds-ignore Lasts-Kept tt h.0) λ _ _ k.
          Holds-bind (Holds-pause s own Lasts-Kept left k)
            λ _ _ k'. Holds-download_attempts left k')

  pub Holds-download_runner :
      {log : Log}
      → E log
      → Holds
          (Verified.Warrant s own)
          (λ b log'. E log' × (b ≡ true → Verified.Placed s log'))
          (download_runner s)
          log
  unfolding download_runner
  Holds-download_runner e =
      Holds-bind (Holds-ignore-After lasts _ tt e tt)
        λ _ _ k. Holds-download_attempts s.max_attempts k
