-- ===== src/Script/Success.antt =====
-- internal/truenasstore/bootstrap.go: the script where its commands succeed.
pub mod Phases
pub mod Whole
use garm_provider_truenas.Base.{
  String, ℕ, zero, suc, ◌≡◌, refl, ap, ◌∙◌, Bool, true, false, List, [], ◌∷◌, ◌++◌, In, inl, inr,
  arith, ◌==◌, if◌then◌else◌, is_empty,
}
use garm_provider_truenas.Base.Text.{Text, codes}
use garm_provider_truenas.Script.Shell.{
  Command, Reply, replied, signalled, post, Prog, ret, exits, ask, ◌>>=◌, ◌>>◌, test, ignore,
  and_also, negated, unless_signalled,
}
use garm_provider_truenas.Script.Words.{expected_version}
use garm_provider_truenas.Script.Settings.{Settings}
use garm_provider_truenas.Script.Steps.{
  post_attempts, post_json, post_status, keep_fetched, fetch_attempts, fetch_metadata,
  download_attempts, download_runner, absent, version_matches, prestaged_runner_matches,
}
use garm_provider_truenas.Script.Bootstrap.{
  or_exit, or_report, reuse_runner, install_runner, check_runner, fetch_credentials,
}
use garm_provider_truenas.Script.Runs.{Log, Shell, Did, run}
use garm_provider_truenas.Script.Runs.Goes.{
  Obliges, Goes, Goes-bind, Goes-then, Goes-ret, Goes-if, Goes-answered, Goes-test, Goes-must,
  Goes-ignore, Goes-any,
}

module _ (s : Settings) (shell : Shell) (obliges : Obliges shell) (left : ℕ)
    (enough : s.max_attempts ≡ suc left) where
  pub Goes-post_json :
      (url payload : Text) (log : Log)
      → Goes shell
          (post_json s url payload)
          log
          (λ b log'. (b ≡ true) × Did (post s.token url payload) log')
  unfolding post_json post_attempts
  Goes-post_json url payload log = rw enough (
      Goes-bind shell _ _ log (Goes-test shell obliges (post s.token url payload) log tt)
        λ sent log' q. rw q.0 (true, log', unfold run in refl, (refl, q.1)))

  Goes-post_status :
      (status message : String) (log : Log)
      → Goes shell (post_status s status message) log (λ b _. b ≡ true)
  unfolding post_status
  Goes-post_status status message log =
      let (b, log', e, q) = Goes-post_json _ _ log in (b, log', e, q.0)

  Goes-keep_fetched :
      (tmp destination : Text) (log : Log)
      → Goes shell (keep_fetched tmp destination) log (λ b _. b ≡ true)
  unfolding keep_fetched
  Goes-keep_fetched tmp destination log =
      Goes-bind shell _ _ log (Goes-test shell obliges _ log tt) λ full log1 q. rw q.0 (
        Goes-then shell _ _ log1 (Goes-ignore shell obliges _ log1) λ log2.
          Goes-then shell _ _ log2 (Goes-ignore shell obliges _ log2)
            λ log3. Goes-ret shell true log3 refl)

  -- `p && q`, where both hold.
  Goes-both :
      {P : Log → Type 0} (p q : Prog Bool) (log : Log)
      → Goes shell p log (λ b log'. (b ≡ true) × P log')
      → ((log' : Log) → Goes shell q log' (λ b _. b ≡ true))
      → Goes shell (and_also p q) log (λ b _. b ≡ true)
  Goes-both p q log h k = Goes-bind shell p _ log h λ b log' e. rw e.0 (k log')

  Goes-holds :
      {P : Log → Type 0} (p : Prog Bool) (log : Log)
      → Goes shell p log (λ b log'. (b ≡ true) × P log')
      → Goes shell p log (λ b _. b ≡ true)
  Goes-holds p log h = let (b, log', e, q) = h in (b, log', e, q.0)

  pub Goes-fetch_metadata :
      (path destination : Text) (log : Log)
      → Goes shell (fetch_metadata s path destination) log (λ b _. b ≡ true)
  unfolding fetch_metadata fetch_attempts
  Goes-fetch_metadata path destination log = rw enough (
      Goes-then shell _ _ log (Goes-ignore shell obliges _ log) λ log1.
        Goes-bind shell _ _ log1
          (Goes-both _ _ log1 (Goes-test shell obliges _ log1 tt) (Goes-keep_fetched _ _))
          λ kept log2 q. rw q (Goes-ret shell true log2 refl))

  pub Goes-download_runner : (log : Log) → Goes shell (download_runner s) log (λ b _. b ≡ true)
  unfolding download_runner download_attempts
  Goes-download_runner log = rw enough (
      Goes-then shell _ _ log (Goes-ignore shell obliges _ log) λ log1.
        Goes-bind shell _ _ log1
          (Goes-both _ _ log1 (Goes-test shell obliges _ log1 tt)
            (λ l. Goes-holds _ l (Goes-test shell obliges _ l tt)))
          λ verified log2 q. rw q (
            Goes-then shell _ _ log2 (Goes-ignore shell obliges _ log2)
              λ log3. Goes-ret shell true log3 refl))
