-- ===== src/Script/Verified/Whole.antt =====
-- The parts of the script that prepare a runner and attend it ask for warranted commands.
use garm_provider_truenas.Base.{ℕ, ◌≡◌, refl, Bool, true, false, In, inl, inr}
use garm_provider_truenas.Base.Text.{Text, codes, has_prefix, text_eq_refl}
use garm_provider_truenas.Base.Dict.{Dict, lookup-erase, erase}
use garm_provider_truenas.Script.Shell.{
  Reply, replied, signalled, start, Prog, exits, ◌>>◌, unless_signalled,
}
use garm_provider_truenas.Script.Settings.{Settings, token_key}
use garm_provider_truenas.Script.Bootstrap.{
  or_kill, check_runner, fetch_credentials, start_runner, prepare_runner, check_started,
  read_release, system_payload, announce_runner, attend_runner, home_of,
}
use garm_provider_truenas.Script.Runs.{
  Log, Lasts, asks, traps, Lasts-and, Lasts-Did, Holds-weaken, Holds, returns, stops, Holds-bind,
  Holds-test, Holds-must, Holds-ignore, Holds-read, Holds-if,
}
use garm_provider_truenas.Script.Verified
use garm_provider_truenas.Script.Verified.Steps.{Holds-post_json}
use garm_provider_truenas.Script.Verified.Phases.{
  Holds-reuse_runner, Holds-install_runner, Holds-check_runner, Holds-fetch_credentials,
  Holds-report,
}

abbrev pub Begun : Text → Log → Type 0
Begun pid log =
    (environment : Dict Text) × (status : ℕ) × In
      (start environment (codes "./run.sh"), replied status pid) log

module _ (s : Settings) (own : Text) where
  Lasts-Matched : Lasts (Verified.Matched s)
  Lasts-Matched x log h = (h.0, (h.1.0, inr h.1.1, h.1.2))

  Lasts-Provided : (home : Text) → Lasts (Verified.Provided s home)
  Lasts-Provided home x log (inl h) = inl (h.0, Lasts-Matched x log h.1)
  Lasts-Provided home x log (inr h) = inr (h.0, inr h.1, Lasts-Did _ x log h.2)

  Lasts-Complete : (home : Text) → Lasts (Verified.Complete home)
  Lasts-Complete home x log h =
      (Lasts-Did _ x log h.0, Lasts-Did _ x log h.1, Lasts-Did _ x log h.2, Lasts-Did _ x log h.3)

  Holds-start_runner :
      {log : Log}
      → Verified.Provided s own log × Verified.Complete own log
      → Verified.Credentials s log
      → Holds (Verified.Warrant s own) Begun (start_runner s) log
  unfolding start_runner
  Holds-start_runner h c =
      Holds-weaken
        (Holds-read {E = λ _. Unit {0}} (λ _ _ _. tt)
          (
            rw (lookup-erase token_key token_key s.environment) (rw (text_eq_refl token_key) refl),
            (h.0, h.1, c),
          )
          tt)
        (λ pid _ k. (erase token_key s.environment, k.1.0, k.1.1))

  -- What every way to a runner's files shares.
  Holds-ready_home :
      {log : Log}
      → Verified.Provided s own log
      → Holds
          (Verified.Warrant s own)
          Begun
          (check_runner s own >> (fetch_credentials s >> start_runner s))
          log
  Holds-ready_home h = Holds-bind (Holds-check_runner s own (Lasts-Provided own) h) λ _ _ k.
      Holds-bind
        (Holds-fetch_credentials s own (Lasts-and (Lasts-Provided own) (Lasts-Complete own)) k)
        λ _ _ k1. Holds-start_runner k1.0 k1.1

  pub Holds-prepare_runner :
      (matched : Bool) {log : Log}
      → own ≡ home_of s matched
      → (matched ≡ true → Verified.Matched s log)
      → Holds (Verified.Warrant s own) Begun (prepare_runner s matched own) log
  unfolding prepare_runner
  Holds-prepare_runner true e h =
      Holds-bind (Holds-reuse_runner s own Lasts-Matched (h refl))
        λ _ _ k. Holds-ready_home (inl (e, k))
  Holds-prepare_runner false e h =
      Holds-bind (Holds-install_runner s own {E = λ _. Unit {0}} (λ _ _ _. tt) tt)
        λ _ _ k. Holds-ready_home (inr (e, k.1, rw e k.2))

  Lasts-Begun : (pid : Text) → Lasts (Begun pid)
  Lasts-Begun pid x log h = (h.0, h.1, inr h.2)

  Lasts-Alive : (pid : Text) → Lasts (Verified.Alive pid)
  Lasts-Alive pid x log h = (Lasts-Begun pid x log h.0, Lasts-Did _ x log h.1)

  Holds-check_started :
      (pid : Text) {log : Log}
      → Begun pid log
      → Holds (Verified.Warrant s own) (λ _. Verified.Alive pid) (check_started s pid) log
  unfolding check_started
  Holds-check_started pid h =
      let begun = Lasts-Begun pid in
      Holds-bind (Holds-must begun tt h) λ _ _ k. Holds-bind (Holds-test begun tt k.0) λ alive _ k1.
        Holds-if alive (λ f. returns (k1.0, k1.1 f))
          λ _. Holds-bind (Holds-ignore begun tt k1.0) λ _ _ k2. Holds-report s own begun _ 29 k2

  Holds-or_kill :
      {E : Log → Type 0} (lasts : Lasts E) (pid : Text) (p : Prog Bool) (status : ℕ) {log : Log}
      → Holds (Verified.Warrant s own) (λ _ log'. E log') p log
      → Holds (Verified.Warrant s own) (λ _ log'. E log') (or_kill pid p status) log
  unfolding or_kill
  Holds-or_kill lasts pid p status h = Holds-bind h λ b _ k.
      Holds-if b (λ _. returns k)
        λ _.
          Holds-bind (Holds-ignore lasts tt k)
            λ _ _ k1. Holds-bind (Holds-ignore lasts tt k1) (λ _ _ _. stops)

  Holds-read_release :
      {E : Log → Type 0} (lasts : Lasts E) {log : Log}
      → E log
      → Holds (Verified.Warrant s own) (λ _ log'. E log') read_release log
  unfolding read_release
  Holds-read_release lasts e = Holds-bind (Holds-test lasts tt e) λ found _ k.
      Holds-if found
        (λ _.
          Holds-bind (Holds-read lasts tt k.0)
            λ _ _ k1. Holds-bind (Holds-read lasts tt k1.0) λ _ _ k2. returns k2.0)
        (λ _. returns k.0)

  Holds-announce_runner :
      (pid : Text) {log : Log}
      → Verified.Alive pid log
      → Holds (Verified.Warrant s own) (λ _. Verified.Alive pid) (announce_runner s pid) log
  unfolding announce_runner system_payload codes has_prefix
  Holds-announce_runner pid h =
      let alive = Lasts-Alive pid in
      Holds-bind (Holds-read_release alive h) λ _ _ k. Holds-bind (Holds-read alive tt k) λ _ _ k1.
        Holds-bind
          (Holds-or_kill alive pid _ 30
            (Holds-post_json s own alive _ _ (λ _ _ t. absurd (cc)) k1.0))
          λ _ _ k2.
            Holds-or_kill alive pid _ 31 (Holds-post_json s own alive _ _ (λ _ a t. (pid, a)) k2)

  pub Holds-attend_runner :
      (pid : Text) {log : Log}
      → Begun pid log
      → Holds (Verified.Warrant s own) (λ _ _. Unit {0}) (attend_runner s pid) log
  unfolding attend_runner
  Holds-attend_runner pid h =
      Holds-bind (Holds-check_started pid h)
        λ _ _ k. Holds-bind (Holds-announce_runner pid k) λ _ _ k1. asks tt (λ r. ended r)
    where
      ended :
          {log : Log} (r : Reply)
          → Holds
              (Verified.Warrant s own)
              {A = Unit {0}}
              (λ _ _. Unit {0})
              (unless_signalled (λ status output. exits status) r)
              log
      ended (replied status output) = stops
      ended signalled = traps
