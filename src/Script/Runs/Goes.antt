-- ===== src/Script/Runs/Goes.antt =====
-- How a program runs where its commands succeed.
use garm_provider_truenas.Base.{
  ℕ, ◌≡◌, refl, ap, Bool, true, false, ◌∷◌, In, inl, inr, arith, ◌==◌, ◌∙◌, if◌then◌else◌,
}
use garm_provider_truenas.Base.Text.{Text}
use garm_provider_truenas.Script.Shell.{
  Command, exists, is_link, listener_version, wait, Reply, replied, Prog, ret, exits, trapped, ask,
  ◌>>=◌, ◌>>◌, test, must, ignore, read, unless_signalled, and_also,
}
use garm_provider_truenas.Script.Runs.{Log, Shell, returned, run, Did}

-- The commands that a run needs to succeed; the others may answer as they do.
abbrev pub IsNeeded : Command → Type 0
IsNeeded (exists file) = ⊥
IsNeeded (is_link file) = ⊥
IsNeeded (listener_version environment file) = ⊥
IsNeeded (wait pid) = ⊥
IsNeeded c = Unit

-- No signal comes, and what is needed succeeds.
abbrev pub Obliges : Shell → Type 0
Obliges shell =
    (log : Log) (c : Command)
    → (status : ℕ) × (output : Text) × (shell log c ≡ replied status output)
      × (IsNeeded c → status ≡ 0)

module _ (shell : Shell) where
  -- The program returns, with a value and a log of which this holds.
  abbrev pub Goes : {A : Type 0} → Prog A → Log → (A → Log → Type 0) → Type 0
  Goes {A} p log Q = (a : A) × (log' : Log) × (run shell p log ≡ (returned a, log')) × Q a log'

  -- What stands in the log stays there.
  pub run-In :
      {A : Type 0} (x : Command × Reply) (p : Prog A) (log : Log)
      → In x log
      → In x (run shell p log).1
  unfolding run
  run-In x (ret a) log h = h
  run-In x (exits n) log h = h
  run-In x trapped log h = h
  run-In x (ask c k) log h = run-In x (k (shell log c)) ((c, shell log c) ∷ log) (inr h)

  pub run-bind :
      {A B : Type 0} (p : Prog A) (f : A → Prog B) (log : Log) (a : A) (log' : Log)
      → run shell p log ≡ (returned a, log')
      → run shell (p >>= f) log ≡ run shell (f a) log'
  unfolding run ◌>>=◌
  run-bind (ret b) f log a log' e = ground arith
  run-bind (exits n) f log a log' e = cc
  run-bind trapped f log a log' e = cc
  run-bind (ask c k) f log a log' e = run-bind (k (shell log c)) f ((c, shell log c) ∷ log) a log' e

  pub Goes-bind :
      {A B : Type 0} {Q : A → Log → Type 0} {R : B → Log → Type 0} (p : Prog A) (f : A → Prog B)
      (log : Log)
      → Goes p log Q
      → ((a : A) (log' : Log) → Q a log' → Goes (f a) log' R)
      → Goes (p >>= f) log R
  Goes-bind p f log (a, log', e, q) then_f =
      let (b, log'', e', r) = then_f a log' q in (b, log'', run-bind p f log a log' e ∙ e', r)

  pub Goes-ret :
      {A : Type 0} {Q : A → Log → Type 0} (a : A) (log : Log) → Q a log → Goes (ret a) log Q
  unfolding run
  Goes-ret a log q = (a, log, refl, q)

  -- Where only what comes after counts.
  pub Goes-then :
      {A B : Type 0} {R : B → Log → Type 0} (p : Prog A) (q : Prog B) (log : Log)
      → Goes p log (λ _ _. Unit {0})
      → ((log' : Log) → Goes q log' R)
      → Goes (p >> q) log R
  Goes-then p q log h k = Goes-bind p _ log h (λ _ log' _. k log')

  run-answered :
      {A : Type 0} (c : Command) (f : ℕ → Text → Prog A) (log : Log) (status : ℕ) (output : Text)
      (a : A)
      → shell log c ≡ replied status output
      → f status output ≡ ret a
      → run shell (ask c (unless_signalled f)) log ≡ (returned a, (c, replied status output) ∷ log)
  unfolding run
  run-answered c f log status output a e g =
      ap (λ r. run shell (unless_signalled f r) ((c, r) ∷ log)) e
      ∙ ap (λ p. run shell p ((c, replied status output) ∷ log)) g

  module _ (obliges : Obliges shell) where
    pub Goes-answered :
        {A : Type 0} {Q : A → Log → Type 0} (c : Command) (f : ℕ → Text → Prog A) (g : ℕ → Text → A)
        (log : Log)
        → ((status : ℕ) (output : Text)
            → (IsNeeded c → status ≡ 0)
            → (f status output ≡ ret (g status output))
              × Q (g status output) ((c, replied status output) ∷ log))
        → Goes (ask c (unless_signalled f)) log Q
    Goes-answered c f g log h =
        let (status, output, e, z) = obliges log c in
        let (same, q) = h status output z in
        (
          g status output,
          (c, replied status output) ∷ log,
          run-answered c f log status output (g status output) e same,
          q,
        )

    pub Goes-test :
        (c : Command) (log : Log)
        → IsNeeded c
        → Goes (test c) log (λ b log'. (b ≡ true) × Did c log')
    Goes-test c log needed =
        Goes-answered c _ (λ status output. status == 0) log
          (λ status output z.
            (refl, (ground (arith, z needed), (output, inl (ground (arith, z needed))))))

    pub Goes-must : (c : Command) (log : Log) → IsNeeded c → Goes (must c) log (λ _ _. Unit {0})
    Goes-must c log needed =
        Goes-answered c _ (λ status output. tt) log (λ status output z. (rw (z needed) refl, tt))

    pub Goes-ignore : (c : Command) (log : Log) → Goes (ignore c) log (λ _ _. Unit {0})
    Goes-ignore c log = Goes-answered c _ (λ status output. tt) log (λ status output z. (refl, tt))

    -- A test of which only the answer counts.
    pub Goes-any : (c : Command) (log : Log) → Goes (test c) log (λ _ _. Unit {0})
    Goes-any c log =
        Goes-answered c _ (λ status output. status == 0) log (λ status output z. (refl, tt))

    pub Goes-read :
        (c : Command) (log : Log)
        → Goes (read c) log (λ output log'. (status : ℕ) × In (c, replied status output) log')
    Goes-read c log =
        Goes-answered c _ (λ status output. output) log
          (λ status output z. (refl, (status, inl refl)))

pub Goes-if :
    {A : Type 0} {Q : A → Log → Type 0} (shell : Shell) (b : Bool) (p q : Prog A) (log : Log)
    → Goes shell p log Q
    → Goes shell q log Q
    → Goes shell (if b then p else q) log Q
Goes-if shell true p q log h k = h
Goes-if shell false p q log h k = k

-- `p && q`, whatever they answer.
pub Goes-and_also :
    (shell : Shell) (p q : Prog Bool) (log : Log)
    → Goes shell p log (λ _ _. Unit {0})
    → ((log' : Log) → Goes shell q log' (λ _ _. Unit {0}))
    → Goes shell (and_also p q) log (λ _ _. Unit {0})
Goes-and_also shell p q log h k =
    Goes-bind shell p _ log h
      λ b log' _. Goes-if shell b _ _ log' (k log') (Goes-ret shell false log' tt)
