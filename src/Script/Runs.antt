-- ===== src/Script/Runs.antt =====
-- How a program runs against an outside that answers each command from everything that went before,
-- and a logic for what holds of its commands.
pub mod Goes
pub mod Order
use garm_provider_truenas.Base.{
  ℕ, ◌≡◌, refl, Bool, true, false, List, [], ◌∷◌, In, inl, inr, arith, ◌==◌, if◌then◌else◌,
}
use garm_provider_truenas.Base.Text.{Text}
use garm_provider_truenas.Script.Shell.{
  Command, Reply, replied, signalled, Prog, ret, exits, trapped, ask, ◌>>=◌, test, must, ignore,
  read, unless_signalled, exit_unless,
}

-- The commands so far with their answers, the newest first.
abbrev pub Log : Type 0
Log = List (Command × Reply)

abbrev pub Shell : Type 0
Shell = Log → Command → Reply

pub data End {ℓ} (A : Type ℓ) : Type ℓ where
  returned : A → End A
  exited : ℕ → End A
  killed : End A

unfoldable pub run {ℓ} : {A : Type ℓ} → Shell → Prog A → Log → End A × Log
run shell (ret a) log = (returned a, log)
run shell (exits n) log = (exited n, log)
run shell trapped log = (killed, log)
run shell (ask c k) log = let r = shell log c in run shell (k r) ((c, r) ∷ log)

-- The command was answered with status 0.
abbrev pub Did : Command → Log → Type 0
Did c log = (output : Text) × In (c, replied 0 output) log

-- Every command of a log has the warrant that the commands before it give.
abbrev pub IsWarranted : (Command → Log → Type 0) → Log → Type 0
IsWarranted W [] = Unit
IsWarranted W ((c, r) ∷ log) = W c log × IsWarranted W log

-- Knowledge that further commands do not undo.
abbrev pub Lasts : (Log → Type 0) → Type 0
Lasts E = (x : Command × Reply) (log : Log) → E log → E (x ∷ log)

module _ (W : Command → Log → Type 0) where
  -- Each command that the program asks for is warranted, and what it returns has the property.
  pub data Holds {A : Type 0} (Q : A → Log → Type 0) : Prog A → Log → Type 0 where
    returns : {a : A} {log : Log} → Q a log → Holds Q (ret a) log
    stops : {n : ℕ} {log : Log} → Holds Q (exits n) log
    traps : {log : Log} → Holds Q trapped log
    asks :
        {c : Command} {k : Reply → Prog A} {log : Log}
        → W c log
        → ((r : Reply) → Holds Q (k r) ((c, r) ∷ log))
        → Holds Q (ask c k) log

module _ {W : Command → Log → Type 0} where
  pub Holds-bind :
      {A B : Type 0} {Q : A → Log → Type 0} {R : B → Log → Type 0} {f : A → Prog B} {p : Prog A}
      {log : Log}
      → Holds W Q p log
      → ((a : A) (log' : Log) → Q a log' → Holds W R (f a) log')
      → Holds W R (p >>= f) log
  unfolding ◌>>=◌
  Holds-bind (returns h) then_f = then_f _ _ h
  Holds-bind stops then_f = stops
  Holds-bind traps then_f = traps
  Holds-bind (asks w h) then_f = asks w (λ r. Holds-bind (h r) then_f)

  pub run-IsWarranted :
      {A : Type 0} {Q : A → Log → Type 0} (shell : Shell) {p : Prog A} {log : Log}
      → Holds W Q p log
      → IsWarranted W log
      → IsWarranted W (run shell p log).1
  unfolding run
  run-IsWarranted shell (returns h) w = w
  run-IsWarranted shell stops w = w
  run-IsWarranted shell traps w = w
  run-IsWarranted shell (asks {c} {k} {log} v h) w = run-IsWarranted shell (h (shell log c)) (v, w)

  pub Holds-exit_unless :
      {Q : Unit {0} → Log → Type 0} {log : Log} (b : Bool) (status : ℕ)
      → (b ≡ true → Q tt log)
      → Holds W Q (exit_unless b status) log
  Holds-exit_unless true status h = returns (h refl)
  Holds-exit_unless false status h = stops

  -- The rules for single commands, with some knowledge that lasts.
  module _ {E : Log → Type 0} (lasts : Lasts E) {c : Command} {log : Log} (w : W c log)
      (e : E log) where
    pub Holds-test : Holds W (λ b log'. E log' × (b ≡ true → Did c log')) (test c) log
    Holds-test = asks w answered
      where
        answered :
            (r : Reply)
            → Holds W
                (λ b log'. E log' × (b ≡ true → Did c log'))
                (unless_signalled (λ status output. ret (status == 0)) r)
                ((c, r) ∷ log)
        answered (replied status output) =
            returns (lasts _ log e, λ h. (output, inl (ground arith)))
        answered signalled = traps

    pub Holds-must : Holds W (λ _ log'. E log' × (Did c log')) (must c) log
    Holds-must = asks w answered
      where
        answered :
            (r : Reply)
            → Holds W
                (λ _ log'. E log' × (Did c log'))
                (unless_signalled (λ status output. exit_unless (status == 0) status) r)
                ((c, r) ∷ log)
        answered (replied status output) =
            Holds-exit_unless (status == 0) status
              (λ h. (lasts _ log e, (output, inl (ground arith))))
        answered signalled = traps

    pub Holds-ignore : Holds W (λ _ log'. E log') (ignore c) log
    Holds-ignore = asks w answered
      where
        answered :
            (r : Reply)
            → Holds W {A = Unit {0}}
                (λ _ log'. E log')
                (unless_signalled (λ status output. ret tt) r)
                ((c, r) ∷ log)
        answered (replied status output) = returns (lasts _ log e)
        answered signalled = traps

    pub Holds-read :
        Holds W
          (λ output log'. E log' × ((status : ℕ) × In (c, replied status output) log'))
          (read c)
          log
    Holds-read = asks w answered
      where
        answered :
            (r : Reply)
            → Holds W
                (λ output log'. E log' × ((status : ℕ) × In (c, replied status output) log'))
                (unless_signalled (λ status output. ret output) r)
                ((c, r) ∷ log)
        answered (replied status output) = returns (lasts _ log e, (status, inl refl))
        answered signalled = traps

  pub Holds-if :
      {A : Type 0} {Q : A → Log → Type 0} {log : Log} (b : Bool) {p q : Prog A}
      → (b ≡ true → Holds W Q p log)
      → (b ≡ false → Holds W Q q log)
      → Holds W Q (if b then p else q) log
  Holds-if true yes_p no_p = yes_p refl
  Holds-if false yes_p no_p = no_p refl

pub Lasts-Did : (c : Command) → Lasts (Did c)
Lasts-Did c x log d = (d.0, inr d.1)

pub Lasts-and : {E F : Log → Type 0} → Lasts E → Lasts F → Lasts (λ log. E log × F log)
Lasts-and keep_e keep_f x log h = (keep_e x log h.0, keep_f x log h.1)

pub Holds-weaken :
    {W : Command → Log → Type 0} {A : Type 0} {Q R : A → Log → Type 0} {p : Prog A} {log : Log}
    → Holds W Q p log
    → ((a : A) (log' : Log) → Q a log' → R a log')
    → Holds W R p log
Holds-weaken (returns h) f = returns (f _ _ h)
Holds-weaken stops f = stops
Holds-weaken traps f = traps
Holds-weaken (asks w h) f = asks w (λ r. Holds-weaken (h r) f)

-- The outcome of a run has the property of what the program returns.
abbrev pub Returning : {A : Type 0} → (A → Type 0) → End A → Type 0
Returning P (returned a) = P a
Returning P (exited n) = Unit
Returning P killed = Unit

pub run-Returning :
    {W : Command → Log → Type 0} {A : Type 0} {P : A → Type 0} (shell : Shell) {p : Prog A}
    {log : Log}
    → Holds W (λ a _. P a) p log
    → Returning P (run shell p log).0
unfolding run
run-Returning shell (returns h) = h
run-Returning shell stops = tt
run-Returning shell traps = tt
run-Returning shell (asks {c} {k} {log} w h) = run-Returning shell (h (shell log c))

pub Holds-ret :
    {W : Command → Log → Type 0} {A : Type 0} {Q : A → Log → Type 0} {a : A} {log : Log}
    → Holds W Q (ret a) log
    → Q a log
Holds-ret (returns h) = h

pub Holds-ask :
    {W : Command → Log → Type 0} {A : Type 0} {Q : A → Log → Type 0} {c : Command}
    {k : Reply → Prog A} {log : Log}
    → Holds W Q (ask c k) log
    → W c log × ((r : Reply) → Holds W Q (k r) ((c, r) ∷ log))
Holds-ask (asks w h) = (w, h)
