-- ===== src/Script/Runs/Order.antt =====
-- Commands of a log in their order.
use garm_provider_truenas.Base.{◌≡◌, refl, true, [], ◌∷◌, ◌⊎◌, inl, inr, arith, ◌==◌}
use garm_provider_truenas.Script.Shell.{
  Command, Reply, replied, signalled, ret, test, ignore, unless_signalled,
}
use garm_provider_truenas.Script.Runs.{Log, Lasts, Holds, returns, asks, traps}

abbrev pub IsDone : Reply → Type 0
IsDone (replied status output) = status ≡ 0
IsDone signalled = ⊥

-- The command was answered in this way, where this held of the log before it.
abbrev pub After : Command → (Reply → Type 0) → (Log → Type 0) → Log → Type 0
After c R P [] = ⊥
After c R P ((d, r) ∷ log) = ((d ≡ c) × R r × P log) ⊎ After c R P log

pub Lasts-After : (c : Command) (R : Reply → Type 0) (P : Log → Type 0) → Lasts (After c R P)
Lasts-After c R P x log h = inr h

module _ {W : Command → Log → Type 0} {E : Log → Type 0} (lasts : Lasts E) (c : Command)
    {P : Log → Type 0} {log : Log} (w : W c log) (e : E log) (p : P log) where
  pub Holds-test-After :
      Holds W (λ b log'. E log' × (b ≡ true → After c IsDone P log')) (test c) log
  Holds-test-After = asks w answered
    where
      answered :
          (r : Reply)
          → Holds W
              (λ b log'. E log' × (b ≡ true → After c IsDone P log'))
              (unless_signalled (λ status output. ret (status == 0)) r)
              ((c, r) ∷ log)
      answered (replied status output) =
          returns (lasts _ log e, λ h. inl (refl, ground (arith, h), p))
      answered signalled = traps

  pub Holds-ignore-After :
      Holds W (λ _ log'. E log' × After c (λ _. Unit {0}) P log') (ignore c) log
  Holds-ignore-After = asks w answered
    where
      answered :
          (r : Reply)
          → Holds W {A = Unit {0}}
              (λ _ log'. E log' × After c (λ _. Unit {0}) P log')
              (unless_signalled (λ status output. ret tt) r)
              ((c, r) ∷ log)
      answered (replied status output) = returns (lasts _ log e, inl (refl, tt, p))
      answered signalled = traps
