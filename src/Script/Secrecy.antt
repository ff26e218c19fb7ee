-- ===== src/Script/Secrecy.antt =====
-- internal/truenasstore/bootstrap.go: where the instance token of the script goes.
use garm_provider_truenas.Base.{
  String, ℕ, zero, suc, ◌≡◌, refl, ap, subst, Bool, true, false, List, [], ◌∷◌, ◌++◌, map,
  if◌then◌else◌, is_empty, ◌==◌,
}
use garm_provider_truenas.Base.Text.{Text}
use garm_provider_truenas.Script.Shell.{
  Command, Reply, replied, signalled, post, fetch, Prog, ret, exits, trapped, ask, ◌>>=◌, ◌>>◌,
  unless_signalled, test, ignore, and_also,
}
use garm_provider_truenas.Script.Settings.{Settings}
use garm_provider_truenas.Script.Runs.{Log, Shell, End, returned, exited, killed, run}
pub mod Phases
pub mod Environment

-- A command without the token that goes to the standard input of `curl`.
abbrev pub masked : Command → Command
masked (post token url payload) = post [] url payload
masked (fetch token url destination) = fetch [] url destination
masked c = c

abbrev pub masked_log : Log → Log
masked_log [] = []
masked_log ((c, r) ∷ log) = (masked c, r) ∷ masked_log log

-- An outside whose answers do not depend on that token.
abbrev pub Blind : Shell → Type 0
Blind shell = (log : Log) (c : Command) → shell log c ≡ shell (masked_log log) (masked c)

-- Two programs that ask for the same commands, but for the token.
pub data Alike {A : Type 0} : Prog A → Prog A → Type 0 where
  both_ret : {a : A} → Alike (ret a) (ret a)
  both_exit : {n : ℕ} → Alike (exits n) (exits n)
  both_trapped : Alike trapped trapped
  both_ask :
      {c d : Command} {k l : Reply → Prog A}
      → masked c ≡ masked d
      → ((r : Reply) → Alike (k r) (l r))
      → Alike (ask c k) (ask d l)

pub Alike-refl : {A : Type 0} (p : Prog A) → Alike p p
Alike-refl (ret a) = both_ret
Alike-refl (exits n) = both_exit
Alike-refl trapped = both_trapped
Alike-refl (ask c k) = both_ask refl (λ r. Alike-refl (k r))

pub Alike-bind :
    {A B : Type 0} {f g : A → Prog B} {p q : Prog A}
    → Alike p q
    → ((a : A) → Alike (f a) (g a))
    → Alike (p >>= f) (q >>= g)
unfolding ◌>>=◌
Alike-bind both_ret h = h _
Alike-bind both_exit h = both_exit
Alike-bind both_trapped h = both_trapped
Alike-bind (both_ask e k) h = both_ask e (λ r. Alike-bind (k r) h)

pub Alike-if :
    {A : Type 0} (b : Bool) {p q p' q' : Prog A}
    → Alike p p'
    → Alike q q'
    → Alike (if b then p else q) (if b then p' else q')
Alike-if true h k = h
Alike-if false h k = k

-- Such programs end alike on an outside that does not look at the token.
pub run-Alike :
    {A : Type 0} (shell : Shell)
    → Blind shell
    → {p q : Prog A} → Alike p q
    → (log log' : Log) → masked_log log ≡ masked_log log'
    → ((run shell p log).0 ≡ (run shell q log').0)
      × (masked_log (run shell p log).1 ≡ masked_log (run shell q log').1)
unfolding run
run-Alike shell blind both_ret log log' e = (refl, e)
run-Alike shell blind both_exit log log' e = (refl, e)
run-Alike shell blind both_trapped log log' e = (refl, e)
run-Alike shell blind (both_ask {c} {d} {k} {l} m h) log log' e =
    let same : shell log c ≡ shell log' d = cc (blind log c, blind log' d) in
    let r = shell log c in
    subst
      (λ x.
        ((run shell (k r) ((c, r) ∷ log)).0 ≡ (run shell (l x) ((d, x) ∷ log')).0)
        × (masked_log (run shell (k r) ((c, r) ∷ log)).1
            ≡ masked_log (run shell (l x) ((d, x) ∷ log')).1))
      same (run-Alike shell blind (h r) ((c, r) ∷ log) ((d, r) ∷ log') (cc))
