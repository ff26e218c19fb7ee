-- ===== src/Script/Traps/Cleared.antt =====
-- internal/truenasstore/bootstrap.go: what the script leaves behind.
use garm_provider_truenas.Base.{◌≡◌, List, [], ◌∷◌, ◌++◌, inl, inr, In}
use garm_provider_truenas.Base.Text.{Text, codes}
use garm_provider_truenas.Script.Shell.{Command, enter, fetch, download, move, link}
use garm_provider_truenas.Script.Settings.{Settings}
use garm_provider_truenas.Script.Steps.{credential_files, staged_paths, credential_paths}
use garm_provider_truenas.Script.Bootstrap.{run_bootstrap}
use garm_provider_truenas.Script.Runs.{Log, Shell, run, IsWarranted}
use garm_provider_truenas.Script.Verified
use garm_provider_truenas.Script.Traps.{Leaves, run_bootstrap-IsOver}

-- What a command wrote, or linked in RUNNER_HOME, is among the paths.
abbrev pub Covered : Settings → Text → Command → Type 0
Covered s home (fetch token url destination) = In destination (credential_paths s home)
Covered s home (download url destination) = In destination (credential_paths s home)
Covered s home (move from to) = In to (credential_paths s home)
Covered s home (link target name) = In (home ++ (codes "/" ++ name)) (credential_paths s home)
Covered s home (enter path) = path ≡ home
Covered s home _ = Unit

In-append_left : {A : Type 0} (a : A) (xs ys : List A) → In a xs → In a (xs ++ ys)
In-append_left a [] ys h = absurd h
In-append_left a (x ∷ xs) ys (inl h) = inl h
In-append_left a (x ∷ xs) ys (inr h) = inr (In-append_left a xs ys h)

staged-Covered :
    (s : Settings) (home path : Text) → In path (staged_paths s) → In path (credential_paths s home)
unfolding credential_paths
staged-Covered s home path h = inr (inr (inr h))

Covered-of_Warrant :
    (s : Settings) (home : Text) (c : Command) (log : Log)
    → Verified.Warrant s home c log
    → Covered s home c
unfolding credential_paths
Covered-of_Warrant s home (fetch token url destination) log w = staged-Covered s home destination w
Covered-of_Warrant s home (download url destination) log w = staged-Covered s home destination w
Covered-of_Warrant s home (move from to) log w = staged-Covered s home to w
Covered-of_Warrant s home (link target name) log w =
    In-append_left _ (credential_files home) (staged_paths s) (w home)
Covered-of_Warrant s home (enter path) log w = w
Covered-of_Warrant s home _ log w = tt

all-Covered :
    (s : Settings) (home : Text) (log : Log)
    → IsWarranted (Verified.Warrant s home) log
    → IsWarranted (λ c _. Covered s home c) log
all-Covered s home [] w = tt
all-Covered s home ((c, r) ∷ log) w =
    (Covered-of_Warrant s home c log w.0, all-Covered s home log w.1)

-- Whatever the commands answer and wherever a signal comes, the script exits; it enters no directory
-- but one, and its last command removes every file that it fetched, downloaded or moved into place
-- and every link that it made in that directory.
pub run_bootstrap-clears :
    (s : Settings) (shell : Shell)
    → (home : Text) × (left : Leaves s home (run shell (run_bootstrap s) [])) × IsWarranted
        (λ c _. Covered s home c)
        left.before
run_bootstrap-clears s shell =
    let (home, is, (left, w)) = run_bootstrap-IsOver s shell in
    (home, left, all-Covered s home left.before w)
