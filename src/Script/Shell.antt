-- ===== src/Script/Shell.antt =====
-- Shell programs: the commands that the scripts call, what a command answers, and `set -e`.
use garm_provider_truenas.Base.{ℕ, Bool, true, false, not, List, ◌==◌, if◌then◌else◌}
use garm_provider_truenas.Base.Text.{Text}
use garm_provider_truenas.Base.Dict.{Dict}

-- A bearer token goes to `curl` on its standard input; everything else is an argument.
pub data Command : Type 0 where
  -- `curl -X POST --data payload url`, and `curl --location url -o destination`, each with a token.
  post : Text → Text → Text → Command
  fetch : Text → Text → Text → Command
  -- `curl --location url -o destination` without one.
  download : Text → Text → Command
  -- `printf '%s  %s\n' sum file | sha256sum -c -`
  checksum : Text → Text → Command
  -- `rm -f`, `rm -rf`, `mkdir -p`, `mv`, `chmod 600`, `tar xzf archive -C home`, `ln -s`, `cd`
  remove : List Text → Command
  remove_tree : Text → Command
  make_dirs : List Text → Command
  move : Text → Text → Command
  restrict : Text → Command
  extract : Text → Text → Command
  link : Text → Text → Command
  enter : Text → Command
  -- `[ -s f ]`, `[ -x f ]`, `[ -w f ]`, `[ -e f ]`, `[ -L f ]`, `[ -f f ]`
  has_content is_executable is_writable exists is_link is_file : Text → Command
  sleep : Text → Command
  -- A listener's `--version`, and a file's content as `sed` reads it.
  listener_version : Dict Text → Text → Command
  contents : Text → Command
  -- `program &` in an environment, with the process ID as its output; `kill -TERM`, `kill -0`,
  -- `wait`.
  start : Dict Text → Text → Command
  terminate is_alive wait : Text → Command
  -- `printf text >file`, and `install -d -m mode -o owner -g owner directory`.
  write : Text → Text → Command
  install_dir : Text → Text → Text → Command

-- A status and the standard output; or a trapped signal came while the command was running, and its
-- trap is next.
pub data Reply : Type 0 where
  replied : ℕ → Text → Reply
  signalled : Reply

-- A program asks for commands one by one, and goes on with a value, exits with a status, or comes
-- to the trap of a signal.
pub data Prog {ℓ} (A : Type ℓ) : Type ℓ where
  ret : A → Prog A
  exits : ℕ → Prog A
  trapped : Prog A
  ask : Command → (Reply → Prog A) → Prog A

infixl 5 ◌>>=◌ ◌>>◌
unfoldable pub ◌>>=◌ {ℓ κ} : {A : Type ℓ} {B : Type κ} → Prog A → (A → Prog B) → Prog B
ret a >>= f = f a
exits n >>= f = exits n
trapped >>= f = trapped
ask c k >>= f = ask c (λ r. k r >>= f)

abbrev pub ◌>>◌ {ℓ κ} : {A : Type ℓ} {B : Type κ} → Prog A → Prog B → Prog B
m >> k = m >>= λ _. k

abbrev pub unless_signalled {ℓ} : {A : Type ℓ} → (ℕ → Text → Prog A) → Reply → Prog A
unless_signalled f (replied status output) = f status output
unless_signalled f signalled = trapped

-- A command whose status the script looks at.
abbrev pub test : Command → Prog Bool
test c = ask c (unless_signalled λ status output. ret (status == 0))

abbrev pub exit_unless : Bool → ℕ → Prog (Unit {0})
exit_unless true status = ret tt
exit_unless false status = exits status

-- A command under `set -e`.
abbrev pub must : Command → Prog (Unit {0})
must c = ask c (unless_signalled λ status output. exit_unless (status == 0) status)

-- `c || true`.
abbrev pub ignore : Command → Prog (Unit {0})
ignore c = ask c (unless_signalled λ status output. ret tt)

-- The output of a pipeline in which the status of the first command is lost.
abbrev pub read : Command → Prog Text
read c = ask c (unless_signalled λ status output. ret output)

-- `a && b` on tests.
abbrev pub and_also : Prog Bool → Prog Bool → Prog Bool
and_also p q = p >>= λ b. if b then q else ret false

abbrev pub negated : Prog Bool → Prog Bool
negated p = p >>= λ b. ret (not b)
