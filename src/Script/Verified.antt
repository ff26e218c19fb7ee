-- ===== src/Script/Verified.antt =====
-- internal/truenasstore/bootstrap.go: which commands of the script need a reason, and which.
use garm_provider_truenas.Base.{
  ℕ, ◌≡◌, Bool, true, List, [], ◌∷◌, ◌++◌, Option, none, ◌⊎◌, In, is_empty, false,
}
use garm_provider_truenas.Base.Text.{Text, codes, text_eq, has_prefix}
use garm_provider_truenas.Base.Dict.{Dict, lookup}
use garm_provider_truenas.Script.Shell.{
  Command, replied, post, fetch, remove, download, move, link, checksum, extract, start,
  has_content, is_executable, enter, listener_version, is_alive,
}
use garm_provider_truenas.Script.Words.{expected_version, first_line}
use garm_provider_truenas.Script.Settings.{Settings, token_key, metadata_base_of}
use garm_provider_truenas.Script.Steps.{temporary, staged_paths, credential_files}
use garm_provider_truenas.Script.Runs.{Log, Did}
use garm_provider_truenas.Script.Runs.Order.{After, IsDone}
pub mod Steps
pub mod Archive
pub mod Prestaged
pub mod Phases
pub mod Whole

-- The removal of an older archive was asked for, whatever it was answered.
abbrev pub Cleared : Settings → Log → Type 0
Cleared s =
    After (remove (temporary s.runner_archive ∷ s.runner_archive ∷ [])) (λ _. Unit {0})
      (λ _. Unit {0})

-- After that, the temporary file was downloaded.
abbrev pub Downloaded : Settings → Log → Type 0
Downloaded s = After (download s.download_url (temporary s.runner_archive)) IsDone (Cleared s)

-- After that, it had the pinned digest.
abbrev pub Checked : Settings → Log → Type 0
Checked s = After (checksum s.sha256 (temporary s.runner_archive)) IsDone (Downloaded s)

-- After that, its move to the place of the archive was asked for, whatever it was answered.
abbrev pub Placed : Settings → Log → Type 0
Placed s = After (move (temporary s.runner_archive) s.runner_archive) (λ _. Unit {0}) (Checked s)

-- The listener in the image reported exactly the version of the pinned archive.
abbrev pub Matched : Settings → Log → Type 0
Matched s log =
    (is_empty (expected_version s.filename) ≡ false)
    × ((output : Text) × In
          (
            listener_version s.environment
                (s.prestaged_runner_home ++ codes "/bin/Runner.Listener"),
            replied 0 output,
          )
          log
        × (text_eq (first_line output) (expected_version s.filename) ≡ true))

-- The files below a directory come from the image, or from the archive.
abbrev pub Provided : Settings → Text → Log → Type 0
Provided s home log =
    ((home ≡ s.prestaged_runner_home) × Matched s log)
    ⊎ ((home ≡ s.runner_home) × Placed s log × Did (extract s.runner_archive home) log)

-- A credential was fetched with the instance token, and its file is not empty.
abbrev pub Fetched : Settings → Text → Text → Log → Type 0
Fetched s path file log =
    Did
      (fetch s.token (metadata_base_of s.metadata_url ++ (codes "/" ++ path))
        (temporary (s.jit_dir ++ file)))
      log
    × Did (has_content (temporary (s.jit_dir ++ file))) log

abbrev pub Complete : Text → Log → Type 0
Complete home log =
    Did (is_executable (home ++ codes "/run.sh")) log
    × Did (is_executable (home ++ codes "/bin/Runner.Listener")) log
    × Did (is_executable (home ++ codes "/externals/node24/bin/node")) log
    × Did (enter home) log

abbrev pub Credentials : Settings → Log → Type 0
Credentials s log =
    Fetched s (codes "credentials/runner") (codes "/.runner") log
    × Fetched s (codes "credentials/credentials") (codes "/.credentials") log
    × Fetched s (codes "credentials/credentials_rsaparams") (codes "/.credentials_rsaparams") log

abbrev pub IsIdle : Text → Type 0
IsIdle payload = has_prefix payload (codes "{\"status\":\"idle\"") ≡ true

-- A runner was started with this process ID, and was alive after that.
abbrev pub Alive : Text → Log → Type 0
Alive pid log =
    ((environment : Dict Text) × (status : ℕ) × In
        (start environment (codes "./run.sh"), replied status pid) log)
    × Did (is_alive pid) log

-- What must have happened before a command, where RUNNER_HOME comes to be this directory.
abbrev pub Warrant : Settings → Text → Command → Log → Type 0
Warrant s own (start environment program) log =
    (lookup token_key environment ≡ none)
    × (Provided s own log × Complete own log × Credentials s log)
Warrant s own (extract archive home) log = (archive ≡ s.runner_archive) × Placed s log
Warrant s own (post token url payload) log = IsIdle payload → (pid : Text) × Alive pid log
Warrant s own (fetch token url destination) log = In destination (staged_paths s)
Warrant s own (download url destination) log = In destination (staged_paths s)
Warrant s own (move from to) log = In to (staged_paths s)
Warrant s own (link target name) log =
    (home : Text) → In (home ++ (codes "/" ++ name)) (credential_files home)
Warrant s own (enter path) log = path ≡ own
Warrant s own _ log = Unit
