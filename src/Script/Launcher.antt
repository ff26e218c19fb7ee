-- ===== src/Script/Launcher.antt =====
-- internal/vmbackend/manager.go: `vmBootstrapLauncher`, which reads the file that the seed leaves and
-- starts the runner bootstrap with what it holds.
use garm_provider_truenas.Base.{
  ℕ, Bool, not, ◌&&◌, ◌||◌, List, [], ◌∷◌, ◌++◌, Option, none, some, leb, ◌==◌, if◌then◌else◌,
  is_empty, any,
}
use garm_provider_truenas.Base.Text.{Text, codes, text_eq}
use garm_provider_truenas.Base.Dict.{Dict}
use garm_provider_truenas.Base.FilePath.{push_char}
use garm_provider_truenas.Script.Shell.{
  remove, write, is_file, install_dir, Prog, ret, exits, ◌>>=◌, ◌>>◌, test, must,
}

-- The shell variables that the launcher fills.
pub record Variables : Type 0 where
  pub callback_url : Text
  pub metadata_url : Text
  pub instance_token : Text
  pub runner_download_url : Text
  pub runner_filename : Text
  pub runner_sha256 : Text

abbrev pub no_variables : Variables
no_variables = record {
  callback_url = [];
  metadata_url = [];
  instance_token = [];
  runner_download_url = [];
  runner_filename = [];
  runner_sha256 = [];
}

-- The variables after a line, or the status with which the launcher exits there.
pub data Reading {ℓ} (A : Type ℓ) : Type ℓ where
  reads : A → Reading A
  fails : ℕ → Reading A

abbrev pub next_line : Reading Variables → (Variables → Reading Variables) → Reading Variables
next_line (reads v) f = f v
next_line (fails n) f = fails n

abbrev onto_key : ℕ → Option (Text × Text) → Option (Text × Text)
onto_key c none = none
onto_key c (some (key, value)) = some (c ∷ key, value)

-- `${line%%=*}` and `${line#*=}`, for a line that holds a `=`.
unfoldable pub cut_line : Text → Option (Text × Text)
cut_line [] = none
cut_line (c ∷ line) =
    let longer = onto_key c (cut_line line) in if c == b'=' then some ([], line) else longer

-- `[ -z "$variable" ] || exit 42; variable=$value`.
abbrev pub once : Text → Variables → Reading Variables
once old v = if is_empty old then reads v else fails 42

unfoldable pub assign : Text → Text → Variables → Reading Variables
unfolding codes text_eq
assign key value v =
    if text_eq key (codes "GARM_CALLBACK_URL")
    then once v.callback_url (record v { callback_url = value })
    else if text_eq key (codes "GARM_METADATA_URL")
    then once v.metadata_url (record v { metadata_url = value })
    else if text_eq key (codes "GARM_INSTANCE_TOKEN")
    then once v.instance_token (record v { instance_token = value })
    else if text_eq key (codes "GARM_RUNNER_DOWNLOAD_URL")
    then once v.runner_download_url (record v { runner_download_url = value })
    else if text_eq key (codes "GARM_RUNNER_FILENAME")
    then once v.runner_filename (record v { runner_filename = value })
    else if text_eq key (codes "GARM_RUNNER_SHA256")
    then once v.runner_sha256 (record v { runner_sha256 = value })
    else fails 43

unfoldable pub read_line : Text → Variables → Reading Variables
unfolding cut_line assign
read_line line v = elim (cut_line line) [ none ↦ fails 41 | some (key, value) ↦ assign key value v ]

-- The lines that `while IFS= read -r line || [ -n "$line" ]` sees. The file holds no NUL.
unfoldable pub file_lines : Text → List Text
file_lines [] = []
file_lines (c ∷ t) = let rest = file_lines t in if c == 10 then [] ∷ rest else push_char c rest

unfoldable pub read_lines : List Text → Variables → Reading Variables
unfolding read_line
read_lines [] v = reads v
read_lines (line ∷ lines) v = next_line (read_line line v) (read_lines lines)

-- `case "$consumption_marker" in *[!A-Za-z0-9_:]*)`.
unfoldable pub is_marker_char : ℕ → Bool
is_marker_char c =
    (leb b'A' c && leb c b'Z')
    || (leb b'a' c && leb c b'z')
    || (leb b'0' c && leb c b'9')
    || c == b'_'
    || c == b':'

unfoldable pub is_bad_marker : Text → Bool
unfolding is_marker_char
is_bad_marker marker = any (λ c. not (is_marker_char c)) marker

-- `: "${variable:?}"`, for all six.
unfoldable pub lacks_any : Variables → Bool
lacks_any v =
    is_empty v.callback_url
    || is_empty v.metadata_url
    || is_empty v.instance_token
    || is_empty v.runner_download_url
    || is_empty v.runner_filename
    || is_empty v.runner_sha256

-- What `/usr/bin/env` gives to the runner bootstrap, besides the launcher's own environment.
unfoldable pub launch_environment : Variables → Dict Text
unfolding codes
launch_environment v =
    (codes "GARM_CALLBACK_URL", v.callback_url)
    ∷ (codes "GARM_METADATA_URL", v.metadata_url)
    ∷ (codes "GARM_INSTANCE_TOKEN", v.instance_token)
    ∷ (codes "GARM_RUNNER_DOWNLOAD_URL", v.runner_download_url)
    ∷ (codes "GARM_RUNNER_FILENAME", v.runner_filename)
    ∷ (codes "GARM_RUNNER_SHA256", v.runner_sha256)
    ∷ (codes "GARM_BOOTSTRAP_RUNNER_HOME", codes "/home/garm-runner/actions-runner")
    ∷ (codes "GARM_BOOTSTRAP_JIT_DIR", codes "/run/garm-jit")
    ∷ (codes "GARM_BOOTSTRAP_RUNNER_ARCHIVE", codes "/home/garm-runner/" ++ v.runner_filename)
    ∷ []

-- What follows the loop, up to `exec`, with the status of a failed `${x:?}`.
unfoldable pub hand_over : ℕ → Text → Text → Variables → Prog (Dict Text)
unfolding lacks_any launch_environment codes
hand_over unset_status env_file marker v = do
  must (remove (env_file ∷ []))
  must (write (marker ++ (10 ∷ [])) (codes "/dev/console"))
  if lacks_any v then exits unset_status else (do
    must (install_dir (codes "0750") (codes "garm-runner") (codes "/home/garm-runner"))
    must (install_dir (codes "0700") (codes "garm-runner") (codes "/run/garm-jit"))
    ret (launch_environment v))

-- The launcher, with the content of its file; it returns the environment in which it executes
-- `garm-runner-bootstrap`.
unfoldable pub launch : ℕ → Text → Text → Text → Prog (Dict Text)
unfolding is_bad_marker file_lines read_lines hand_over
launch unset_status env_file marker content =
    if is_empty env_file || is_empty marker
    then exits unset_status
    else test (is_file env_file) >>= λ found.
        if not found
        then exits 40
        else if is_bad_marker marker
        then exits 44
        else elim (read_lines (file_lines content) no_variables) [
          | fails status ↦ exits status
          | reads v ↦ hand_over unset_status env_file marker v
        ]
