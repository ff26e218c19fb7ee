-- ===== src/Vm/Seed/Launched.antt =====
-- internal/vmbackend/manager.go: the file that `seedFor` writes, as `vmBootstrapLauncher` reads it.
use garm_provider_truenas.Base.{
  ℕ, ◌≡◌, refl, ap, ◌∙◌, Bool, true, false, not, List, [], ◌∷◌, ◌++◌, append_assoc, arith,
  if◌then◌else◌, is_empty, ok,
}
use garm_provider_truenas.Base.Text.{Text, codes, contains_char, is_blank, trim_space}
use garm_provider_truenas.Base.Dict.{Dict}
use garm_provider_truenas.Kit.{Kit}
use garm_provider_truenas.Provider.{
  Bootstrap, runner_tool_url, runner_tool_filename, runner_tool_sha256,
}
use garm_provider_truenas.Vm.Seed.{
  validate_bootstrap, refuse_if, breaks_line, env_line, bootstrap_env, owned_name, seed_for,
}
use garm_provider_truenas.Vm.Seed.Markers.{AreBytes, marker-good}
use garm_provider_truenas.Script.Shell.{
  remove, write, is_file, install_dir, Prog, ret, exits, ◌>>=◌, ◌>>◌, test, must,
}
use garm_provider_truenas.Script.Launcher.{
  Variables, no_variables, reads, file_lines, read_lines, launch, hand_over, lacks_any,
  launch_environment,
}

-- A line feed ends a line that holds none.
file_lines-line :
    (t rest : Text) → contains_char 10 t ≡ false → file_lines (t ++ 10 ∷ rest) ≡ t ∷ file_lines rest
unfolding file_lines contains_char
file_lines-line [] rest h = refl
file_lines-line (c ∷ t) rest h = ground (arith, file_lines-line t rest)

abbrev pub entry : Text → Text → Text
entry key value = key ++ (codes "=" ++ value)

file_lines-env_line :
    (key value rest : Text) {lines : List Text}
    → contains_char 10 (entry key value) ≡ false
    → file_lines rest ≡ lines
    → file_lines (env_line key value ++ rest) ≡ entry key value ∷ lines
unfolding env_line
file_lines-env_line key value rest h e =
    ap file_lines (simp append_assoc)
    ∙ file_lines-line (entry key value) rest h
    ∙ ap (λ lines. entry key value ∷ lines) e

-- The variables that the launcher is to end with.
unfoldable pub variables_of : Bootstrap → Variables
variables_of input = record {
  callback_url = input.callback_url;
  metadata_url = input.metadata_url;
  instance_token = input.token;
  runner_download_url = runner_tool_url;
  runner_filename = runner_tool_filename;
  runner_sha256 = runner_tool_sha256;
}

-- What the bootstrap check of the manager leaves of the three values.
pub record IsSound (input : Bootstrap) : Type 0 where
  pub callback_line : contains_char 10 input.callback_url ≡ false
  pub metadata_line : contains_char 10 input.metadata_url ≡ false
  pub token_line : contains_char 10 input.token ≡ false
  pub callback_full : is_empty input.callback_url ≡ false
  pub metadata_full : is_empty input.metadata_url ≡ false
  pub token_full : is_empty input.token ≡ false

refuse_if-ok : (b : Bool) {x : Unit {0}} → refuse_if b ≡ ok x → b ≡ false
refuse_if-ok true h = cc
refuse_if-ok false h = refl

blank-empty : (t : Text) → is_blank t ≡ false → is_empty t ≡ false
unfolding is_blank trim_space
blank-empty [] h = h
blank-empty (c ∷ t) h = refl

pub IsSound-of_valid : (input : Bootstrap) → validate_bootstrap input ≡ ok tt → IsSound input
unfolding validate_bootstrap breaks_line
IsSound-of_valid input h = record {
  callback_line = ground arith;
  metadata_line = ground arith;
  token_line = ground arith;
  callback_full = blank-empty input.callback_url (ground arith);
  metadata_full = blank-empty input.metadata_url (ground arith);
  token_full = blank-empty input.token (ground arith);
}

-- The three lines that are the same for every runner.
file_lines-tool :
    file_lines (
      env_line (codes "GARM_RUNNER_DOWNLOAD_URL") runner_tool_url
      ++ (env_line (codes "GARM_RUNNER_FILENAME") runner_tool_filename
          ++ env_line (codes "GARM_RUNNER_SHA256") runner_tool_sha256))
    ≡ entry (codes "GARM_RUNNER_DOWNLOAD_URL") runner_tool_url
      ∷ entry (codes "GARM_RUNNER_FILENAME") runner_tool_filename
      ∷ entry (codes "GARM_RUNNER_SHA256") runner_tool_sha256
      ∷ []
unfolding file_lines env_line codes
file_lines-tool = refl

pub file_lines-bootstrap_env :
    (input : Bootstrap)
    → IsSound input
    → file_lines (bootstrap_env input)
      ≡ entry (codes "GARM_CALLBACK_URL") input.callback_url
        ∷ entry (codes "GARM_METADATA_URL") input.metadata_url
        ∷ entry (codes "GARM_INSTANCE_TOKEN") input.token
        ∷ entry (codes "GARM_RUNNER_DOWNLOAD_URL") runner_tool_url
        ∷ entry (codes "GARM_RUNNER_FILENAME") runner_tool_filename
        ∷ entry (codes "GARM_RUNNER_SHA256") runner_tool_sha256
        ∷ []
unfolding bootstrap_env codes contains_char
file_lines-bootstrap_env input sound =
    file_lines-env_line (codes "GARM_CALLBACK_URL") input.callback_url _ sound.callback_line (
      file_lines-env_line (codes "GARM_METADATA_URL") input.metadata_url _ sound.metadata_line (
        file_lines-env_line (codes "GARM_INSTANCE_TOKEN") input.token _ sound.token_line
          file_lines-tool))

read_lines-bootstrap_env :
    (input : Bootstrap)
    → IsSound input
    → read_lines (file_lines (bootstrap_env input)) no_variables ≡ reads (variables_of input)
unfolding read_lines variables_of codes
read_lines-bootstrap_env input sound = rw (file_lines-bootstrap_env input sound) refl

lacks_any-variables_of :
    (input : Bootstrap) → IsSound input → lacks_any (variables_of input) ≡ false
unfolding lacks_any variables_of codes
lacks_any-variables_of input sound =
    ground (arith, sound.callback_full, sound.metadata_full, sound.token_full)

-- A launcher that finds nothing to refuse: it removes its file, writes the marker to the console,
-- makes the two directories, and goes on with six values.
unfoldable pub launch_with : Text → Text → Variables → Prog (Dict Text)
unfolding codes
launch_with env_file marker v = test (is_file env_file) >>= λ found.
    if not found then exits 40 else (do
      must (remove (env_file ∷ []))
      must (write (marker ++ (10 ∷ [])) (codes "/dev/console"))
      must (install_dir (codes "0750") (codes "garm-runner") (codes "/home/garm-runner"))
      must (install_dir (codes "0700") (codes "garm-runner") (codes "/run/garm-jit"))
      ret (launch_environment v))

hand_over-variables_of :
    (n : ℕ) (env_file marker : Text) (v : Variables)
    → lacks_any v ≡ false
    → hand_over n env_file marker v ≡ (do
      must (remove (env_file ∷ []))
      must (write (marker ++ (10 ∷ [])) (codes "/dev/console"))
      must (install_dir (codes "0750") (codes "garm-runner") (codes "/home/garm-runner"))
      must (install_dir (codes "0700") (codes "garm-runner") (codes "/run/garm-jit"))
      ret (launch_environment v))
unfolding hand_over
hand_over-variables_of n env_file marker v h = rw h refl

-- For a bootstrap that the manager accepts, the launcher refuses nothing of the file and the marker
-- that the seed gives it: unless the file is not there, it removes the file before it does anything
-- else, and it goes on with exactly the six values of the bootstrap.
pub launch-seed_for :
    (kit : Kit) (input : Bootstrap) (controller_id env_file : Text) (unset_status : ℕ)
    → AreBytes kit.sha256
    → validate_bootstrap input ≡ ok tt
    → is_empty env_file ≡ false
    → launch unset_status env_file
        (seed_for kit input (owned_name kit.sha256 controller_id input.name)).consumption_marker
        (bootstrap_env input)
      ≡ launch_with env_file
          (seed_for kit input (owned_name kit.sha256 controller_id input.name)).consumption_marker
          (variables_of input)
unfolding launch launch_with seed_for
launch-seed_for kit input controller_id env_file unset_status bytes valid named =
    let sound = IsSound-of_valid input valid in
    rw
      (
        named,
        marker-good kit.sha256 bytes controller_id input.name,
        read_lines-bootstrap_env input sound,
        hand_over-variables_of unset_status env_file _ (variables_of input)
            (lacks_any-variables_of input sound),
      )
      refl
