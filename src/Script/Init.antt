-- ===== src/Script/Init.antt =====
-- internal/containerbackend/bootstrap.go: `containerInitWrapper`, which starts the runner bootstrap
-- beside the container's own init.
use garm_provider_truenas.Base.{List, [], ◌∷◌, ◌==◌, trim_right}
use garm_provider_truenas.Base.Text.{Text, codes}
use garm_provider_truenas.Base.Dict.{Dict, insert, erase}
use garm_provider_truenas.Container.Plan.{bootstrap_token_path, bootstrap_runner_script_path}
use garm_provider_truenas.Script.Shell.{
  make_dirs, remove, write, contents, start, Prog, ret, ask, ◌>>=◌, ◌>>◌, unless_signalled,
  exit_unless, must, ignore,
}
use garm_provider_truenas.Script.Settings.{token_key}

-- `"$(command)"` drops the line feeds at the end.
unfoldable pub substituted : Text → Text
unfolding trim_right
substituted output = trim_right (λ c. c == 10) output

-- `x="$(cat file)"` under `set -e`.
unfoldable pub read_token : Text → Prog Text
unfolding substituted
read_token file =
    ask (contents file) (
      unless_signalled
        λ status output. exit_unless (status == 0) status >> ret (substituted output))

-- The variables that the wrapper unsets, in its order.
abbrev pub unset_keys : List Text
unset_keys =
    codes "GARM_CALLBACK_URL"
    ∷ codes "GARM_METADATA_URL"
    ∷ token_key
    ∷ codes "GARM_RUNNER_DOWNLOAD_URL"
    ∷ codes "GARM_RUNNER_FILENAME"
    ∷ codes "GARM_RUNNER_SHA256"
    ∷ codes "RUNNER_ALLOW_RUNASROOT"
    ∷ []

unfoldable pub unset_all : List Text → Dict Text → Dict Text
unfolding erase
unset_all [] env = env
unset_all (key ∷ keys) env = unset_all keys (erase key env)

-- The wrapper, in the environment that the container gives it; it returns the environment in which
-- it executes `/sbin/init`. From `export` on the token is in it. The child of `( ... ) &` writes its own marker before it executes the
-- bootstrap. A `\\n` in the script's text is a backslash and an `n` in what `printf` writes.
unfoldable pub init_wrapper : Dict Text → Prog (Dict Text)
unfolding insert codes
init_wrapper env = do
  must (make_dirs (codes "/var/lib/garm-container" ∷ []))
  must (write (codes "init-wrapper-v1\\n") (codes "/var/lib/garm-container/init-wrapper-executed"))
  token ← read_token bootstrap_token_path
  must (remove (bootstrap_token_path ∷ []))
  let exported = insert token_key token env
  ignore (start exported bootstrap_runner_script_path)
  ret (unset_all unset_keys exported)
