-- ===== src/Script/Bootstrap.antt =====
-- internal/truenasstore/bootstrap.go: the script from its settings to its exit.
use garm_provider_truenas.Base.{String, ℕ, Bool, [], ◌∷◌, ◌++◌, none, some, if◌then◌else◌, is_empty}
use garm_provider_truenas.Base.Text.{Text, codes}
use garm_provider_truenas.Base.Dict.{Dict, erase}
use garm_provider_truenas.Script.Shell.{
  remove, remove_tree, make_dirs, extract, link, enter, is_executable, is_file, sleep, contents,
  start, terminate, is_alive, wait, Prog, ret, exits, ask, ◌>>=◌, ◌>>◌, unless_signalled, test,
  must, ignore, read, and_also, exit_unless,
}
use garm_provider_truenas.Script.Words.{os_value, agent_id}
use garm_provider_truenas.Script.Settings.{
  Settings, Dialect, read_settings, token_key, status_url_of, callback_base_of,
}
use garm_provider_truenas.Script.Steps.{
  post_json, post_status, fetch_metadata, download_runner, prestaged_runner_matches, trapping,
  leave,
}

-- `p || exit status`.
abbrev pub or_exit : Prog Bool → ℕ → Prog (Unit {0})
or_exit p status = p >>= λ b. exit_unless b status

-- `post_status failed message || true; exit status`.
unfoldable pub report : Settings → String → ℕ → Prog (Unit {0})
report s message status = do post_status s "failed" message; exits status

-- `p || { post_status failed message || true; exit status; }`.
unfoldable pub or_report : Settings → Prog Bool → String → ℕ → Prog (Unit {0})
or_report s p message status = p >>= λ b. if b then ret tt else report s message status

-- The two branches that provide the runner's files.
unfoldable pub reuse_runner : Settings → Prog (Unit {0})
reuse_runner s = do
  or_exit (post_status s "installing" "using image-resident runner payload") 20
  must (make_dirs (s.jit_dir ∷ []))

unfoldable pub install_runner : Settings → Prog (Unit {0})
install_runner s = do
  or_exit (post_status s "installing" "downloading verified runner payload") 20
  or_report s (download_runner s) "failed to download or verify runner payload" 21
  must (remove_tree s.runner_home)
  must (make_dirs (s.runner_home ∷ s.jit_dir ∷ []))
  or_report s (test (extract s.runner_archive s.runner_home)) "failed to extract runner payload" 22
  must (remove (s.runner_archive ∷ []))

unfoldable pub check_runner : Settings → Text → Prog (Unit {0})
unfolding codes
check_runner s home = do
  or_report s
      (and_also (test (is_executable (home ++ codes "/run.sh")))
        (test (is_executable (home ++ codes "/bin/Runner.Listener"))))
      "verified runner payload is incomplete" 23
  or_report s (test (is_executable (home ++ codes "/externals/node24/bin/node")))
      "verified runner payload lacks the required node24 action runtime" 24
  must (enter home)

unfoldable pub fetch_credentials : Settings → Prog (Unit {0})
unfolding codes
fetch_credentials s = do
  or_exit (post_status s "installing" "fetching JIT runner metadata") 25
  or_report s (fetch_metadata s (codes "credentials/runner") (s.jit_dir ++ codes "/.runner"))
      "failed to fetch runner metadata" 26
  or_report s
      (fetch_metadata s (codes "credentials/credentials") (s.jit_dir ++ codes "/.credentials"))
      "failed to fetch runner credentials" 27
  or_report s
      (fetch_metadata s (codes "credentials/credentials_rsaparams")
        (s.jit_dir ++ codes "/.credentials_rsaparams"))
      "failed to fetch runner RSA parameters" 28
  must (link (s.jit_dir ++ codes "/.runner") (codes ".runner"))
  must (link (s.jit_dir ++ codes "/.credentials") (codes ".credentials"))
  must (link (s.jit_dir ++ codes "/.credentials_rsaparams") (codes ".credentials_rsaparams"))

-- `env -u GARM_INSTANCE_TOKEN ./run.sh &` and `runner_pid=$!`.
unfoldable pub start_runner : Settings → Prog Text
unfolding erase codes
start_runner s = read (start (erase token_key s.environment) (codes "./run.sh"))

-- From the choice of the payload to the start of the runner, whose process ID it returns.
unfoldable pub prepare_runner : Settings → Bool → Text → Prog Text
prepare_runner s matched home = do
  if matched then reuse_runner s else install_runner s
  check_runner s home
  fetch_credentials s
  start_runner s

unfoldable pub check_started : Settings → Text → Prog (Unit {0})
check_started s pid = do
  must (sleep s.ready_delay)
  alive ← test (is_alive pid)
  if alive then ret tt else (do ignore (wait pid); report s "runner exited during bootstrap" 29)

-- `os_name` and `os_version`, with the text that the payload holds between them.
unfoldable pub read_release : Prog Text
unfolding os_value codes
read_release = do
  found ← test (is_file (codes "/etc/os-release"))
  if found
      then (do
        named ← read (contents (codes "/etc/os-release"))
        versioned ← read (contents (codes "/etc/os-release"))
        ret (
            os_value (codes "NAME=") named
            ++ (codes "\",\"os_version\":\"" ++ os_value (codes "VERSION_ID=") versioned)))
      else ret (codes "\",\"os_version\":\"")

-- `agent_id`, or `null`.
abbrev pub json_id : Text → Text
json_id id = if is_empty id then codes "null" else id

unfoldable pub system_payload : Text → Text → Text
unfolding codes
system_payload release id =
    codes "{\"os_name\":\"" ++ (release ++ (codes "\",\"agent_id\":" ++ (json_id id ++ codes "}")))

unfoldable pub ready_payload : Settings → Text → Text
unfolding codes
ready_payload s id =
    codes "{\"status\":\"idle\",\"message\":\""
    ++ (s.started_message ++ (codes "\",\"agent_id\":" ++ (json_id id ++ codes "}")))

-- `p || { kill; wait; exit status; }`.
unfoldable pub or_kill : Text → Prog Bool → ℕ → Prog (Unit {0})
or_kill pid p status =
    p >>= λ b. if b then ret tt else (do ignore (terminate pid); ignore (wait pid); exits status)

unfoldable pub announce_runner : Settings → Text → Prog (Unit {0})
unfolding agent_id status_url_of callback_base_of codes
announce_runner s pid = do
  release ← read_release
  config ← read (contents (codes ".runner"))
  or_kill pid
      (post_json s (callback_base_of s.callback_url ++ codes "/system-info/")
        (system_payload release (agent_id config)))
      30
  or_kill pid (post_json s (status_url_of s.callback_url) (ready_payload s (agent_id config))) 31

-- From the start of the runner to `exit "$runner_rc"`.
unfoldable pub attend_runner : Settings → Text → Prog (Unit {0})
attend_runner s pid = do
  check_started s pid
  announce_runner s pid
  ask (wait pid) (unless_signalled λ status output. exits status)

-- The value of RUNNER_HOME after the choice.
abbrev pub home_of : Settings → Bool → Text
home_of s matched = if matched then s.prestaged_runner_home else s.runner_home

-- Everything after the traps are set.
unfoldable pub run_bootstrap : Settings → Prog (Unit {0})
run_bootstrap s = trapping s s.runner_home [] (prestaged_runner_matches s) λ matched.
    trapping s (home_of s matched) [] (prepare_runner s matched (home_of s matched)) λ pid.
      trapping s (home_of s matched) pid (attend_runner s pid) λ _. leave s (home_of s matched) 0

unfoldable pub bootstrap : Dialect → Text → Dict Text → Prog (Unit {0})
bootstrap dialect started env = elim (read_settings dialect started env) [
  | none ↦ exits dialect.unset_status
  | some s ↦ run_bootstrap s
]
