-- ===== src/Script/Steps.antt =====
-- internal/truenasstore/bootstrap.go: the functions of the script.
use garm_provider_truenas.Base.{
  String, ℕ, zero, suc, Bool, true, false, List, [], ◌∷◌, ◌++◌, ◌==◌, if◌then◌else◌, is_empty,
}
use garm_provider_truenas.Base.Text.{Text, codes, text_eq}
use garm_provider_truenas.Script.Shell.{
  Command, post, fetch, download, checksum, remove, move, restrict, has_content, is_executable,
  is_writable, exists, is_link, sleep, listener_version, terminate, wait, Prog, ret, exits, trapped,
  ask, ◌>>=◌, ◌>>◌, unless_signalled, test, ignore, and_also, negated,
}
use garm_provider_truenas.Script.Words.{expected_version, first_line}
use garm_provider_truenas.Script.Settings.{Settings, status_url_of, metadata_base_of}

-- The files that hold a runner's credentials, below a directory.
abbrev pub credential_files : Text → List Text
credential_files home =
    (home ++ codes "/.runner")
    ∷ (home ++ codes "/.credentials")
    ∷ (home ++ codes "/.credentials_rsaparams")
    ∷ []

abbrev pub temporary : Text → Text
temporary path = path ++ codes ".tmp"

-- The files that the script writes on the way.
unfoldable pub staged_paths : Settings → List Text
unfolding codes
staged_paths s =
    credential_files s.jit_dir
    ++ (temporary (s.jit_dir ++ codes "/.runner")
        ∷ temporary (s.jit_dir ++ codes "/.credentials")
        ∷ temporary (s.jit_dir ++ codes "/.credentials_rsaparams")
        ∷ s.runner_archive
        ∷ temporary s.runner_archive
        ∷ [])

-- What `cleanup_credentials` removes, for the value of RUNNER_HOME at that time.
unfoldable pub credential_paths : Settings → Text → List Text
unfolding staged_paths codes
credential_paths s home = credential_files home ++ staged_paths s

-- A command of a trap, which goes on whatever it answers. A second signal while a trap runs is not
-- followed further.
abbrev pub in_trap : Command → Prog (Unit {0})
in_trap c = ask c (λ r. ret tt)

unfoldable pub cleanup_credentials : Settings → Text → Prog (Unit {0})
unfolding credential_paths
cleanup_credentials s home = in_trap (remove (credential_paths s home))

-- `terminate_runner`, up to its `exit 143`. The pid is empty while no runner is known.
unfoldable pub terminate_runner : Text → Prog (Unit {0})
terminate_runner pid =
    if is_empty pid then ret tt else (do in_trap (terminate pid); in_trap (wait pid))

-- `exit status`, with the EXIT trap.
unfoldable pub leave : {A : Type 0} → Settings → Text → ℕ → Prog A
leave s home status = cleanup_credentials s home >> exits status

unfoldable pub leave_trapped : {A : Type 0} → Settings → Text → Text → Prog A
leave_trapped s home pid = terminate_runner pid >> leave s home 143

-- The traps, for a part of the script in which RUNNER_HOME and runner_pid have these values.
unfoldable pub trapping : {A B : Type 0} → Settings → Text → Text → Prog A → (A → Prog B) → Prog B
trapping s home pid (ret a) f = f a
trapping s home pid (exits status) f = leave s home status
trapping s home pid trapped f = leave_trapped s home pid
trapping s home pid (ask c k) f = ask c (λ r. trapping s home pid (k r) f)

-- `if [ "$attempt" -lt "$MAX_ATTEMPTS" ]; then sleep "$RETRY_DELAY"; fi`, with the attempts left.
abbrev pub pause : Settings → ℕ → Prog (Unit {0})
pause s zero = ret tt
pause s (suc left) = ignore (sleep s.retry_delay)

-- The loops count the attempts that are left.
unfoldable pub post_attempts : Settings → Text → Text → ℕ → Prog Bool
post_attempts s url payload zero = ret false
post_attempts s url payload (suc left) =
    let again = (do pause s left; post_attempts s url payload left) in
    do sent ← test (post s.token url payload); if sent then ret true else again

unfoldable pub post_json : Settings → Text → Text → Prog Bool
post_json s url payload = post_attempts s url payload s.max_attempts

abbrev pub status_payload : String → String → Text
status_payload status message =
    codes "{\"status\":\""
    ++ (codes status ++ (codes "\",\"message\":\"" ++ (codes message ++ codes "\"}")))

unfoldable pub post_status : Settings → String → String → Prog Bool
unfolding status_url_of codes
post_status s status message =
    post_json s (status_url_of s.callback_url) (status_payload status message)

-- The commands of one round after `curl`: a file with content is moved into place.
unfoldable pub keep_fetched : Text → Text → Prog Bool
keep_fetched tmp destination = do
  full ← test (has_content tmp)
  if full
      then (do ignore (move tmp destination); ignore (restrict destination); ret true)
      else ret false

unfoldable pub fetch_attempts : Settings → Text → Text → ℕ → Prog Bool
fetch_attempts s url destination zero = ret false
fetch_attempts s url destination (suc left) =
    let tmp = temporary destination in
    let again = (do
      ignore (remove (tmp ∷ []))
      pause s left
      fetch_attempts s url destination left) in
    do
      kept ← and_also (test (fetch s.token url tmp)) (keep_fetched tmp destination)
      if kept then ret true else again

unfoldable pub fetch_metadata : Settings → Text → Text → Prog Bool
unfolding metadata_base_of codes
fetch_metadata s path destination = do
  ignore (remove (temporary destination ∷ []))
  fetch_attempts s (metadata_base_of s.metadata_url ++ (codes "/" ++ path)) destination
      s.max_attempts

unfoldable pub download_attempts : Settings → ℕ → Prog Bool
download_attempts s zero = ret false
download_attempts s (suc left) =
    let tmp = temporary s.runner_archive in
    let again = (do ignore (remove (tmp ∷ [])); pause s left; download_attempts s left) in
    do
      verified ← and_also (test (download s.download_url tmp)) (test (checksum s.sha256 tmp))
      if verified then (do ignore (move tmp s.runner_archive); ret true) else again

unfoldable pub download_runner : Settings → Prog Bool
download_runner s = do
  ignore (remove (temporary s.runner_archive ∷ s.runner_archive ∷ []))
  download_attempts s s.max_attempts

-- `[ ! -e file ] && [ ! -L file ]`.
abbrev pub absent : Text → Prog Bool
absent file = and_also (negated (test (exists file))) (negated (test (is_link file)))

-- The version that the listener reports is the expected one.
unfoldable pub version_matches : Settings → Text → Text → Prog Bool
unfolding first_line text_eq codes
version_matches s home expected =
    ask (listener_version s.environment (home ++ codes "/bin/Runner.Listener")) (
      unless_signalled λ status output.
        if status == 0 then ret (text_eq (first_line output) expected) else ret false)

unfoldable pub prestaged_runner_matches : Settings → Prog Bool
unfolding expected_version codes
prestaged_runner_matches s =
    let home = s.prestaged_runner_home in
    let expected = expected_version s.filename in
    if is_empty home
    then ret false
    else (if is_empty expected
        then ret false
        else and_also (test (is_executable (home ++ codes "/run.sh"))) (
            and_also (test (is_executable (home ++ codes "/bin/Runner.Listener"))) (
              and_also (test (is_executable (home ++ codes "/externals/node24/bin/node"))) (
                and_also (test (is_writable home)) (
                  and_also (absent (home ++ codes "/.runner")) (
                    and_also (absent (home ++ codes "/.credentials")) (
                      and_also (absent (home ++ codes "/.credentials_rsaparams"))
                        (version_matches s home expected))))))))
