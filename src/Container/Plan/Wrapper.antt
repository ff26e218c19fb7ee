-- ===== src/Container/Plan/Wrapper.antt =====
-- internal/containerbackend/bootstrap.go and internal/truenasstore/bootstrap.go: what the init wrapper
-- of a container hands to the runner bootstrap and to the container's init.
use garm_provider_truenas.Base.{
  ◌≡◌, refl, true, false, List, [], ◌∷◌, none, some, ◌⊎◌, In, inl, inr, arith, ◌==◌, is_empty, trim,
  trim_left, trim_right, ok,
}
use garm_provider_truenas.Base.Text.{
  Text, codes, text_eq, text_eq_refl, is_blank, is_space, trim_space,
}
use garm_provider_truenas.Base.Dict.{Dict, lookup, insert, erase, lookup-erase}
use garm_provider_truenas.Provider.{
  Bootstrap, runner_tool_url, runner_tool_filename, runner_tool_sha256,
}
use garm_provider_truenas.Container.Plan.{
  bootstrap_env, initial_env, validate_bootstrap, bootstrap_token_path,
  bootstrap_runner_script_path,
}
use garm_provider_truenas.Script.Init.{substituted, read_token, unset_keys, unset_all, init_wrapper}
use garm_provider_truenas.Script.Shell.{
  Command, Reply, replied, signalled, contents, remove, start, ret, unless_signalled, exit_unless,
  ◌>>◌,
}
use garm_provider_truenas.Script.Words.{expected_version}
use garm_provider_truenas.Script.Settings.{
  Dialect, Settings, read_settings, with_defaults, token_key,
}
use garm_provider_truenas.Script.Settings.Given.{IsGiven, required-some, read_settings_given}
use garm_provider_truenas.Script.Runs.{
  Log, Shell, Did, Lasts, IsWarranted, run, run-IsWarranted, Returning, run-Returning, Holds,
  returns, asks, traps, Holds-bind, Holds-must, Holds-ignore, Holds-exit_unless,
}

stripped-left :
    (t : Text) → is_empty (trim_right (λ c. c == 10) t) ≡ true → trim_left is_space t ≡ []
unfolding trim_right trim_left is_space
stripped-left [] h = refl
stripped-left (c ∷ t) h = ground (arith, stripped-left t)

-- A text that is not blank keeps a character when the line feeds at its end are dropped.
substituted_full : (t : Text) → is_blank t ≡ false → is_empty (substituted t) ≡ false
unfolding is_blank trim_space trim substituted trim_right
substituted_full t h = ground (arith, stripped-left t)

-- What the bootstrap of a container is to take from its environment, for what its token file holds.
pub record IsContainerSettings (input : Bootstrap) (held : Text) (s : Settings) : Type 0 where
  pub callback_url_is : s.callback_url ≡ input.callback_url
  pub metadata_url_is : s.metadata_url ≡ input.metadata_url
  pub token_is : s.token ≡ substituted held
  pub download_url_is : s.download_url ≡ runner_tool_url
  pub sha256_is : s.sha256 ≡ runner_tool_sha256
  pub version_is : expected_version s.filename ≡ codes "2.337.0"

url_full :
    (input : Bootstrap)
    → validate_bootstrap input ≡ ok tt
    → (is_blank input.callback_url ≡ false) × (is_blank input.metadata_url ≡ false)
unfolding validate_bootstrap
url_full input h = (ground arith, ground arith)

blank-empty : (t : Text) → is_blank t ≡ false → is_empty t ≡ false
unfolding is_blank trim_space
blank-empty [] h = h
blank-empty (c ∷ t) h = refl

IsGiven-wrapped :
    (input : Bootstrap) (held : Text)
    → validate_bootstrap input ≡ ok tt
    → is_blank held ≡ false
    → IsGiven
        (insert token_key (substituted held) (initial_env input))
        input.callback_url
        input.metadata_url
        (substituted held)
        runner_tool_url
        runner_tool_filename
        runner_tool_sha256
unfolding initial_env bootstrap_env insert erase codes lookup text_eq
IsGiven-wrapped input held valid full =
    let urls = url_full input valid in
    record {
      callback_set = required-some _ _ input.callback_url refl (blank-empty _ urls.0);
      metadata_set = required-some _ _ input.metadata_url refl (blank-empty _ urls.1);
      token_set = required-some _ _ (substituted held) refl (substituted_full held full);
      url_set = required-some _ _ runner_tool_url refl refl;
      filename_set = required-some _ _ runner_tool_filename refl refl;
      sha256_set = required-some _ _ runner_tool_sha256 refl refl;
    }

read_settings-wrapped :
    (dialect : Dialect) (started : Text) (input : Bootstrap) (held : Text)
    → validate_bootstrap input ≡ ok tt
    → is_blank held ≡ false
    → (s : Settings) × (read_settings dialect started
          (insert token_key (substituted held) (initial_env input))
        ≡ some s)
      × IsContainerSettings input held s
unfolding with_defaults codes expected_version
read_settings-wrapped dialect started input held valid full = (
  _,
  read_settings_given dialect started (IsGiven-wrapped input held valid full),
  record {
    callback_url_is = refl;
    metadata_url_is = refl;
    token_is = refl;
    download_url_is = refl;
    sha256_is = refl;
    version_is = refl;
  },
)

-- What must have happened before the wrapper starts a program: the token file was read and removed,
-- and from the program's environment the runner bootstrap takes its settings.
abbrev pub Handed : Dialect → Text → Bootstrap → Command → Log → Type 0
Handed dialect started input (start env program) log =
    (program ≡ bootstrap_runner_script_path)
    × Did (remove (bootstrap_token_path ∷ [])) log
    × ((held : Text) × In (contents bootstrap_token_path, replied 0 held) log
        × (is_blank held ≡ false
            → (s : Settings) × (read_settings dialect started env ≡ some s)
              × IsContainerSettings input held s))
Handed dialect started input _ log = Unit

-- No variable of the bootstrap is left.
abbrev pub IsStripped : Dict Text → Type 0
IsStripped env =
    (lookup (codes "GARM_INSTANCE_TOKEN") env ≡ none)
    × (lookup (codes "GARM_CALLBACK_URL") env ≡ none)
    × (lookup (codes "GARM_METADATA_URL") env ≡ none)
    × (lookup (codes "GARM_RUNNER_DOWNLOAD_URL") env ≡ none)
    × (lookup (codes "GARM_RUNNER_FILENAME") env ≡ none)
    × (lookup (codes "GARM_RUNNER_SHA256") env ≡ none)
    × (lookup (codes "RUNNER_ALLOW_RUNASROOT") env ≡ none)

unset_all_lem :
    (key : Text) (keys : List Text) (env : Dict Text)
    → In key keys ⊎ (lookup key env ≡ none)
    → lookup key (unset_all keys env) ≡ none
unfolding unset_all
unset_all_lem key [] env (inl h) = absurd h
unset_all_lem key [] env (inr h) = h
unset_all_lem key (k ∷ keys) env (inl (inl e)) =
    unset_all_lem key keys (erase k env)
      (inr (rw (lookup-erase k key env) (rw e (rw (text_eq_refl key) refl))))
unset_all_lem key (k ∷ keys) env (inl (inr h)) = unset_all_lem key keys (erase k env) (inl h)
unset_all_lem key (k ∷ keys) env (inr h) =
    unset_all_lem key keys (erase k env) (inr (ground (arith, lookup-erase k key env)))

unset_all-IsStripped : (env : Dict Text) → IsStripped (unset_all unset_keys env)
unset_all-IsStripped env =
    let gone : ((key : Text) → In key unset_keys → lookup key (unset_all unset_keys env) ≡ none) =
      λ key h. unset_all_lem key unset_keys env (inl h) in
    (
      gone _ (inr (inr (inl refl))),
      gone _ (inl refl),
      gone _ (inr (inl refl)),
      gone _ (inr (inr (inr (inl refl)))),
      gone _ (inr (inr (inr (inr (inl refl))))),
      gone _ (inr (inr (inr (inr (inr (inl refl)))))),
      gone _ (inr (inr (inr (inr (inr (inr (inl refl))))))),
    )

module _ (dialect : Dialect) (started : Text) (input : Bootstrap)
    (valid : validate_bootstrap input ≡ ok tt) where
  abbrev Held : Text → Log → Type 0
  Held token log =
      (held : Text) × In (contents bootstrap_token_path, replied 0 held) log
      × (token ≡ substituted held)

  Lasts-Held : (token : Text) → Lasts (Held token)
  Lasts-Held token x log h = (h.0, inr h.1, h.2)

  Holds-read_token :
      {log : Log} → Holds (Handed dialect started input) Held (read_token bootstrap_token_path) log
  unfolding read_token
  Holds-read_token {log} = asks tt answered
    where
      answered :
          (r : Reply)
          → Holds
              (Handed dialect started input)
              Held
              (unless_signalled
                (λ status output. exit_unless (status == 0) status >> ret (substituted output))
                r)
              ((contents bootstrap_token_path, r) ∷ log)
      answered (replied status output) =
          Holds-bind {Q = λ _ l. Held (substituted output) l}
            (Holds-exit_unless (status == 0) status (λ h. (output, inl (ground arith), refl)))
            (λ _ _ h. returns h)
      answered signalled = traps

  Holds-init_wrapper :
      {log : Log}
      → Holds
          (Handed dialect started input)
          (λ env _. IsStripped env)
          (init_wrapper (initial_env input))
          log
  unfolding init_wrapper
  Holds-init_wrapper =
      let any_log : Lasts (λ _. Unit {0}) = λ _ _ _. tt in
      Holds-bind (Holds-must any_log tt tt) λ _ _ _. Holds-bind (Holds-must any_log tt tt) λ _ _ _.
        Holds-bind Holds-read_token λ token _ h.
          Holds-bind (Holds-must (Lasts-Held token) tt h) λ _ _ k.
            Holds-bind
              (Holds-ignore any_log
                (
                  refl,
                  k.1,
                  (
                    k.0.0,
                    k.0.1,
                    λ full. rw k.0.2 (read_settings-wrapped dialect started input k.0.0 valid full),
                  ),
                )
                tt)
              λ _ _ _. returns (unset_all-IsStripped (insert token_key token (initial_env input)))

  -- For a bootstrap that the manager accepts and whatever the commands answer: the wrapper starts
  -- nothing but the runner bootstrap, after the token file was read and removed; if that file was not
  -- blank, the bootstrap finds its settings, with the URLs of the request, the token of the file and
  -- the pinned archive; and where the wrapper goes on to the container's init, no URL, token, file
  -- name or digest of the bootstrap is in its environment any more, nor RUNNER_ALLOW_RUNASROOT.
  pub init_wrapper-Handed :
      (shell : Shell)
      → IsWarranted
          (Handed dialect started input)
          (run shell (init_wrapper (initial_env input)) []).1
        × Returning IsStripped (run shell (init_wrapper (initial_env input)) []).0
  init_wrapper-Handed shell =
      (run-IsWarranted shell Holds-init_wrapper tt, run-Returning shell Holds-init_wrapper)
