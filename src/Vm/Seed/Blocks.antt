-- ===== src/Vm/Seed/Blocks.antt =====
-- internal/vmbackend/manager.go: the files of the cloud configuration, as blocks of lines.
use mathlib.Core.List.{append-nil}
use garm_provider_truenas.Base.{
  ℕ, ◌≡◌, refl, ap, ◌∙◌, false, List, [], ◌∷◌, ◌++◌, append_assoc, arith, is_empty, ok, In, inl,
  inr,
}
use garm_provider_truenas.Base.Text.{
  Text, codes, has_prefix, replace_from, replace_all, cut_suffix_char, contains_char,
}
use garm_provider_truenas.Base.FilePath.{split, push_char}
use garm_provider_truenas.Provider.{
  Bootstrap, runner_tool_url, runner_tool_filename, runner_tool_sha256,
}
use garm_provider_truenas.Vm.Seed.{
  newline, block_lines, cloud_config_file, bootstrap_env, env_line, validate_bootstrap, breaks_line,
}
use garm_provider_truenas.Vm.Seed.Launched.{IsSound-of_valid, entry, file_lines-bootstrap_env}
use garm_provider_truenas.Script.Launcher.{file_lines}

-- Each line after six spaces, and with a line feed.
unfoldable pub indented : List Text → Text
unfolding codes
indented [] = []
indented (part ∷ parts) = codes "      " ++ (part ++ (10 ∷ indented parts))

abbrev after_first : List Text → Text
after_first [] = 10 ∷ []
after_first (part ∷ parts) = part ++ (10 ∷ indented parts)

push-after_first :
    (c : ℕ) (parts : List Text) → after_first (push_char c parts) ≡ c ∷ after_first parts
unfolding indented
push-after_first c [] = refl
push-after_first c (part ∷ parts) = refl

after_first-indented :
    (parts : List Text)
    → is_empty parts ≡ false
    → codes "      " ++ after_first parts ≡ indented parts
unfolding indented codes
after_first-indented [] h = cc
after_first-indented (part ∷ parts) h = refl

push-full : (c : ℕ) (parts : List Text) → is_empty (push_char c parts) ≡ false
push-full c [] = refl
push-full c (part ∷ parts) = refl

split-full : (t : Text) → is_empty (split 10 t) ≡ false
unfolding split
split-full [] = refl
split-full (c ∷ t) = ground (arith, push-full c (split 10 t))

split-indented : (t : Text) → codes "      " ++ after_first (split 10 t) ≡ indented (split 10 t)
split-indented t = after_first-indented (split 10 t) (split-full t)

replace_from-indented :
    (t : Text)
    → replace_from 0 newline (newline ++ codes "      ") t ++ newline ≡ after_first (split 10 t)
unfolding replace_from has_prefix split indented codes
replace_from-indented [] = refl
replace_from-indented (c ∷ t) =
    ground (arith, replace_from-indented t, push-after_first c (split 10 t), split-indented t)

block_lines-indented : (t : Text) → is_empty t ≡ false → block_lines t ≡ indented (split 10 t)
unfolding block_lines replace_all
block_lines-indented t h =
    rw h (ap (λ u. codes "      " ++ u) (replace_from-indented t) ∙ split-indented t)

split-cut_suffix_char :
    (t : Text) → is_empty t ≡ false → split 10 (cut_suffix_char 10 t) ≡ file_lines t
unfolding split cut_suffix_char file_lines
split-cut_suffix_char [] h = cc
split-cut_suffix_char (c ∷ []) h = ground arith
split-cut_suffix_char (c ∷ d ∷ t) h = ground (arith, split-cut_suffix_char (d ∷ t) refl)

cloud_config_file-block :
    (path permissions owner content : Text)
    → cloud_config_file path permissions owner content
      ≡ cloud_config_file path permissions owner [] ++ block_lines (cut_suffix_char 10 content)
unfolding cloud_config_file cut_suffix_char
cloud_config_file-block path permissions owner content = simp (append_assoc, append-nil)

env_full : (input : Bootstrap) → is_empty (cut_suffix_char 10 (bootstrap_env input)) ≡ false
unfolding bootstrap_env env_line codes cut_suffix_char
env_full input = refl

started_full : (input : Bootstrap) → is_empty (bootstrap_env input) ≡ false
unfolding bootstrap_env env_line codes
started_full input = refl

-- No carriage return, line feed or NUL.
abbrev pub IsPlain : Text → Type 0
IsPlain t = (In 13 t → ⊥) × (In 10 t → ⊥) × (In 0 t → ⊥)

contains_char-In : (c : ℕ) (t : Text) → contains_char c t ≡ false → In c t → ⊥
unfolding contains_char
contains_char-In c [] h i = absurd i
contains_char-In c (d ∷ t) h (inl e) = ground (arith, e)
contains_char-In c (d ∷ t) h (inr i) = contains_char-In c t (ground arith) i

IsPlain-values :
    (input : Bootstrap)
    → validate_bootstrap input ≡ ok tt
    → IsPlain input.callback_url × IsPlain input.metadata_url × IsPlain input.token
unfolding validate_bootstrap breaks_line
IsPlain-values input valid =
    let plain : ((t : Text) → breaks_line t ≡ false → IsPlain t) = λ t h. (
      contains_char-In 13 t (ground arith),
      contains_char-In 10 t (ground arith),
      contains_char-In 0 t (ground arith),
    ) in
    (plain _ (ground arith), plain _ (ground arith), plain _ (ground arith))

-- In the cloud configuration of a bootstrap that the manager accepts, the block of the bootstrap file
-- consists of six lines, one for each variable, each indented by six spaces and ended by a line feed;
-- and no URL and no token in them holds a carriage return, a line feed or a NUL. The other characters
-- that a YAML reader may take for the end of a line (U+0085, U+2028, U+2029) are not looked for.
pub cloud_config_file-bootstrap_env :
    (path permissions owner : Text) (input : Bootstrap)
    → validate_bootstrap input ≡ ok tt
    → (cloud_config_file path permissions owner (bootstrap_env input)
        ≡ cloud_config_file path permissions owner []
          ++ indented (
              entry (codes "GARM_CALLBACK_URL") input.callback_url
              ∷ entry (codes "GARM_METADATA_URL") input.metadata_url
              ∷ entry (codes "GARM_INSTANCE_TOKEN") input.token
              ∷ entry (codes "GARM_RUNNER_DOWNLOAD_URL") runner_tool_url
              ∷ entry (codes "GARM_RUNNER_FILENAME") runner_tool_filename
              ∷ entry (codes "GARM_RUNNER_SHA256") runner_tool_sha256
              ∷ []))
      × IsPlain input.callback_url
      × IsPlain input.metadata_url
      × IsPlain input.token
cloud_config_file-bootstrap_env path permissions owner input valid =
    let plain = IsPlain-values input valid in
    let lines : (cloud_config_file path permissions owner (bootstrap_env input)
        ≡ cloud_config_file path permissions owner []
          ++ indented (
              entry (codes "GARM_CALLBACK_URL") input.callback_url
              ∷ entry (codes "GARM_METADATA_URL") input.metadata_url
              ∷ entry (codes "GARM_INSTANCE_TOKEN") input.token
              ∷ entry (codes "GARM_RUNNER_DOWNLOAD_URL") runner_tool_url
              ∷ entry (codes "GARM_RUNNER_FILENAME") runner_tool_filename
              ∷ entry (codes "GARM_RUNNER_SHA256") runner_tool_sha256
              ∷ [])) =
      cloud_config_file-block path permissions owner (bootstrap_env input)
      ∙ ap (λ u. cloud_config_file path permissions owner [] ++ u)
          (block_lines-indented _ (env_full input)
            ∙ ap indented (
                split-cut_suffix_char (bootstrap_env input) (started_full input)
                ∙ file_lines-bootstrap_env input (IsSound-of_valid input valid))) in
    (lines, plain.0, plain.1, plain.2)
