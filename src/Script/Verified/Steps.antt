-- ===== src/Script/Verified/Steps.antt =====
-- The functions of the script ask for warranted commands, whatever is known before them.
use garm_provider_truenas.Base.{ℕ, zero, suc, ◌≡◌, true, ◌++◌, In}
use garm_provider_truenas.Base.Text.{Text, codes}
use garm_provider_truenas.Script.Shell.{Command, post, fetch, has_content, test, and_also}
use garm_provider_truenas.Script.Settings.{Settings, metadata_base_of}
use garm_provider_truenas.Script.Steps.{
  pause, post_attempts, post_json, keep_fetched, fetch_attempts, fetch_metadata, temporary,
  staged_paths,
}
use garm_provider_truenas.Script.Runs.{
  Log, Did, Lasts, Lasts-and, Lasts-Did, Holds-weaken, Holds, returns, Holds-bind, Holds-test,
  Holds-ignore, Holds-if,
}
use garm_provider_truenas.Script.Verified

module _ (s : Settings) (own : Text) {E : Log → Type 0} (lasts : Lasts E) where
  pub Holds-pause :
      (left : ℕ) {log : Log}
      → E log
      → Holds (Verified.Warrant s own) (λ _ log'. E log') (pause s left) log
  Holds-pause zero e = returns e
  Holds-pause (suc left) e = Holds-ignore lasts tt e

  module _ (url payload : Text)
      (warrant : (log : Log) → E log → Verified.Warrant s own (post s.token url payload) log) where
    Holds-post_attempts :
        (left : ℕ) {log : Log}
        → E log
        → Holds (Verified.Warrant s own) (λ _ log'. E log') (post_attempts s url payload left) log
    unfolding post_attempts
    Holds-post_attempts zero e = returns e
    Holds-post_attempts (suc left) e = Holds-bind (Holds-test lasts (warrant _ e) e) λ sent log' h.
        Holds-if sent (λ _. returns h.0)
          (λ _. Holds-bind (Holds-pause left h.0) (λ _ _ k. Holds-post_attempts left k))

    pub Holds-post_json :
        {log : Log}
        → E log
        → Holds (Verified.Warrant s own) (λ _ log'. E log') (post_json s url payload) log
    unfolding post_json
    Holds-post_json e = Holds-post_attempts s.max_attempts e

module _ (s : Settings) (own : Text) {E : Log → Type 0} (lasts : Lasts E) where
  Holds-keep_fetched :
      (tmp destination : Text)
      → In destination (staged_paths s)
      → {log : Log} → E log
      → Holds
          (Verified.Warrant s own)
          (λ b log'. E log' × (b ≡ true → Did (has_content tmp) log'))
          (keep_fetched tmp destination)
          log
  unfolding keep_fetched
  Holds-keep_fetched tmp destination kept e =
      let both = Lasts-and lasts (Lasts-Did (has_content tmp)) in
      Holds-bind (Holds-test lasts tt e) λ full log' h.
        Holds-if full
          (λ f.
            Holds-bind (Holds-ignore both kept (h.0, h.1 f))
              λ _ _ k. Holds-bind (Holds-ignore both tt k) λ _ _ k'. returns (k'.0, λ _. k'.1))
          (λ _. returns (h.0, λ h'. cc))

module _ (s : Settings) (own : Text) {E : Log → Type 0} (lasts : Lasts E) where
  module _ (path destination : Text) (stages : In (temporary destination) (staged_paths s))
      (keeps : In destination (staged_paths s)) where
    abbrev request : Command
    request =
        fetch s.token (metadata_base_of s.metadata_url ++ (codes "/" ++ path))
          (temporary destination)

    abbrev Got : Log → Type 0
    Got log = Did request log × Did (has_content (temporary destination)) log

    Holds-round :
        {log : Log}
        → E log
        → Holds
            (Verified.Warrant s own)
            (λ b log'. E log' × (b ≡ true → Got log'))
            (and_also (test request) (keep_fetched (temporary destination) destination))
            log
    Holds-round e = Holds-bind (Holds-test lasts stages e) λ sent _ h.
        Holds-if sent
          (λ f.
            Holds-weaken
              (Holds-keep_fetched s own (Lasts-and lasts (Lasts-Did request))
                (temporary destination) destination keeps (h.0, h.1 f))
              (λ b l k. (k.0.0, λ t. (k.0.1, k.1 t))))
          (λ _. returns (h.0, λ h'. cc))

    Holds-fetch_attempts :
        (left : ℕ) {log : Log}
        → E log
        → Holds
            (Verified.Warrant s own)
            (λ b log'. E log' × (b ≡ true → Got log'))
            (fetch_attempts s
              (metadata_base_of s.metadata_url ++ (codes "/" ++ path))
              destination
              left)
            log
    unfolding fetch_attempts
    Holds-fetch_attempts zero e = returns (e, λ h. cc)
    Holds-fetch_attempts (suc left) e = Holds-bind (Holds-round e) λ kept log' h.
        Holds-if kept (λ f. returns (h.0, λ _. h.1 f))
          (λ _. Holds-bind (Holds-ignore lasts tt h.0) λ _ _ k.
            Holds-bind (Holds-pause s own lasts left k) λ _ _ k'. Holds-fetch_attempts left k')

    pub Holds-fetch_metadata :
        {log : Log}
        → E log
        → Holds
            (Verified.Warrant s own)
            (λ b log'. E log' × (b ≡ true → Got log'))
            (fetch_metadata s path destination)
            log
    unfolding fetch_metadata
    Holds-fetch_metadata e =
        Holds-bind (Holds-ignore lasts tt e) λ _ _ k. Holds-fetch_attempts s.max_attempts k
