-- ===== src/Command/External.antt =====
-- cmd/garm-provider-truenas/garm_provider.go: `externalProvider`, the commands that GARM runs.
pub mod Frame
use garm_provider_truenas.Base.{
  ℕ, Bool, true, false, not, ◌&&◌, List, [], ◌∷◌, Option, none, some, map, if◌then◌else◌, is_empty,
  Error, sentinel, wrap, message, garm_bad_request, Result, ok, err, Outcome, done, failed, Run,
  ◌>>=◌, ◌>>◌, return, raise, lift, and_then, String,
}
use garm_provider_truenas.Base.Int.{ℤ}
use garm_provider_truenas.Base.Json.{Json}
use garm_provider_truenas.Base.Text.{Text, codes, text_eq, trim_space, is_blank}
use garm_provider_truenas.Provider.{Client, Instance, runner_image, flavor_linux_general}
use garm_provider_truenas.Provider.Manager
use garm_provider_truenas.Provider.Manager.{Manager}
use garm_provider_truenas.Command.{
  Config, TrueNasConfig, BootstrapInstance, ProviderInstance, to_garm_instance,
  normalize_provider_error, bad_request,
}
use garm_provider_truenas.Command.Settings.{validate_config}
use garm_provider_truenas.Command.Contract.{
  ParseUrl, validate_bootstrap_contract, validate_empty_extra_specs, to_bootstrap,
}

-- `truenasstore.Config`, as `manager` fills it.
pub record Connection : Type 0 where
  pub host : Text
  pub username : Text
  pub api_key : Text
  pub port : ℤ
  pub callback_host_gateway : Bool

-- What a command reaches outside of the manager: the configuration files, the environment, the two
-- backends and the end of a connection. The closer's error is dropped by every caller.
pub record World (S : Type 0) : Type 0 where
  pub load_config : Text → Result Config
  pub getenv : Text → Text
  pub mock_store : Text → Client S
  pub connect : Connection → Run S (Client S)
  pub close : S → S

pub record ExternalProvider : Type 0 where
  pub cfg : Config
  pub config_path : Text
  pub controller_id : Text

-- A manager, and whether a connection has to be closed behind it.
pub record Session (S : Type 0) : Type 0 where
  pub manager : Manager S
  pub connected : Bool

module _ {S : Type 0} (world : World S) where
  labelled_config : Result Config → Result Config
  labelled_config (ok cfg) = ok cfg
  labelled_config (err e) = err (wrap "load provider config" e)

  unfoldable pub new_external_provider : Text → Text → Result ExternalProvider
  unfolding labelled_config
  new_external_provider config_path controller_id =
      if is_blank controller_id
      then err (wrap "controller ID is required" (sentinel garm_bad_request))
      else (and_then (labelled_config (world.load_config config_path)) λ cfg.
          and_then (validate_config cfg) λ _.
            ok (record { cfg = cfg; config_path = config_path; controller_id = controller_id }))

  unfoldable pub api_key_name : TrueNasConfig → Text
  api_key_name c =
      let name = trim_space c.api_key_env in if is_empty name then codes "TRUENAS_API_KEY" else name

  -- Closes what was opened if the manager is refused.
  with_client : Text → Bool → Client S → Run S (Session S)
  with_client controller_id connected client s =
      elim (Manager.new_manager (some client) controller_id) [
        | ok m ↦ done (record { manager = m; connected = connected }) s
        | err e ↦ failed e (if connected then world.close s else s)
      ]

  connect_with : Text → TrueNasConfig → Text → Run S (Session S)
  unfolding with_client
  connect_with controller_id c api_key =
      if is_blank api_key
      then raise (message "TrueNAS API key environment variable is empty")
      else (do
        client ← world.connect (record {
          host = c.host;
          username = c.username;
          api_key = api_key;
          port = c.port;
          callback_host_gateway = c.callback_host_gateway;
        })
        with_client controller_id true client)

  -- The mode decides; a missing TrueNAS section cannot occur in a validated configuration.
  open_true_nas : Text → Option TrueNasConfig → Run S (Session S)
  unfolding connect_with api_key_name
  open_true_nas controller_id none = raise (message "nil pointer dereference")
  open_true_nas controller_id (some c) =
      connect_with controller_id c (world.getenv (api_key_name c))

  unfoldable pub open_manager : ExternalProvider → Run S (Session S)
  unfolding open_true_nas with_client
  open_manager p =
      if text_eq p.cfg.mode (codes "mock")
      then with_client p.controller_id false (world.mock_store p.cfg.state_file)
      else (if text_eq p.cfg.mode (codes "truenas")
          then open_true_nas p.controller_id p.cfg.true_nas
          else raise (message "provider mode is not supported"))

  normalized {ℓ} : {A : Type ℓ} → Outcome S A → Outcome S A
  unfolding normalize_provider_error
  normalized (done a s) = done a s
  normalized (failed e s) = failed (normalize_provider_error e) s

  -- The deferred close.
  closing {ℓ} : {A : Type ℓ} → Bool → Outcome S A → Outcome S A
  closing false o = o
  closing true (done a s) = done a (world.close s)
  closing true (failed e s) = failed e (world.close s)

  -- The frame of every command: open, run, close, and translate the error.
  unfoldable pub with_manager {ℓ} :
      {A : Type ℓ} → ExternalProvider → (Manager S → Run S A) → Run S A
  unfolding normalized closing
  with_manager p run s = elim (open_manager p s) [
    | done session s' ↦ normalized (closing session.connected (run session.manager s'))
    | failed e s' ↦ failed (normalize_provider_error e) s'
  ]

  as_garm : Run S Instance → Run S ProviderInstance
  as_garm run = do i ← run; return (to_garm_instance i)

  unfoldable pub create_instance :
      (Text → List ℕ)
      → Json
      → ParseUrl
      → ExternalProvider
      → BootstrapInstance
      → Run S ProviderInstance
  unfolding as_garm
  create_instance sha256 json parse p b s = elim (validate_bootstrap_contract json parse b) [
    | err e ↦ failed (sentinel garm_bad_request) s
    | ok _ ↦ with_manager p (λ m. as_garm (Manager.create m sha256 (to_bootstrap b))) s
  ]

  unfoldable pub delete_instance : ExternalProvider → Text → Run S (Unit {0})
  delete_instance p id = with_manager p (λ m. Manager.delete m id)

  unfoldable pub get_instance : ExternalProvider → Text → Run S ProviderInstance
  unfolding as_garm
  get_instance p id = with_manager p (λ m. as_garm (Manager.get m id))

  unfoldable pub list_instances : ExternalProvider → Text → Run S (List ProviderInstance)
  list_instances p pool_id =
      with_manager p (λ m. do items ← Manager.list m pool_id; return (map to_garm_instance items))

  unfoldable pub remove_all_instances : ExternalProvider → Run S (Unit {0})
  remove_all_instances p = with_manager p (λ m. Manager.remove_all m)

  -- The flag `force` is not looked at.
  unfoldable pub stop : ExternalProvider → Text → Bool → Run S (Unit {0})
  stop p id force = with_manager p (λ m. Manager.stop m id)

  unfoldable pub start : ExternalProvider → Text → Run S (Unit {0})
  start p id = with_manager p (λ m. Manager.start m id)

  abbrev bad_if : Bool → String → Result (Unit {0})
  bad_if true text = err (bad_request text)
  bad_if false text = ok tt

  -- `badRequest(err)`
  as_bad_request {ℓ} : {A : Type ℓ} → Result A → Result A
  as_bad_request (ok a) = ok a
  as_bad_request (err e) = err (sentinel garm_bad_request)

  unfoldable pub validate_pool_info : Json → Text → Text → Text → Text → Result (Unit {0})
  unfolding as_bad_request
  validate_pool_info json image flavor provider_config extraspecs =
      and_then (bad_if (is_blank provider_config) "provider config path is required") λ _.
        and_then (as_bad_request (world.load_config provider_config)) λ cfg.
          and_then (validate_config cfg) λ _.
            and_then
              (bad_if (not (is_blank image) && not (text_eq image runner_image))
                "image is not the fixed TrueNAS runner image")
              λ _.
                and_then
                  (bad_if (not (is_blank flavor) && not (text_eq flavor flavor_linux_general))
                    "flavor is not supported")
                  λ _. as_bad_request (validate_empty_extra_specs json extraspecs)
