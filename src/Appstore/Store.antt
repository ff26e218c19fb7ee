-- ===== src/Appstore/Store.antt =====
-- internal/truenasstore/store.go: `Store`, the client that is TrueNAS. The app service and the job
-- caller are packages outside of the repository, over an unknown state of the outside.
pub mod Sent
pub mod Refine
pub mod Listing
pub mod Complete
use garm_provider_truenas.Base.{
  Bool, true, false, not, ◌&&◌, ◌||◌, List, [], ◌∷◌, Option, none, some, if◌then◌else◌, Error,
  sentinel, message, wrap, errors_is, not_found, foreign, unmanaged, Result, ok, err, Outcome, done,
  failed, Run, ◌>>=◌, ◌>>◌, return, raise, lift, labelled, String, state_of,
}
use garm_provider_truenas.Base.Int.{ℤ}
use garm_provider_truenas.Base.Json.{Value, boolean, string, array, object, end, item, close, field}
use garm_provider_truenas.Base.Text.{Text, codes, text_lt, is_blank}
use garm_provider_truenas.Kit.{Kit}
use garm_provider_truenas.Provider.{App, AppSpec, Client}
use garm_provider_truenas.Appstore.{compose_config, plausible_managed_app_name}
use garm_provider_truenas.Appstore.Decode.{ManagedApp, ReadInteger, decode_app}
use garm_provider_truenas.Appstore.Gateway.{
  Network, apply_callback_host_gateway, validate_callback_host_gateway_app_config,
}

-- `appService`. A creation is given its name and its Compose document, always as a custom app, and
-- its answer is dropped; of a listed app only the name is read.
pub record AppService (S : Type 0) : Type 0 where
  pub create_app : Text → Text → Run S (Unit {0})
  pub get_app_with_config : Text → Run S (Option ManagedApp)
  pub list_apps : Run S (List Text)

-- `jobCaller`; the answer of a job is dropped.
pub record JobCaller (S : Type 0) : Type 0 where
  pub call_and_wait : Text → Value → Run S (Unit {0})

pub record Store (S : Type 0) : Type 0 where
  pub apps : Option (AppService S)
  pub caller : Option (JobCaller S)
  pub callback_host_gateway : Bool

-- What `sort.Slice` makes of the names.
insert_name : Text → List Text → List Text
unfolding text_lt
insert_name name [] = name ∷ []
insert_name name (other ∷ names) =
    let later = other ∷ insert_name name names in
    if text_lt other name then later else name ∷ other ∷ names

unfoldable pub sort_names : List Text → List Text
unfolding insert_name
sort_names [] = []
sort_names (name ∷ names) = insert_name name (sort_names names)

abbrev no_service : Error
no_service = message "TrueNAS app service is required"

-- The arguments of `app.delete`, which never take a volume away.
unfoldable pub delete_arguments : Text → Value
unfolding codes
delete_arguments name = array (
    item (string name) (
      item
        (object (
          field (codes "remove_images") (boolean false)
            (field (codes "remove_ix_volumes") (boolean false) close)))
        end))

module _ {S : Type 0} (kit : Kit) (net : Network) (read : ReadInteger) (store : Store S) where
  open store use {apps, caller, callback_host_gateway}

  -- `GetApp` once the app has been decoded.
  get_decoded : ManagedApp → Result App → Run S App
  get_decoded app (err e) = if errors_is e unmanaged then raise (sentinel foreign) else raise e
  get_decoded app (ok decoded) = do
    labelled "managed app callback host-gateway policy mismatch"
        (lift (validate_callback_host_gateway_app_config kit net app callback_host_gateway))
    return decoded

  get_found : Option ManagedApp → Run S App
  unfolding get_decoded
  get_found none = raise (sentinel not_found)
  get_found (some app) = get_decoded app (decode_app kit read app)

  get_with : Option (AppService S) → Text → Run S App
  unfolding get_found
  get_with none name = raise no_service
  get_with (some service) name = do found ← service.get_app_with_config name; get_found found

  unfoldable pub get_app : Text → Run S App
  unfolding get_with
  get_app name = get_with apps name

  create_with : Option (AppService S) → AppSpec → Run S App
  create_with none spec = raise no_service
  create_with (some service) spec = do
    compose ← lift (compose_config kit spec)
    changed ← lift (apply_callback_host_gateway kit net compose spec callback_host_gateway)
    service.create_app spec.name changed
    get_app spec.name

  unfoldable pub create_app : AppSpec → Run S App
  unfolding create_with
  create_app spec = create_with apps spec

  -- `ListApps` once an app has been decoded; the last argument is what the other names give.
  list_decoded : ManagedApp → Result App → Run S (List App) → Run S (List App)
  list_decoded app (err e) later =
      if errors_is e unmanaged then later else raise (wrap "decode managed app" e)
  list_decoded app (ok decoded) later = do
    labelled "validate managed app callback host-gateway policy"
        (lift (validate_callback_host_gateway_app_config kit net app callback_host_gateway))
    rest ← later
    return (decoded ∷ rest)

  list_found : Option ManagedApp → Run S (List App) → Run S (List App)
  unfolding list_decoded
  list_found none later = later
  list_found (some app) later = list_decoded app (decode_app kit read app) later

  unfoldable pub list_each : AppService S → List Text → Run S (List App)
  unfolding list_found
  list_each service [] = return []
  list_each service (name ∷ names) =
      let later = list_each service names in
      if not (plausible_managed_app_name name)
      then later
      else (do found ← service.get_app_with_config name; list_found found later)

  list_with : Option (AppService S) → Run S (List App)
  unfolding list_each
  list_with none = raise no_service
  list_with (some service) = do names ← service.list_apps; list_each service (sort_names names)

  unfoldable pub list_apps : Run S (List App)
  unfolding list_with
  list_apps = list_with apps

  delete_with : Option (JobCaller S) → Text → Run S (Unit {0})
  unfolding delete_arguments
  delete_with none name = raise (message "TrueNAS job caller is required")
  delete_with (some jobs) name = jobs.call_and_wait (codes "app.delete") (delete_arguments name)

  unfoldable pub delete_app : Text → Run S (Unit {0})
  unfolding delete_with
  delete_app name = delete_with caller name

  abbrev pub client : Client S
  client = record {
    create_app = create_app;
    get_app = get_app;
    list_apps = list_apps;
    delete_app = delete_app;
  }

-- `Config`
pub record Config : Type 0 where
  pub host : Text
  pub username : Text
  pub api_key : Text
  pub port : ℤ
  pub insecure_skip_verify : Bool
  pub callback_host_gateway : Bool

-- The WebSocket client of truenas-go: whether it takes a configuration, and what it does.
pub record Transport (S : Type 0) : Type 0 where
  pub configure : Config → Result (Unit {0})
  pub connect : Config → Run S (Unit {0})
  pub apps : AppService S
  pub caller : JobCaller S
  pub close : S → S

abbrev pub refuse_if : Bool → String → Result (Unit {0})
refuse_if true text = err (message text)
refuse_if false text = ok tt

-- A connection that fails is closed, and the error of closing it is dropped.
unfoldable pub close_failed :
    {S : Type 0} → Transport S → Outcome S (Unit {0}) → Outcome S (Unit {0})
close_failed transport (done a s) = done a s
close_failed transport (failed e s) = failed e (transport.close s)

unfoldable pub dial : {S : Type 0} → Transport S → Config → Run S (Unit {0})
unfolding close_failed
dial transport config s = close_failed transport (transport.connect config s)

unfoldable pub connect : {S : Type 0} → Transport S → Config → Run S (Store S)
unfolding dial
connect transport config = do
  lift (refuse_if (is_blank config.host) "TrueNAS host is required")
  lift (refuse_if (is_blank config.username) "TrueNAS username is required")
  lift (refuse_if (is_blank config.api_key) "TrueNAS API key is required")
  lift (
      refuse_if config.insecure_skip_verify
        "insecure TLS verification is not permitted for the provider live transport")
  labelled "configure TrueNAS WebSocket client" (lift (transport.configure config))
  labelled "connect TrueNAS JSON-RPC transport" (dial transport config)
  return (record {
    apps = some transport.apps;
    caller = some transport.caller;
    callback_host_gateway = config.callback_host_gateway;
  })
