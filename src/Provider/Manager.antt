-- ===== src/Provider/Manager.antt =====
-- internal/provider/provider.go: `Manager`, the lifecycle of one-job runners as TrueNAS Apps.
pub mod Trace
pub mod Safety
pub mod Pools
pub mod Keeps
use garm_provider_truenas.Base.{String, state_of}
use garm_provider_truenas.Base.{
  ℕ, Bool, true, false, not, ◌&&◌, ◌||◌, List, [], ◌∷◌, Option, none, some, if◌then◌else◌, is_empty,
  Sentinel, not_found, active, foreign, unsupported, unsafe_operation, Error, sentinel, message,
  wrap, errors_is, Result, ok, err, Run, ◌>>=◌, ◌>>◌, return, raise, lift, attempt, labelled, keep,
  map, and_then,
}
use garm_provider_truenas.Base.Text.{Text, codes, text_eq, is_blank, to_lower}
use garm_provider_truenas.Provider.{
  Bootstrap, AppSpec, App, Instance, Client, State, state_deploying, state_running, state_stopping,
  state_stopped, flavor_linux_general, runner_image, general_cpu, general_memory_bytes,
  runner_tool_url, runner_tool_filename, runner_tool_sha256,
}
use garm_provider_truenas.Provider.Names.{sanitize, owned_name}

pub record Manager (S : Type 0) : Type 0 where
  pub client : Client S
  pub controller_id : Text

-- A missing client is Go's nil.
unfoldable pub new_manager : {S : Type 0} → Option (Client S) → Text → Result (Manager S)
new_manager none controller_id = err (message "client is required")
new_manager (some client) controller_id =
    if is_blank controller_id || is_empty (sanitize controller_id)
    then err (message "controller ID is required and must contain an alphanumeric character")
    else ok (record { client = client; controller_id = controller_id })

-- `if refused { return fmt.Errorf(text, ErrUnsupported) }`
abbrev pub unsupported_if : Bool → String → Result (Unit {0})
unsupported_if true text = err (wrap text (sentinel unsupported))
unsupported_if false text = ok tt

unfoldable pub is_supported_arch : Text → Bool
is_supported_arch arch =
    text_eq arch (codes "amd64") || text_eq arch (codes "x64") || text_eq arch (codes "x86_64")

unfoldable pub validate_bootstrap : Bootstrap → Result (Unit {0})
unfolding is_supported_arch
validate_bootstrap input =
    and_then
      (unsupported_if
        (is_blank input.name || is_empty (sanitize input.name) || is_blank input.pool_id)
        "name and pool ID are required and name must contain an alphanumeric character")
      λ _. and_then (unsupported_if (not (text_eq input.os_type (codes "linux"))) "os_type") λ _.
        and_then (unsupported_if (not (is_supported_arch input.arch)) "arch") λ _.
          and_then (unsupported_if (not (text_eq input.flavor flavor_linux_general)) "flavor") λ _.
            unsupported_if
              (is_blank input.callback_url || is_blank input.metadata_url || is_blank input.token)
              "bootstrap callback, metadata URL and token are required"

unfoldable pub is_active : State → Bool
is_active state =
    text_eq state state_deploying || text_eq state state_running || text_eq state state_stopping

unfoldable pub to_instance : App → Instance
to_instance app = record {
  provider_id = app.spec.name;
  name = app.spec.name;
  os_type = codes "linux";
  os_name = codes "truenas-custom-app";
  os_version = codes "mvp";
  os_arch = codes "x86_64";
  status = to_lower app.state;
  pool_id = app.spec.pool_id;
  provider_fault = codes "";
}

-- `poolID != "" && app.Spec.PoolID != poolID`
unfoldable pub wrong_pool : Text → Text → Bool
wrong_pool pool_id actual = not (is_empty pool_id) && not (text_eq actual pool_id)

unfoldable pub verify_ownership : Text → App → Text → Result (Unit {0})
unfolding wrong_pool
verify_ownership controller_id app pool_id =
    if not (text_eq app.spec.controller_id controller_id)
    then err (sentinel foreign)
    else (if wrong_pool pool_id app.spec.pool_id
        then err (wrap "pool mismatch" (sentinel foreign))
        else ok tt)

-- The fixed specification of a runner's app.
unfoldable pub app_spec : Text → Text → Bootstrap → AppSpec
app_spec controller_id name input = record {
  name = name;
  image = runner_image;
  controller_id = controller_id;
  pool_id = input.pool_id;
  cpu = general_cpu;
  memory_bytes = general_memory_bytes;
  run_as_user = codes "1001:1001";
  cap_drop = codes "ALL" ∷ [];
  no_new_privileges = true;
  workdir_tmpfs = false;
  credential_tmpfs = true;
  host_mounts = [];
  docker_socket = false;
  callback_url = input.callback_url;
  metadata_url = input.metadata_url;
  bootstrap_token = input.token;
  runner_download_url = runner_tool_url;
  runner_filename = runner_tool_filename;
  runner_sha256 = runner_tool_sha256;
  execution_profile = flavor_linux_general;
}

-- `List` keeps what the controller owns, in the pool if one is named.
unfoldable pub is_listed : Text → Text → App → Bool
unfolding wrong_pool
is_listed controller_id pool_id app =
    text_eq app.spec.controller_id controller_id && not (wrong_pool pool_id app.spec.pool_id)

-- A delete that finds nothing is no error.
abbrev pub unless_not_found : {S : Type 0} → Result (Unit {0}) → Run S (Unit {0})
unless_not_found (ok _) = return tt
unless_not_found (err e) = if errors_is e not_found then return tt else raise e

module _ {S : Type 0} (m : Manager S) where
  open m use {client, controller_id}

  -- The checks and the result after an app has been read or created.
  unfoldable pub admit : Text → App → Run S Instance
  unfolding verify_ownership to_instance
  admit pool_id app = do lift (verify_ownership controller_id app pool_id); return (to_instance app)

  create_absent : Text → Bootstrap → Run S Instance
  unfolding app_spec admit
  create_absent name input = do
    created ← labelled "create app" (client.create_app (app_spec controller_id name input))
    admit input.pool_id created

  create_found : Text → Bootstrap → Result App → Run S Instance
  unfolding create_absent
  create_found name input (ok existing) = admit input.pool_id existing
  create_found name input (err e) =
      if errors_is e not_found
      then create_absent name input
      else raise (wrap "query existing app" e)

  unfoldable pub create : (Text → List ℕ) → Bootstrap → Run S Instance
  unfolding create_found
  create sha256 input = do
    lift (validate_bootstrap input)
    let name = owned_name sha256 controller_id input.name
    found ← attempt (client.get_app name)
    create_found name input found

  unfoldable pub get : Text → Run S Instance
  unfolding admit
  get provider_id = do app ← client.get_app provider_id; admit (codes "") app

  unfoldable pub list : Text → Run S (List Instance)
  unfolding is_listed to_instance keep
  list pool_id = do
    apps ← client.list_apps
    return (map to_instance (keep (is_listed controller_id pool_id) apps))

  delete_found : Text → Result App → Run S (Unit {0})
  unfolding verify_ownership is_active
  delete_found provider_id (err e) = if errors_is e not_found then return tt else raise e
  delete_found provider_id (ok app) = do
    lift (verify_ownership controller_id app (codes ""))
    if is_active app.state then raise (sentinel active) else client.delete_app provider_id

  unfoldable pub delete : Text → Run S (Unit {0})
  unfolding delete_found
  delete provider_id = do
    found ← attempt (client.get_app provider_id)
    delete_found provider_id found

  unfoldable pub start : Text → Run S (Unit {0})
  start provider_id = raise (sentinel unsafe_operation)

  unfoldable pub stop : Text → Run S (Unit {0})
  unfolding verify_ownership
  stop provider_id = do
    app ← client.get_app provider_id
    lift (verify_ownership controller_id app (codes ""))
    if text_eq app.state state_stopped then return tt else raise (sentinel unsafe_operation)

  -- The loop of `RemoveAll`; the flag is `active`.
  unfoldable pub remove_each : List App → Bool → Run S Bool
  unfolding is_active
  remove_each [] busy = return busy
  remove_each (app ∷ apps) busy =
      let later = remove_each apps busy in
      let later_busy = remove_each apps true in
      if not (text_eq app.spec.controller_id controller_id)
      then later
      else (if is_active app.state
          then later_busy
          else (do gone ← attempt (client.delete_app app.spec.name); unless_not_found gone; later))

  unfoldable pub remove_all : Run S (Unit {0})
  remove_all = do
    apps ← client.list_apps
    busy ← remove_each apps false
    if busy then raise (sentinel active) else return tt

-- What GARM asks of the manager.
pub data Request : Type 0 where
  create_request : Bootstrap → Request
  get_request list_request delete_request start_request stop_request : Text → Request
  remove_all_request : Request

-- The state that a request leaves; its answer goes back to GARM.
unfoldable pub serve : {S : Type 0} → (Text → List ℕ) → Manager S → Request → S → S
serve sha256 m (create_request input) s = state_of (create m sha256 input s)
serve sha256 m (get_request provider_id) s = state_of (get m provider_id s)
serve sha256 m (list_request pool_id) s = state_of (list m pool_id s)
serve sha256 m (delete_request provider_id) s = state_of (delete m provider_id s)
serve sha256 m (start_request provider_id) s = state_of (start m provider_id s)
serve sha256 m (stop_request provider_id) s = state_of (stop m provider_id s)
serve sha256 m remove_all_request s = state_of (remove_all m s)

unfoldable pub serve_all : {S : Type 0} → (Text → List ℕ) → Manager S → List Request → S → S
unfolding serve
serve_all sha256 m [] s = s
serve_all sha256 m (r ∷ rs) s = serve_all sha256 m rs (serve sha256 m r s)
