-- ===== src/Container/Manager.antt =====
-- internal/containerbackend/manager.go: `Manager`, the lifecycle of one-job runners as system
-- containers.
pub mod Checks
pub mod Owned
pub mod Creation
pub mod Created
pub mod Cleanup
pub mod Trace
pub mod Safety
pub mod Service
pub mod Absence
unfoldable pub use Checks.*
unfoldable pub use Owned.*
unfoldable pub use Creation.*
use garm_provider_truenas.Base.{
  ℕ, ◌+◌, ◌%◌, Bool, true, false, not, ◌&&◌, ◌||◌, List, [], ◌∷◌, ◌++◌, Option, none, some, ◌==◌,
  if◌then◌else◌, String, is_empty, length, not_found, active, foreign, unsupported,
  unsafe_operation, managed_drift, Error, sentinel, message, wrap, errors_is, Result, ok, err,
  Outcome, done, failed, state_of, Run, ◌>>=◌, ◌>>◌, return, raise, lift, attempt, labelled,
  and_then, take,
}
use garm_provider_truenas.Base.Dict.{Dict, lookup}
use garm_provider_truenas.Base.FilePath.{clean, join_path, byte_length}
use garm_provider_truenas.Base.Int.{ℤ, decimal}
use garm_provider_truenas.Base.Text.{
  Text, codes, text_eq, is_blank, trim_space, trim_prefix, to_lower, to_upper, equal_fold,
  has_prefix,
}
use garm_provider_truenas.Provider.{Bootstrap, Instance}
use garm_provider_truenas.Provider.Manager.{wrong_pool}
use garm_provider_truenas.Catalog.{
  RuntimeBackendMatrix, RuntimeBackendCell, resolve_runtime_backend,
}
use garm_provider_truenas.Kit.{Kit}
use garm_provider_truenas.Ownership.{Ownership, encode_ownership, decode_ownership}
use garm_provider_truenas.Container.{
  Image, Container, CreateSpec, UpdateSpec, FileStat, Client, flavor_linux_general, image_family,
}
use garm_provider_truenas.Container.Plan.{
  StagedFile, BootstrapPlan, default_init, bootstrap_token_path, owned_name, validate_bootstrap,
  build_bootstrap_plan, container_rootfs_mountpoint,
}

module _ {S : Type 0} (kit : Kit) (m : Manager S) where
  open m use {client, controller_id, system_version}

  -- `Get` walks the list itself, with the checks of `findOwned`.
  unfoldable pub get : Text → Run S Instance
  unfolding to_instance
  get provider_id = do
    items ← client.list
    found ← lift (find_in kit m provider_id items)
    return (to_instance found.0 found.1.pool_id)

  pool_of : Option Ownership → Text
  pool_of none = codes ""
  pool_of (some o) = o.pool_id

  list_in : Text → List Container → Result (List Instance)
  unfolding to_instance is_listed pool_of
  list_in pool_id [] = ok []
  list_in pool_id (item ∷ items) =
      let rest = list_in pool_id items in
      let o = decode_ownership kit.json item.description in
      let first = to_instance item (pool_of o) in
      if is_listed controller_id pool_id o
      then and_then (verify_steady_runtime item) (λ _. and_then rest (λ later. ok (first ∷ later)))
      else rest

  unfoldable pub list : Text → Run S (List Instance)
  unfolding list_in
  list pool_id = do items ← client.list; lift (list_in pool_id items)

  stop_running : Container → Run S (Unit {0})
  stop_running item = do
    client.stop item.id false
    observed ← client.get item.id
    lift (drift_if (not (is_stopped observed.state)) "container stop did not reach STOPPED")

  stop_item : Container → Run S (Unit {0})
  unfolding stop_running
  stop_item item =
      if is_stopped item.state
      then return tt
      else (if is_running item.state then stop_running item else raise (sentinel unsafe_operation))

  unfoldable pub stop : Text → Run S (Unit {0})
  unfolding stop_item
  stop provider_id = do found ← find_owned kit m provider_id; stop_item found.0

  unfoldable pub start : Text → Run S (Unit {0})
  start provider_id = raise (sentinel unsafe_operation)

  delete_item : Container → Run S (Unit {0})
  delete_item item =
      if is_stopped item.state
      then (do
        client.delete item.id
        left ← attempt (client.get item.id)
        expect_absent "container still exists after delete" "verify container absence" left)
      else raise (sentinel active)

  delete_found : Result (Container × Ownership) → Run S (Unit {0})
  unfolding delete_item
  delete_found (err e) = if errors_is e not_found then return tt else raise e
  delete_found (ok found) = delete_item found.0

  unfoldable pub delete : Text → Run S (Unit {0})
  unfolding delete_found
  delete provider_id = do found ← attempt (find_owned kit m provider_id); delete_found found

  -- The loop of `RemoveAll`; the flag is `active`.
  unfoldable pub remove_each : List Instance → Bool → Run S Bool
  remove_each [] busy = return busy
  remove_each (item ∷ items) busy =
      let later = remove_each items busy in
      let later_busy = remove_each items true in
      do
        found ← find_owned kit m item.provider_id
        if is_stopped found.0.state then (do delete item.provider_id; later) else later_busy

  unfoldable pub remove_all : Run S (Unit {0})
  remove_all = do
    items ← list (codes "")
    busy ← remove_each items false
    if busy then raise (sentinel active) else return tt
