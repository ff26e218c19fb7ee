-- ===== src/Vm/Manager.antt =====
-- internal/vmbackend/manager.go: `Manager`, the lifecycle of one-job runners as virtual machines.
pub mod Checks
pub mod Owned
pub mod Creation
pub mod Created
pub mod Trace
pub mod Safety
pub mod Service
pub mod Versions
pub mod Strangers
unfoldable pub use Checks.*
unfoldable pub use Owned.*
unfoldable pub use Creation.*
use garm_provider_truenas.Base.{
  Bool, true, false, not, ◌&&◌, ◌||◌, List, [], ◌∷◌, ◌++◌, Option, none, some, if◌then◌else◌,
  String, is_empty, not_found, active, foreign, unsupported, unsafe_operation, managed_drift, Error,
  sentinel, message, wrap, errors_is, Result, ok, err, Run, ◌>>=◌, ◌>>◌, return, raise, lift,
  attempt, labelled, and_then,
}
use garm_provider_truenas.Base.Int.{ℤ, pos, int_eq, is_positive, decimal}
use garm_provider_truenas.Base.Text.{
  Text, codes, text_eq, is_blank, trim_space, to_lower, to_upper, equal_fold, contains,
}
use garm_provider_truenas.Provider.{Bootstrap, Instance, general_cpu, general_memory_bytes}
use garm_provider_truenas.Provider.Manager.{wrong_pool, unless_not_found}
use garm_provider_truenas.Catalog.{
  RuntimeBackendMatrix, RuntimeBackendCell, RuntimeBackendEntry, resolve_runtime_backend,
}
use garm_provider_truenas.Kit.{Kit}
use garm_provider_truenas.Ownership.{Ownership, encode_ownership, decode_ownership}
use garm_provider_truenas.Vm.{
  Vm, Template, CloneSpec, SeedSpec, Client, flavor_linux_general, template_family,
  template_version, template_runtime_name, template_source_url, template_source_sha256,
}
use garm_provider_truenas.Vm.Seed.{owned_name, validate_bootstrap, seed_for}

-- An error that Go's `if _, err := Get(id); !errors.Is(err, ErrNotFound)` finds.
abbrev pub expect_absent : {S : Type 0} {A : Type 0} → Result A → Run S (Unit {0})
expect_absent (ok _) = raise (wrap "VM still exists after delete" (sentinel managed_drift))
expect_absent (err e) =
    if errors_is e not_found then return tt else raise (wrap "verify VM absence" e)

module _ {S : Type 0} (kit : Kit) (m : Manager S) where
  open m use {client, controller_id, system_version}

  -- Detaches and deletes the seed.
  abbrev drop_seed : String → String → ℤ → Text → Run S (Unit {0})
  drop_seed detaching deleting id seed_ref = do
    labelled detaching (client.detach_seed id seed_ref)
    labelled deleting (client.delete_seed seed_ref)

  clear_seed : Vm → Run S (Unit {0})
  clear_seed item = do
    drop_seed "detach bootstrap seed" "delete bootstrap seed" item.id item.seed_ref
    observed ← labelled "verify bootstrap seed cleanup" (client.get item.id)
    lift (drift_if (not (is_blank observed.seed_ref)) "bootstrap seed remains attached")

  clear_consumed : Vm → Bool → Run S (Unit {0})
  unfolding clear_seed
  clear_consumed item consumed =
      if consumed then clear_seed item else raise (sentinel unsafe_operation)

  reconcile_seeded : Vm → Run S (Unit {0})
  unfolding clear_consumed
  reconcile_seeded item =
      if is_stopped item.state
      then (do
        consumed ← labelled "observe bootstrap consumption" (client.bootstrap_consumed item.id)
        clear_consumed item consumed)
      else raise (sentinel unsafe_operation)

  unfoldable pub reconcile_bootstrap : Text → Run S (Unit {0})
  unfolding reconcile_seeded
  reconcile_bootstrap provider_id = do
    found ← find_owned kit m provider_id
    if is_blank found.0.seed_ref then return tt else reconcile_seeded found.0

  unfoldable pub get : Text → Run S Instance
  unfolding to_instance
  get provider_id = do
    found ← find_owned kit m provider_id
    return (to_instance found.0 found.1.pool_id)

  -- The pool that a listed VM's description names.
  pool_of : Option Ownership → Text
  pool_of none = codes ""
  pool_of (some o) = o.pool_id

  list_in : Text → List Vm → Result (List Instance)
  unfolding to_instance is_listed pool_of
  list_in pool_id [] = ok []
  list_in pool_id (item ∷ items) =
      let rest = list_in pool_id items in
      let o = decode_ownership kit.json item.description in
      let first = to_instance item (pool_of o) in
      if is_listed controller_id pool_id o
      then and_then (verify_runtime item) (λ _. and_then rest (λ later. ok (first ∷ later)))
      else rest

  unfoldable pub list : Text → Run S (List Instance)
  unfolding list_in
  list pool_id = do items ← client.list; lift (list_in pool_id items)

  stop_running : Vm → Run S (Unit {0})
  stop_running item = do
    client.stop item.id false
    observed ← client.get item.id
    lift (drift_if (not (is_stopped observed.state)) "VM stop did not reach STOPPED")

  stop_item : Vm → Run S (Unit {0})
  unfolding stop_running
  stop_item item =
      if is_stopped item.state
      then return tt
      else (if is_running item.state then stop_running item else raise (sentinel unsafe_operation))

  unfoldable pub stop : Text → Run S (Unit {0})
  unfolding stop_item
  stop provider_id = do found ← find_owned kit m provider_id; stop_item found.0

  unfoldable pub start : Text → Run S (Unit {0})
  start provider_id = raise (sentinel unsafe_operation)

  -- The tail of `Delete`, once the seed is gone.
  delete_vm : Vm → Run S (Unit {0})
  delete_vm item = do client.delete item.id; left ← attempt (client.get item.id); expect_absent left

  delete_item : Vm → Run S (Unit {0})
  unfolding delete_vm
  delete_item item =
      if not (is_stopped item.state)
      then raise (sentinel active)
      else (if is_blank item.seed_ref then delete_vm item else (do
        drop_seed "detach seed before VM delete" "delete seed before VM delete" item.id
            item.seed_ref
        delete_vm item))

  delete_found : Result (Vm × Ownership) → Run S (Unit {0})
  unfolding delete_item
  delete_found (err e) = if errors_is e not_found then return tt else raise e
  delete_found (ok found) = delete_item found.0

  unfoldable pub delete : Text → Run S (Unit {0})
  unfolding delete_found
  delete provider_id = do found ← attempt (find_owned kit m provider_id); delete_found found

  -- The loop of `RemoveAll`; the flag is `active`.
  unfoldable pub remove_each : List Instance → Bool → Run S Bool
  remove_each [] busy = return busy
  remove_each (item ∷ items) busy =
      let later = remove_each items busy in
      let later_busy = remove_each items true in
      do
        found ← find_owned kit m item.provider_id
        if is_stopped found.0.state then (do delete item.provider_id; later) else later_busy

  unfoldable pub remove_all : Run S (Unit {0})
  remove_all = do
    items ← list (codes "")
    busy ← remove_each items false
    if busy then raise (sentinel active) else return tt
