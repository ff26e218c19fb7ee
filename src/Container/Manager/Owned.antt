-- ===== src/Container/Manager/Owned.antt =====
-- internal/containerbackend/manager.go: whose a container is, and the container of an ID.
use garm_provider_truenas.Base.{
  not, ◌||◌, List, [], ◌∷◌, if◌then◌else◌, not_found, sentinel, Result, ok, err, Run, ◌>>=◌, lift,
  and_then,
}
use garm_provider_truenas.Base.Text.{Text, text_eq, trim_space}
use garm_provider_truenas.Kit.{Kit}
use garm_provider_truenas.Ownership.{Ownership, decode_ownership}
use garm_provider_truenas.Container.{Container}
use garm_provider_truenas.Container.Plan.{BootstrapPlan}
use garm_provider_truenas.Container.Manager.Checks.{
  Manager, provider_id_for, drift_if, verify_base_runtime, verify_steady_runtime, same_env,
  checked_identity, pool_mismatch,
}

module _ {S : Type 0} (kit : Kit) (m : Manager S) where
  open m use {client, controller_id, system_version}

  unfoldable pub decode_owned_identity : Container → Result Ownership
  unfolding checked_identity
  decode_owned_identity item =
      checked_identity controller_id (decode_ownership kit.json item.description)

  unfoldable pub owner : Container → Result Ownership
  unfolding decode_owned_identity
  owner item =
      and_then (decode_owned_identity item) λ o. and_then (verify_steady_runtime item) λ _. ok o

  unfoldable pub verify_ownership : Container → Text → Result (Unit {0})
  unfolding pool_mismatch
  verify_ownership item pool_id = and_then (owner item) (pool_mismatch pool_id)

  unfoldable pub verify_bootstrap_ownership : Container → Text → BootstrapPlan → Result (Unit {0})
  unfolding decode_owned_identity pool_mismatch same_env
  verify_bootstrap_ownership item pool_id plan = and_then (decode_owned_identity item) λ o.
      and_then (pool_mismatch pool_id o) λ _. and_then (verify_base_runtime item) λ _.
        drift_if (not (text_eq item.init plan.init) || not (same_env item.init_env plan.init_env))
          "bootstrap desired state drift"

  unfoldable pub verify_system_version : Run S (Unit {0})
  verify_system_version = do
    actual ← client.system_version
    lift (
        drift_if (not (text_eq (trim_space actual) (trim_space system_version)))
          "exact TrueNAS version mismatch")

  unfoldable pub find_in : Text → List Container → Result (Container × Ownership)
  unfolding provider_id_for
  find_in provider_id [] = err (sentinel not_found)
  find_in provider_id (item ∷ items) =
      if text_eq (provider_id_for item.id) provider_id
      then and_then (owner item) (λ o. ok (item, o))
      else find_in provider_id items

  unfoldable pub find_owned : Text → Run S (Container × Ownership)
  find_owned provider_id = do items ← client.list; lift (find_in provider_id items)
