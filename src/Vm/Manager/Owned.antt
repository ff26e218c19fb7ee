-- ===== src/Vm/Manager/Owned.antt =====
-- internal/vmbackend/manager.go: whose a VM is, and the VM of an ID.
use garm_provider_truenas.Base.{
  not, List, [], ◌∷◌, if◌then◌else◌, not_found, foreign, sentinel, wrap, Result, ok, err, Run,
  ◌>>=◌, lift, and_then,
}
use garm_provider_truenas.Base.Text.{Text, text_eq, trim_space}
use garm_provider_truenas.Provider.Manager.{wrong_pool}
use garm_provider_truenas.Kit.{Kit}
use garm_provider_truenas.Ownership.{Ownership, decode_ownership}
use garm_provider_truenas.Vm.{Vm}
use garm_provider_truenas.Vm.Manager.Checks.{Manager, provider_id_for, drift_if, checked_owner}

module _ {S : Type 0} (kit : Kit) (m : Manager S) where
  open m use {client, controller_id, system_version}

  unfoldable pub owner : Vm → Result Ownership
  unfolding checked_owner
  owner item = checked_owner controller_id item (decode_ownership kit.json item.description)

  unfoldable pub verify_ownership : Vm → Text → Result (Unit {0})
  unfolding wrong_pool
  verify_ownership item pool_id = and_then (owner item) λ o.
      if wrong_pool pool_id o.pool_id then err (wrap "pool mismatch" (sentinel foreign)) else ok tt

  unfoldable pub verify_system_version : Run S (Unit {0})
  verify_system_version = do
    actual ← client.system_version
    lift (
        drift_if (not (text_eq (trim_space actual) (trim_space system_version)))
          "exact TrueNAS version mismatch")

  -- The first VM of that ID, with its owner if it has the right one.
  unfoldable pub find_in : Text → List Vm → Result (Vm × Ownership)
  unfolding provider_id_for
  find_in provider_id [] = err (sentinel not_found)
  find_in provider_id (item ∷ items) =
      if text_eq (provider_id_for item.id) provider_id
      then and_then (owner item) (λ o. ok (item, o))
      else find_in provider_id items

  unfoldable pub find_owned : Text → Run S (Vm × Ownership)
  find_owned provider_id = do items ← client.list; lift (find_in provider_id items)
