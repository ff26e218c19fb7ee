-- ===== src/Vm/Manager/Strangers.antt =====
-- internal/vmbackend/manager.go: `List` looks at less of a description than `Get` does.
use garm_provider_truenas.Base.{
  ◌≡◌, true, false, [], ◌∷◌, some, arith, done, failed, ok, sentinel, foreign,
}
use garm_provider_truenas.Base.Text.{codes, text_eq, text_eq_refl}
use garm_provider_truenas.Kit.{Kit}
use garm_provider_truenas.Ownership.{Ownership, decode_ownership}
use garm_provider_truenas.Vm.{Vm}
use garm_provider_truenas.Vm.Manager.{
  Manager, list, get, remove_all, remove_each, find_in, find_owned, is_owner, verify_runtime, owner,
  to_instance, provider_id_for, is_listed,
}

-- If the middleware lists one VM only, in a runtime state that is allowed, and its description names
-- this provider and this controller but another schema or profile, then `list` returns it, `get`
-- refuses it as foreign, and `remove_all` fails as foreign.
pub remove_all_stuck :
    {S : Type 0} (kit : Kit) (m : Manager S) (vm : Vm) (o : Ownership) (s : S)
    → ((t : S) → m.client.list t ≡ done (vm ∷ []) t)
    → decode_ownership kit.json vm.description ≡ some o
    → text_eq o.managed_by (codes "garm-provider-truenas") ≡ true
    → text_eq o.controller_id m.controller_id ≡ true
    → is_owner m.controller_id o ≡ false
    → verify_runtime vm ≡ ok tt
    → (list kit m (codes "") s ≡ done (to_instance vm o.pool_id ∷ []) s)
      × (get kit m (provider_id_for vm.id) s ≡ failed (sentinel foreign) s)
      × (remove_all kit m s ≡ failed (sentinel foreign) s)
unfolding remove_all remove_each list get find_owned find_in owner is_listed codes to_instance
remove_all_stuck kit m vm o s listing decoded ours same other steady =
    ground (arith, listing s, text_eq_refl (provider_id_for vm.id))
