-- ===== src/Vm/Manager/Checks.antt =====
-- internal/vmbackend/manager.go: what the manager checks of a VM, its template and its owner.
use garm_provider_truenas.Base.{
  Bool, true, false, not, ◌&&◌, ◌||◌, ◌++◌, Option, none, some, if◌then◌else◌, String, foreign,
  unsupported, managed_drift, sentinel, message, wrap, Result, ok, err, and_then,
}
use garm_provider_truenas.Base.Int.{ℤ, pos, int_eq, is_positive, decimal}
use garm_provider_truenas.Base.Text.{
  Text, codes, text_eq, is_blank, trim_space, to_lower, to_upper, equal_fold,
}
use garm_provider_truenas.Provider.{Instance, general_cpu, general_memory_bytes}
use garm_provider_truenas.Provider.Manager.{wrong_pool}
use garm_provider_truenas.Catalog.{
  RuntimeBackendMatrix, RuntimeBackendCell, resolve_runtime_backend,
}
use garm_provider_truenas.Ownership.{Ownership}
use garm_provider_truenas.Vm.{
  Vm, Template, Client, flavor_linux_general, template_family, template_version,
  template_runtime_name, template_source_url, template_source_sha256,
}

pub record Manager (S : Type 0) : Type 0 where
  pub client : Client S
  pub controller_id : Text
  pub system_version : Text

-- The cell must be admitted and name this very driver.
unfoldable pub is_vm_v1 : RuntimeBackendCell → Bool
is_vm_v1 cell =
    not (text_eq cell.status (codes "NOT_ADMITTED"))
    && text_eq cell.driver (codes "vm-v1")
    && text_eq cell.control_surface (codes "vm.*")

unfoldable pub new_manager :
    {S : Type 0} → RuntimeBackendMatrix → Option (Client S) → Text → Text → Result (Manager S)
unfolding is_vm_v1
new_manager matrix none controller_id system_version = err (message "client is required")
new_manager matrix (some client) controller_id system_version =
    if is_blank controller_id
    then err (message "controller ID is required")
    else and_then (resolve_runtime_backend matrix (codes "vm") (trim_space system_version))
        λ resolved.
          if is_vm_v1 resolved.1
          then ok (record {
            client = client;
            controller_id = controller_id;
            system_version = trim_space system_version;
          })
          else err (sentinel unsupported)

unfoldable pub provider_id_for : ℤ → Text
unfolding decimal
provider_id_for id = codes "vm:" ++ decimal id

unfoldable pub to_instance : Vm → Text → Instance
unfolding provider_id_for
to_instance item pool_id = record {
  provider_id = provider_id_for item.id;
  name = item.name;
  os_type = codes "linux";
  os_name = codes "truenas-vm";
  os_version = item.template.version;
  os_arch = codes "x86_64";
  status = to_lower item.state;
  pool_id = pool_id;
  provider_fault = codes "";
}

abbrev pub is_stopped : Text → Bool
is_stopped state = equal_fold state (codes "STOPPED")

abbrev pub is_running : Text → Bool
is_running state = equal_fold state (codes "RUNNING")

abbrev pub drift_if : Bool → String → Result (Unit {0})
drift_if true text = err (wrap text (sentinel managed_drift))
drift_if false text = ok tt

unfoldable pub is_exact_template : Template → Bool
is_exact_template template =
    is_positive template.id
    && text_eq template.name template_family
    && text_eq template.runtime_name template_runtime_name
    && text_eq template.version template_version
    && text_eq template.source_url template_source_url
    && text_eq template.source_sha256 template_source_sha256

unfoldable pub verify_template : Template → Result (Unit {0})
unfolding is_exact_template
verify_template template =
    if is_exact_template template then ok tt else err (sentinel managed_drift)

-- The runtime profile, and a state that is one of the two known ones.
unfoldable pub is_profile : Vm → Bool
is_profile item =
    not item.autostart
    && int_eq item.vcpus (pos general_cpu)
    && int_eq item.memory_bytes (pos general_memory_bytes)

unfoldable pub is_known_state : Text → Bool
is_known_state state =
    text_eq (to_upper state) (codes "RUNNING") || text_eq (to_upper state) (codes "STOPPED")

abbrev pub or_drift : Bool → Result (Unit {0})
or_drift true = ok tt
or_drift false = err (sentinel managed_drift)

unfoldable pub verify_runtime : Vm → Result (Unit {0})
unfolding is_profile verify_template is_known_state
verify_runtime item =
    and_then (or_drift (is_profile item))
      λ _. and_then (verify_template item.template) λ _. or_drift (is_known_state item.state)

-- The description names this provider, this controller and this profile.
unfoldable pub is_owner : Text → Ownership → Bool
is_owner controller_id owner =
    text_eq owner.schema (codes "semper-supra.garm-vm-owner/1")
    && text_eq owner.managed_by (codes "garm-provider-truenas")
    && text_eq owner.controller_id controller_id
    && text_eq owner.profile flavor_linux_general

unfoldable pub checked_owner : Text → Vm → Option Ownership → Result Ownership
unfolding is_owner
checked_owner controller_id item none = err (sentinel foreign)
checked_owner controller_id item (some owner) =
    if is_owner controller_id owner
    then and_then (verify_runtime item) (λ _. ok owner)
    else err (sentinel foreign)

-- `List` looks at two fields of the description only.
unfoldable pub is_listed : Text → Text → Option Ownership → Bool
unfolding wrong_pool
is_listed controller_id pool_id none = false
is_listed controller_id pool_id (some owner) =
    text_eq owner.managed_by (codes "garm-provider-truenas")
    && text_eq owner.controller_id controller_id
    && not (wrong_pool pool_id owner.pool_id)
