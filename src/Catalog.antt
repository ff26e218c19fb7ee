-- ===== src/Catalog.antt =====
-- internal/truenasstore/runtime_backend_catalog.go: which driver serves which TrueNAS version, with
-- the matrix that it embeds (internal/truenasstore/testdata/runtime-backend-target-matrix.json).
-- Of a cell the fields are kept that the program reads; its evidence and notes are left out.
use garm_provider_truenas.Base.{
  Bool, false, [], ◌∷◌, Option, none, some, not, if◌then◌else◌, message, sentinel, Result, ok, err,
  and_then, backend_unknown, target_unknown,
}
use garm_provider_truenas.Base.Text.{Text, codes, text_eq, to_lower, trim_space, trim_prefix}
use garm_provider_truenas.Base.Dict.{Dict, lookup}

pub record RuntimeBackendCell : Type 0 where
  pub status : Text
  pub driver : Text
  pub control_surface : Text

pub record RuntimeBackendEntry : Type 0 where
  pub config_id : Text
  pub provider_name : Text
  pub profile : Text
  pub implementation_status : Text
  pub target_status : Dict RuntimeBackendCell

pub record RuntimeBackendMatrix : Type 0 where
  pub schema : Text
  pub runtime_inheritance_allowed : Bool
  pub backends : Dict RuntimeBackendEntry

abbrev pub cell : Text → Text → Text → RuntimeBackendCell
cell status driver surface = record { status = status; driver = driver; control_surface = surface }

abbrev pub matrix_schema : Text
matrix_schema = codes "semper-supra.garm-provider-truenas-runtime-backend-target-matrix/1"

abbrev pub apps_v1 : RuntimeBackendCell
apps_v1 = cell (codes "PASS") (codes "apps-v1") (codes "app.*")

abbrev pub virt_container : RuntimeBackendCell
virt_container = cell (codes "OPEN") (codes "virt-instance-container-v1") (codes "virt.instance")

abbrev pub container_v1 : RuntimeBackendCell
container_v1 = cell (codes "OPEN") (codes "container-v1") (codes "container.*")

abbrev pub virt_vm : RuntimeBackendCell
virt_vm = cell (codes "NOT_ADMITTED") (codes "virt-instance-vm-v1") (codes "virt.instance")

abbrev pub vm_v1 : RuntimeBackendCell
vm_v1 = cell (codes "OPEN") (codes "vm-v1") (codes "vm.*")

abbrev pub apps_entry : RuntimeBackendEntry
apps_entry = record {
  config_id = codes "apps";
  provider_name = codes "truenas-apps";
  profile = codes "truenas-linux-general";
  implementation_status = codes "IMPLEMENTED";
  target_status =
      (codes "25.04.1", apps_v1)
      ∷ (codes "25.04.2.6", apps_v1)
      ∷ (codes "25.10.7", apps_v1)
      ∷ (codes "26.0.0-BETA.3", apps_v1)
      ∷ [];
}

abbrev pub container_entry : RuntimeBackendEntry
container_entry = record {
  config_id = codes "container";
  provider_name = codes "truenas-containers";
  profile = codes "truenas-container-linux-general";
  implementation_status = codes "PLANNED";
  target_status =
      (codes "25.04.1", virt_container)
      ∷ (codes "25.04.2.6", virt_container)
      ∷ (codes "25.10.7", virt_container)
      ∷ (codes "26.0.0-BETA.3", container_v1)
      ∷ [];
}

abbrev pub vm_entry : RuntimeBackendEntry
vm_entry = record {
  config_id = codes "vm";
  provider_name = codes "truenas-vms";
  profile = codes "truenas-vm-linux-general";
  implementation_status = codes "PLANNED";
  target_status =
      (codes "25.04.1", virt_vm)
      ∷ (codes "25.04.2.6", vm_v1)
      ∷ (codes "25.10.7", vm_v1)
      ∷ (codes "26.0.0-BETA.3", vm_v1)
      ∷ [];
}

abbrev pub embedded_matrix : RuntimeBackendMatrix
embedded_matrix = record {
  schema = matrix_schema;
  runtime_inheritance_allowed = false;
  backends =
      (codes "apps", apps_entry)
      ∷ (codes "container", container_entry)
      ∷ (codes "vm", vm_entry)
      ∷ [];
}

unfoldable pub load_runtime_backend_matrix : RuntimeBackendMatrix → Result RuntimeBackendMatrix
load_runtime_backend_matrix matrix =
    if not (text_eq matrix.schema matrix_schema)
    then err (message "unsupported runtime backend matrix schema")
    else (if matrix.runtime_inheritance_allowed
        then err (message "runtime backend matrix illegally enables support inheritance")
        else ok matrix)

-- `TrueNAS-25.10.7` and `25.10.7` are one version.
unfoldable pub target_version : Text → Text
unfolding trim_space trim_prefix
target_version system_version = trim_prefix (trim_space system_version) (codes "TrueNAS-")

in_entry :
    RuntimeBackendEntry
    → Option RuntimeBackendCell
    → Result (RuntimeBackendEntry × RuntimeBackendCell)
in_entry entry none = err (sentinel target_unknown)
in_entry entry (some found) = ok (entry, found)

in_matrix : Text → Option RuntimeBackendEntry → Result (RuntimeBackendEntry × RuntimeBackendCell)
unfolding in_entry
in_matrix version none = err (sentinel backend_unknown)
in_matrix version (some entry) = in_entry entry (lookup version entry.target_status)

unfoldable pub resolve_runtime_backend :
    RuntimeBackendMatrix → Text → Text → Result (RuntimeBackendEntry × RuntimeBackendCell)
unfolding load_runtime_backend_matrix in_matrix
resolve_runtime_backend matrix backend system_version =
    and_then (load_runtime_backend_matrix matrix) λ loaded.
      in_matrix (target_version system_version)
        (lookup (to_lower (trim_space backend)) loaded.backends)

unfoldable pub runtime_cell_operationally_admitted : RuntimeBackendCell → Bool
runtime_cell_operationally_admitted c = text_eq c.status (codes "PASS")
