-- ===== src/Tests/Data.antt =====
-- Inputs that the tests share.
use garm_provider_truenas.Base.{ℕ, true, List, [], ◌∷◌, none, some}
use garm_provider_truenas.Base.Json.{Json}
use garm_provider_truenas.Base.Text.{Text, codes}
use garm_provider_truenas.Kit.{Kit}
use garm_provider_truenas.Mockstore.{Disk, store}
use garm_provider_truenas.Ownership.{Ownership, ownership_value}
use garm_provider_truenas.Provider.{Bootstrap}
use garm_provider_truenas.Provider.Manager.{Manager}

abbrev pub four : List ℕ → List ℕ
four rest = 171 ∷ 205 ∷ 1 ∷ 239 ∷ rest

-- A digest that does not look at its input.
abbrev pub sha256 : Text → List ℕ
sha256 t = four (four (four (four (four (four (four (four [])))))))

abbrev pub input : Bootstrap
input = record {
  name = codes "Runner_A 1";
  os_type = codes "linux";
  arch = codes "amd64";
  flavor = codes "truenas-linux-general";
  pool_id = codes "pool";
  callback_url = codes "https://garm/cb";
  metadata_url = codes "https://garm/md";
  token = codes "secret";
}

abbrev pub disk : Disk
disk = record {
  file = none;
  tmp = none;
  can_read = true;
  can_mkdir = true;
  can_write = true;
  can_rename = true;
}

abbrev pub manager : Manager Disk
manager = record { client = store; controller_id = codes "ctl" }

abbrev pub owner : Ownership
owner = record {
  schema = codes "semper-supra.garm-vm-owner/1";
  managed_by = codes "garm-provider-truenas";
  controller_id = codes "ctl";
  pool_id = codes "pool";
  runner_name = codes "r";
  profile = codes "truenas-vm-linux-general";
}

-- JSON in which every text stands for that owner.
abbrev pub json : Json
json = record { marshal = λ v. codes "owner"; unmarshal = λ t. some (ownership_value owner) }

abbrev pub kit : Kit
kit = record {
  sha256 = sha256;
  json = json;
  container_bootstrap_script = codes "exit";
  vm_bootstrap_launcher = codes "exit";
  container_init_wrapper = codes "exit";
}
