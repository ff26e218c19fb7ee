-- ===== src/Vm.antt =====
-- internal/vmbackend/manager.go: the data model of the VM backend, and its `Client`.
pub mod Seed
pub mod Manager
use garm_provider_truenas.Base.{ℕ, Bool, List, Run}
use garm_provider_truenas.Base.Int.{ℤ}
use garm_provider_truenas.Base.Text.{Text, codes}

abbrev pub flavor_linux_general : Text
flavor_linux_general = codes "truenas-vm-linux-general"

abbrev pub template_family : Text
template_family = codes "ubuntu-24.04-amd64-template"

abbrev pub template_version : Text
template_version = codes "ubuntu-24.04-release-20260926-amd64"

abbrev pub template_runtime_name : Text
template_runtime_name = codes "garm_tpl_ubuntu_2404_20260926_amd64"

abbrev pub template_source_url : Text
template_source_url =
    codes
      "https://cloud-images.ubuntu.com/releases/noble/release-20260926/ubuntu-24.04-server-cloudimg-amd64.img"

abbrev pub template_source_sha256 : Text
template_source_sha256 = codes "6a81c37564db9b1ee84e141922625e1d7c5b389b99bb3c572e0243607d5bb4d2"

abbrev pub vm_bootstrap_consumed_marker_prefix : Text
vm_bootstrap_consumed_marker_prefix = codes "GARM_VM_BOOTSTRAP_CONSUMED_V1:"

pub record Template : Type 0 where
  pub id : ℤ
  pub name : Text
  pub runtime_name : Text
  pub version : Text
  pub source_url : Text
  pub source_sha256 : Text

pub record Vm : Type 0 where
  pub id : ℤ
  pub name : Text
  pub description : Text
  pub state : Text
  pub autostart : Bool
  pub vcpus : ℤ
  pub memory_bytes : ℤ
  pub template : Template
  pub seed_ref : Text

pub record CloneSpec : Type 0 where
  pub name : Text
  pub description : Text
  pub vcpus : ℤ
  pub memory_bytes : ℤ
  pub autostart : Bool

pub record SeedSpec : Type 0 where
  pub meta_data : Text
  pub user_data : Text
  pub consumption_marker : Text

-- The VM middleware, over an unknown state of the outside.
pub record Client (S : Type 0) : Type 0 where
  pub system_version : Run S Text
  pub resolve_template : Text → Run S Template
  pub get_by_name : Text → Run S Vm
  pub get : ℤ → Run S Vm
  pub list : Run S (List Vm)
  pub clone : ℤ → CloneSpec → Run S Vm
  pub stage_seed : ℤ → SeedSpec → Run S Text
  pub attach_seed : ℤ → Text → Run S (Unit {0})
  pub detach_seed : ℤ → Text → Run S (Unit {0})
  pub delete_seed : Text → Run S (Unit {0})
  pub bootstrap_consumed : ℤ → Run S Bool
  pub start : ℤ → Run S (Unit {0})
  pub stop : ℤ → Bool → Run S (Unit {0})
  pub delete : ℤ → Run S (Unit {0})
