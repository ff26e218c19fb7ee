-- ===== src/Container.antt =====
-- internal/containerbackend: the data model of the system container backend, and its `Client`.
pub mod Plan
pub mod Manager
use garm_provider_truenas.Base.{ℕ, Bool, List, Run}
use garm_provider_truenas.Base.Dict.{Dict}
use garm_provider_truenas.Base.Int.{ℤ}
use garm_provider_truenas.Base.Text.{Text, codes}

abbrev pub flavor_linux_general : Text
flavor_linux_general = codes "truenas-container-linux-general"

abbrev pub image_family : Text
image_family = codes "ubuntu:noble:amd64:default"

pub record Image : Type 0 where
  pub name : Text
  pub version : Text

pub record Container : Type 0 where
  pub id : ℤ
  pub name : Text
  pub description : Text
  pub state : Text
  pub dataset : Text
  pub image : Image
  pub autostart : Bool
  pub idmap_type : Text
  pub capabilities_policy : Text
  pub init : Text
  pub init_env : Dict Text

pub record CreateSpec : Type 0 where
  pub name : Text
  pub description : Text
  pub image : Image
  pub autostart : Bool
  pub idmap_type : Text
  pub capabilities_policy : Text
  pub init : Text
  pub init_env : Dict Text

pub record UpdateSpec : Type 0 where
  pub init : Text
  pub init_env : Dict Text

-- Sizes and modes are not negative.
pub record FileStat : Type 0 where
  pub size : ℕ
  pub mode : ℕ

-- The container middleware, over an unknown state of the outside.
pub record Client (S : Type 0) : Type 0 where
  pub system_version : Run S Text
  pub resolve_image : Text → Run S Image
  pub get_by_name : Text → Run S Container
  pub get : ℤ → Run S Container
  pub list : Run S (List Container)
  pub create : CreateSpec → Run S Container
  pub update : ℤ → UpdateSpec → Run S Container
  pub put_file : Text → Text → ℕ → Run S (Unit {0})
  pub stat_file : Text → Run S FileStat
  pub start : ℤ → Run S (Unit {0})
  pub stop : ℤ → Bool → Run S (Unit {0})
  pub delete : ℤ → Run S (Unit {0})
