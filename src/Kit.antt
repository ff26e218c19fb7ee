-- ===== src/Kit.antt =====
-- What the container and VM backends use that is text or standard library: a digest, the JSON
-- syntax, and the three shell scripts, whose text nothing in the managers depends on:
-- `containerBootstrapScript` of internal/truenasstore/bootstrap.go, `vmBootstrapLauncher` of
-- internal/vmbackend/manager.go and `containerInitWrapper` of internal/containerbackend/bootstrap.go.
use garm_provider_truenas.Base.{ℕ, List}
use garm_provider_truenas.Base.Text.{Text}
use garm_provider_truenas.Base.Json.{Json}

pub record Kit : Type 0 where
  pub sha256 : Text → List ℕ
  pub json : Json
  pub container_bootstrap_script : Text
  pub vm_bootstrap_launcher : Text
  pub container_init_wrapper : Text
