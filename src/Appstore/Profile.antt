-- ===== src/Appstore/Profile.antt =====
-- internal/truenasstore/store.go and internal/provider/provider.go: the one profile on which the
-- manager and the store agree.
use garm_provider_truenas.Base.{◌≡◌, refl, true, ◌↔◌, List, [], ◌∷◌, arith, ok, is_empty}
use garm_provider_truenas.Base.Text.{Text, codes, text_eq, text_eq_iff}
use garm_provider_truenas.Provider.{
  AppSpec, Bootstrap, runner_image, flavor_linux_general, runner_tool_url, runner_tool_filename,
  runner_tool_sha256,
}
use garm_provider_truenas.Provider.Manager.{app_spec}
use garm_provider_truenas.Appstore.{check_spec, only_all}

-- What a specification says of its runner.
unfoldable pub runner_of : AppSpec → Bootstrap
runner_of spec = record {
  name = spec.name;
  os_type = codes "linux";
  arch = codes "amd64";
  flavor = flavor_linux_general;
  pool_id = spec.pool_id;
  callback_url = spec.callback_url;
  metadata_url = spec.metadata_url;
  token = spec.bootstrap_token;
}

no_mounts : (mounts : List Text) → is_empty mounts ≡ true → mounts ≡ []
no_mounts [] h = refl
no_mounts (m ∷ ms) h = cc

all_dropped : (caps : List Text) → only_all caps ≡ true → caps ≡ codes "ALL" ∷ []
unfolding only_all
all_dropped [] h = cc
all_dropped (cap ∷ []) h = ground (arith, text_eq_iff cap (codes "ALL"))
all_dropped (cap ∷ other ∷ caps) h = cc

-- Whatever runner the manager asks for, the store accepts the specification.
pub check_spec-app_spec :
    (controller_id name : Text) (input : Bootstrap)
    → check_spec (app_spec controller_id name input) ≡ ok tt
unfolding check_spec app_spec only_all codes text_eq
check_spec-app_spec controller_id name input = refl

-- The store accepts a specification exactly if it is what app_spec makes of the controller, the name,
-- the pool, the URLs and the token that it has itself: these are not restricted by the check, and
-- every other field is fixed to what the manager fills in.
pub check_spec_iff :
    (spec : AppSpec)
    → (check_spec spec ≡ ok tt) ↔ (spec ≡ app_spec spec.controller_id spec.name (runner_of spec))
unfolding check_spec app_spec runner_of
check_spec_iff spec = (
  λ h. ground (
    arith,
    no_mounts spec.host_mounts,
    all_dropped spec.cap_drop,
    text_eq_iff spec.image runner_image,
    text_eq_iff spec.execution_profile flavor_linux_general,
    text_eq_iff spec.run_as_user (codes "1001:1001"),
    text_eq_iff spec.runner_download_url runner_tool_url,
    text_eq_iff spec.runner_filename runner_tool_filename,
    text_eq_iff spec.runner_sha256 runner_tool_sha256,
  ),
  λ e. rw e (check_spec-app_spec spec.controller_id spec.name (runner_of spec)),
)
