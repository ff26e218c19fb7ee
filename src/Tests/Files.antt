-- ===== src/Tests/Files.antt =====
-- internal/mockstore over sequences of steps, and the names and the script of internal/truenasstore.
use garm_provider_truenas.Base.{
  List, ◌≡◌, refl, true, false, [], ◌∷◌, some, done, failed, if◌then◌else◌, any, ◌<◌, arith, All,
  take, length, sentinel, active, is_empty,
}
use garm_provider_truenas.Base.Dict.{values, lookup}
use garm_provider_truenas.Base.Hex.{IsDigest}
use garm_provider_truenas.Base.Text.{Text, codes, text_eq}
use garm_provider_truenas.Kit.{Kit}
use garm_provider_truenas.Appstore.{plausible_managed_app_name, container_bootstrap_command}
use garm_provider_truenas.Appstore.Dollars.{
  single_dollars, single_dollars-container_bootstrap_command,
}
use garm_provider_truenas.Appstore.Listed.{plausible_managed_app_name-owned_name}
use garm_provider_truenas.Mockstore.{Disk, encoded}
use garm_provider_truenas.Mockstore.Laws.{apps_of, is_healthy, view}
use garm_provider_truenas.Mockstore.Invariant.{
  Faults, is_sound, served, state_set, run_all, run_all-is_sound,
}
use garm_provider_truenas.Mockstore.Sweep.{over, is_busy, left_by, remove_all-view}
use garm_provider_truenas.Provider.{App, state_running, state_stopped}
use garm_provider_truenas.Provider.Manager.{
  app_spec, create_request, remove_all_request, remove_all,
}
use garm_provider_truenas.Provider.Names.{sanitize, owned_name, raw_name}
use garm_provider_truenas.Container.Plan.{token_present, plan_contains_token, build_bootstrap_plan}
use garm_provider_truenas.Container.Plan.Secrets.{
  holds, public_values, is_exposed, build_bootstrap_plan-secret,
}
use garm_provider_truenas.Tests.Data.{kit, sha256, input, disk}

-- A file with a stopped app, one that runs, and another controller's.
abbrev app_of : Text → Text → Text → App
app_of controller_id name state = record { spec = app_spec controller_id name input; state = state }

abbrev three : Disk
three = record disk {
  file = some (
      encoded (
        (codes "garm-ctl-a", app_of (codes "ctl") (codes "garm-ctl-a") state_stopped)
        ∷ (codes "garm-ctl-b", app_of (codes "ctl") (codes "garm-ctl-b") state_running)
        ∷ (codes "garm-x-a", app_of (codes "x") (codes "garm-x-a") state_stopped)
        ∷ []));
}

three_sound : is_sound three ≡ true
unfolding is_sound app_spec codes text_eq lookup
three_sound = refl

three_healthy : is_healthy three ≡ true
unfolding is_healthy
three_healthy = refl

-- The rename fails in the second operation only, and works again after it.
abbrev fate : List Faults
fate =
    record { read_works = true; mkdir_works = true; write_works = true; rename_works = true }
    ∷ record { read_works = true; mkdir_works = true; write_works = true; rename_works = false }
    ∷ record { read_works = true; mkdir_works = true; write_works = true; rename_works = true }
    ∷ []

run_all-is_sound_example :
    is_sound
      (run_all sha256
        (served (codes "ctl") (create_request input)
          ∷ state_set (codes "garm-ctl-b") state_stopped
          ∷ served (codes "ctl") remove_all_request
          ∷ [])
        (three, fate)).0
    ≡ true
run_all-is_sound_example =
    run_all-is_sound sha256
      (served (codes "ctl") (create_request input)
        ∷ state_set (codes "garm-ctl-b") state_stopped
        ∷ served (codes "ctl") remove_all_request
        ∷ [])
      (three, fate) three_sound

remove_all-view_example :
    (d' : Disk) × (remove_all (over (codes "ctl")) three ≡ (
      if any (is_busy (codes "ctl")) (values (apps_of three.file))
      then failed (sentinel active) d'
      else done tt d'))
    × ((name : Text) → view d' name ≡ left_by (codes "ctl") (view three name))
remove_all-view_example = remove_all-view (codes "ctl") three three_healthy three_sound

digest : IsDigest sha256
digest t = refl

kept_names :
    (is_empty (sanitize (codes "0123456789a-cdef")) ≡ false)
    × (is_empty (sanitize (codes "a-very-long-runner-name-that-goes-on")) ≡ false)
unfolding sanitize codes
kept_names = (refl, refl)

plausible_managed_app_name-owned_name_example :
    plausible_managed_app_name
      (owned_name sha256 (codes "0123456789a-cdef") (codes "a-very-long-runner-name-that-goes-on"))
    ≡ true
plausible_managed_app_name-owned_name_example =
    plausible_managed_app_name-owned_name sha256 digest (codes "0123456789a-cdef")
      (codes "a-very-long-runner-name-that-goes-on") kept_names.0 kept_names.1

abbrev script_kit : Kit
script_kit = record kit { container_bootstrap_script = codes "echo $HOME $$" }

single_dollars-container_bootstrap_command_example :
    single_dollars (container_bootstrap_command script_kit)
    ≡ some script_kit.container_bootstrap_script
single_dollars-container_bootstrap_command_example =
    single_dollars-container_bootstrap_command script_kit

build_bootstrap_plan-secret_example :
    (token_present (build_bootstrap_plan kit input).init_env input.token
      ≡ any (holds input.token) (public_values input))
    × (token_present (build_bootstrap_plan kit input).final_env input.token ≡ false)
    × (plan_contains_token (build_bootstrap_plan kit input) input.token
        ≡ any
            (holds input.token)
            (kit.container_bootstrap_script ∷ kit.container_init_wrapper ∷ []))
    × (any is_exposed (build_bootstrap_plan kit input).files ≡ false)
build_bootstrap_plan-secret_example = build_bootstrap_plan-secret kit input

-- Two names that differ before they are sanitized.
abbrev spaced : Text
spaced = codes "A very long runner name that goes on"

abbrev dashed : Text
dashed = codes "a-very-long-runner-name-that-goes-on"

bytes : (t : Text) → All (λ b. b < 256) (take 4 (sha256 t))
bytes t = (omega arith, (omega arith, (omega arith, (omega arith, tt))))

same_raw : raw_name (codes "controller") spaced ≡ raw_name (codes "controller") dashed
unfolding raw_name codes
same_raw = refl

are_long :
    (40 < length (raw_name (codes "controller") spaced))
    × (40 < length (raw_name (codes "controller") dashed))
unfolding raw_name codes
are_long = (omega arith, omega arith)

same_name :
    owned_name sha256 (codes "controller") spaced ≡ owned_name sha256 (codes "controller") dashed
unfolding owned_name raw_name codes
same_name = refl
