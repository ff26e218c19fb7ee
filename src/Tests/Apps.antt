-- ===== src/Tests/Apps.antt =====
-- internal/provider over internal/mockstore.
use garm_provider_truenas.Base.{
  ◌↔◌, ◌≤◌, ◌≡◌, refl, true, false, [], ◌∷◌, none, some, length, done, failed, sentinel, foreign,
  active, if◌then◌else◌, ok, errors_is,
}
use garm_provider_truenas.Appstore.{check_spec}
use garm_provider_truenas.Appstore.Profile.{check_spec_iff, runner_of}
use garm_provider_truenas.Base.Dict.{lookup, insert}
use garm_provider_truenas.Base.Hex.{IsDigest}
use garm_provider_truenas.Base.Slug.{is_slug}
use garm_provider_truenas.Base.Text.{Text, codes, text_eq, is_blank}
use garm_provider_truenas.Mockstore.{Disk, store, encoded, create_app, get_app}
use garm_provider_truenas.Mockstore.Laws.{
  Atomic, create_app-Atomic, is_healthy, view, store-IsStore,
}
use garm_provider_truenas.Provider.{App, state_running, state_stopped}
use garm_provider_truenas.Provider.Contract.{Updates, Realizes}
use garm_provider_truenas.Provider.Contract.Lifecycle.{
  create_twice, create_fresh, delete_retires, delete_refuses,
}
use garm_provider_truenas.Provider.Manager.{
  create, delete, validate_bootstrap, app_spec, to_instance, create_request, delete_request,
  remove_all_request, serve_all,
}
use garm_provider_truenas.Provider.Manager.Safety.{logged, serve_all-is_justified}
use garm_provider_truenas.Provider.Manager.Trace.{is_justified, is_retirable}
use garm_provider_truenas.Provider.Names.{sanitize, owned_name}
use garm_provider_truenas.Provider.Names.Bounds.{length-owned_name-le}
use garm_provider_truenas.Tests.Data.{sha256, input, disk, manager}

run_sanitize : Text → Text
unfolding sanitize
run_sanitize = sanitize

sanitize_runs : run_sanitize (codes "--Runner_A  1!") ≡ codes "runner-a-1"
unfolding run_sanitize codes
sanitize_runs = refl

run_name : Text → Text → Text
unfolding owned_name
run_name = owned_name sha256

short_name : run_name (codes "Ctl") (codes "Runner_A 1") ≡ codes "garm-ctl-runner-a-1"
unfolding run_name
short_name = refl

long_name :
    run_name (codes "0123456789abcdef") (codes "a-very-long-runner-name-indeed")
    ≡ codes "garm-0123456789ab-a-very-long-r-abcd01ef"
unfolding run_name
long_name = refl

abbrev name : Text
name = owned_name sha256 manager.controller_id input.name

abbrev fresh : App
fresh = record { spec = app_spec manager.controller_id name input; state = state_running }

abbrev running : Disk
running = record disk { file = some (encoded ((name, fresh) ∷ [])) }

abbrev stopped_app : App
stopped_app = record fresh { state = state_stopped }

abbrev stopped : Disk
stopped = record disk { file = some (encoded ((name, stopped_app) ∷ [])) }

input_valid : validate_bootstrap input ≡ ok tt
unfolding validate_bootstrap is_blank sanitize text_eq codes
input_valid = refl

healthy : is_healthy disk ≡ true
unfolding is_healthy
healthy = refl

created : create manager sha256 input disk ≡ done (to_instance fresh) running
unfolding create validate_bootstrap is_blank create_app get_app app_spec owned_name text_eq lookup
    errors_is insert
created = refl

serve_all-is_justified_example :
    is_justified
      (codes "ctl")
      (serve_all sha256
        (logged store (codes "ctl"))
        (create_request input ∷ remove_all_request ∷ delete_request name ∷ [])
        (stopped, [])).1
    ≡ true
unfolding is_justified
serve_all-is_justified_example =
    serve_all-is_justified store (codes "ctl") sha256
      (create_request input ∷ remove_all_request ∷ delete_request name ∷ []) stopped [] refl

create_twice_example : create manager sha256 input running ≡ done (to_instance fresh) running
create_twice_example =
    create_twice manager (λ d name. is_healthy d ≡ true) (λ spec. Unit {0}) view store-IsStore
      sha256 input disk running (to_instance fresh) healthy tt created

not_there : view disk name ≡ none
unfolding view lookup
not_there = refl

create_fresh_example :
    (app : App) × (s' : Disk) × (create manager sha256 input disk ≡ done (to_instance app) s')
    × Realizes (app_spec manager.controller_id name input) app
    × (is_healthy s' ≡ true)
    × Updates (view disk) name (some app) (view s')
create_fresh_example =
    create_fresh manager (λ d name. is_healthy d ≡ true) (λ spec. Unit {0}) view store-IsStore
      sha256 input disk healthy tt input_valid not_there

healthy_stopped : is_healthy stopped ≡ true
unfolding is_healthy
healthy_stopped = refl

healthy_running : is_healthy running ≡ true
unfolding is_healthy
healthy_running = refl

there_stopped : view stopped name ≡ some stopped_app
unfolding view lookup text_eq owned_name codes
there_stopped = refl

there_running : view running name ≡ some fresh
unfolding view lookup text_eq owned_name codes
there_running = refl

may_go : is_retirable manager.controller_id stopped_app ≡ true
unfolding is_retirable app_spec text_eq codes
may_go = refl

may_not_go : is_retirable manager.controller_id fresh ≡ false
unfolding is_retirable app_spec text_eq codes
may_not_go = refl

delete_retires_example :
    (s' : Disk) × (delete manager name stopped ≡ done tt s')
    × (is_healthy s' ≡ true)
    × Updates (view stopped) name none (view s')
delete_retires_example =
    delete_retires manager (λ d name. is_healthy d ≡ true) (λ spec. Unit {0}) view store-IsStore
      name stopped stopped_app healthy_stopped there_stopped may_go

delete_refuses_example :
    delete manager name running
    ≡ failed
        (sentinel
          (if text_eq fresh.spec.controller_id manager.controller_id then active else foreign))
        running
delete_refuses_example =
    delete_refuses manager (λ d name. is_healthy d ≡ true) (λ spec. Unit {0}) view store-IsStore
      name running fresh healthy_running there_running may_not_go

create_app-Atomic_example :
    Atomic
      (record disk { can_rename = false })
      (create_app fresh.spec (record disk { can_rename = false }))
create_app-Atomic_example = create_app-Atomic fresh.spec (record disk { can_rename = false })

slug : is_slug b'-' (codes "runner-a-1") ≡ true
unfolding is_slug codes
slug = refl

digest : IsDigest sha256
digest t = refl

length-owned_name-le_example :
    length (owned_name sha256 (codes "ctl") (codes "a-very-long-runner-name-that-goes-on")) ≤ 40
length-owned_name-le_example =
    length-owned_name-le sha256 digest (codes "ctl") (codes "a-very-long-runner-name-that-goes-on")

check_spec_iff_example :
    (check_spec fresh.spec ≡ ok tt)
    ↔ (fresh.spec ≡ app_spec fresh.spec.controller_id fresh.spec.name (runner_of fresh.spec))
check_spec_iff_example = check_spec_iff fresh.spec
