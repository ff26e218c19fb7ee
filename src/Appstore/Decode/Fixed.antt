-- ===== src/Appstore/Decode/Fixed.antt =====
-- internal/truenasstore/store.go: what is known of an app that was decoded.
use garm_provider_truenas.Base.{
  ◌≡◌, Bool, true, false, not, arith, Result, ok, err, and_then-ok, ok-injective, Error, message,
  sentinel, unmanaged, if◌then◌else◌, [], String, Option, some,
}
use garm_provider_truenas.Base.Text.{Text, codes, text_eq, text_eq_refl, is_blank}
use garm_provider_truenas.Base.Dict.{Dict}
use garm_provider_truenas.Base.Json.{Value, object, Fields}
use garm_provider_truenas.Kit.{Kit}
use garm_provider_truenas.Provider.{
  App, flavor_linux_general, runner_tool_url, runner_tool_filename, runner_tool_sha256,
  runner_image,
}
use garm_provider_truenas.Appstore.{check_spec, only_all, map_state}
use garm_provider_truenas.Appstore.Reading.{text_at, get_field, string_map, as_object, count_fields}
use garm_provider_truenas.Appstore.Decode.Profile.{IsFixed, runner_guards-IsFixed}
use garm_provider_truenas.Appstore.Decode.{
  ManagedApp, ReadInteger, decode_app, decode_labelled, decode_managed, label, label_guards,
  compose_object, decoded, validate_fixed_runner_service, environment_guards, first_drift,
  runner_guards, or_err, drift,
}

constants :
    (text_eq (codes "1001:1001") (codes "1001:1001") ≡ true)
    × (text_eq (codes "ALL") (codes "ALL") ≡ true)
constants = (text_eq_refl (codes "1001:1001"), text_eq_refl (codes "ALL"))

-- What the environment of an accepted runner service holds.
abbrev Runs : Dict Text → Type 0
Runs env =
    (is_blank (text_at (codes "GARM_CALLBACK_URL") env) ≡ false)
    × (is_blank (text_at (codes "GARM_METADATA_URL") env) ≡ false)
    × (text_eq (text_at (codes "GARM_RUNNER_DOWNLOAD_URL") env) runner_tool_url ≡ true)
    × (text_eq (text_at (codes "GARM_RUNNER_FILENAME") env) runner_tool_filename ≡ true)
    × (text_eq (text_at (codes "GARM_RUNNER_SHA256") env) runner_tool_sha256 ≡ true)

environment_guards-Runs :
    (env : Dict Text) → first_drift (environment_guards env) ≡ ok tt → Runs env
unfolding first_drift environment_guards
environment_guards-Runs env h = ground arith

-- The document in an app's configuration has one service, `runner`, and this is its object.
abbrev pub IsRunnerOf : Kit → ManagedApp → Fields → Type 0
IsRunnerOf kit app runner =
    (compose services : Fields) × (compose_object kit.json app.config ≡ ok compose)
    × (get_field (codes "services") compose ≡ some (object services))
    × (get_field (codes "runner") services ≡ some (object runner))
    × (count_fields services ≡ 1)

-- What the app is returned as.
abbrev pub Checked : ManagedApp → App → Type 0
Checked app result =
    (check_spec result.spec ≡ ok tt)
    × (result.spec.name ≡ app.name)
    × (result.state ≡ map_state app.state)
    × (text_eq result.spec.controller_id [] ≡ false)
    × (text_eq result.spec.pool_id [] ≡ false)
    × (is_blank result.spec.callback_url ≡ false)
    × (is_blank result.spec.metadata_url ≡ false)

-- What is established of an app by the time it is returned.
abbrev pub Accepted : Kit → ReadInteger → ManagedApp → App → Type 0
Accepted kit read app result =
    Checked app result × ((runner : Fields) × IsRunnerOf kit app runner × IsFixed kit read runner)

service-Runs :
    (kit : Kit) (read : ReadInteger) (runner : Fields) (labels env : Dict Text)
    → validate_fixed_runner_service kit read runner labels ≡ ok env
    → Runs env × IsFixed kit read runner
unfolding validate_fixed_runner_service
service-Runs kit read runner labels env h =
    let outer = and_then-ok (first_drift (runner_guards kit read runner labels)) h in
    let found =
      and_then-ok
        (or_err (drift "runner environment is unreadable")
          (string_map (get_field (codes "environment") runner)))
        outer.2 in
    let inner = and_then-ok (first_drift (environment_guards found.0)) found.2 in
    (
      rw (← ok-injective inner.2) (environment_guards-Runs found.0 inner.1),
      runner_guards-IsFixed kit read runner labels outer.1,
    )

decoded-Checked :
    (app : ManagedApp) (controller_id pool_id profile : Text) (env : Dict Text)
    → text_eq controller_id [] ≡ false
    → text_eq pool_id [] ≡ false
    → text_eq profile flavor_linux_general ≡ true
    → Runs env
    → Checked app (decoded app controller_id pool_id profile env)
unfolding decoded check_spec only_all
decoded-Checked app controller_id pool_id profile env c p f runs =
    ground (arith, constants, text_eq_refl runner_image)

-- A branch that succeeds is not the one that fails.
else-ok :
    {A : Type 0} (b : Bool) (e : Error) {r : Result A} {a : A}
    → (if b then err e else r) ≡ ok a
    → r ≡ ok a
else-ok true e h = cc
else-ok false e h = h

-- What the labels of an accepted app hold.
label_guards-hold :
    (services : Fields) (labels : Dict Text)
    → first_drift (label_guards services labels) ≡ ok tt
    → (count_fields services ≡ 1)
      × (text_eq (label (codes "io.sempersupra.garm.controller-id") labels) [] ≡ false)
      × (text_eq (label (codes "io.sempersupra.garm.pool-id") labels) [] ≡ false)
      × (text_eq (label (codes "io.sempersupra.garm.execution-profile") labels) flavor_linux_general
          ≡ true)
unfolding label_guards first_drift
label_guards-hold services labels h = (ground arith, ground arith, ground arith, ground arith)

module _ (kit : Kit) (read : ReadInteger) (app : ManagedApp) (services runner : Fields)
    (labels : Dict Text) (result : App) where
  managed-Checked :
      decode_managed kit read app services runner labels ≡ ok result
      → Checked app result × IsFixed kit read runner × (count_fields services ≡ 1)
  unfolding decode_managed
  managed-Checked h =
      let outer = and_then-ok (first_drift (label_guards services labels)) h in
      let inner = and_then-ok (validate_fixed_runner_service kit read runner labels) outer.2 in
      let held = label_guards-hold services labels outer.1 in
      let (runs, fixed) = service-Runs kit read runner labels inner.0 inner.1 in
      let checked : Checked app result = rw (← ok-injective inner.2) (
        decoded-Checked app (label (codes "io.sempersupra.garm.controller-id") labels)
          (label (codes "io.sempersupra.garm.pool-id") labels)
          (label (codes "io.sempersupra.garm.execution-profile") labels) inner.0 held.1 held.2
          held.3 runs) in
      (checked, fixed, held.0)

  labelled-Checked :
      decode_labelled kit read app services runner labels ≡ ok result
      → Checked app result × IsFixed kit read runner × (count_fields services ≡ 1)
  unfolding decode_labelled
  labelled-Checked h = managed-Checked (
      else-ok (not (text_eq (text_at (codes "io.sempersupra.garm.managed") labels) (codes "true")))
        (sentinel unmanaged) h)

object_of :
    (text : String) (value : Option Value) (fields : Fields)
    → or_err (message text) (as_object value) ≡ ok fields
    → value ≡ some (object fields)
unfolding or_err as_object
object_of text (some (object f)) fields h = ground arith
object_of text _ fields h = cc

-- Whatever configuration an app has in TrueNAS, if it is decoded, then its Compose document has one
-- service, the runner, with the fixed image, user, restart policy, entry point, dropped capabilities,
-- security option, CPU and memory limits and tmpfs, and with no field that is not known; and what it
-- is returned as has the name that TrueNAS gives, the state that mapState makes of TrueNAS's, a
-- controller, a pool and URLs that are not blank, and is a specification that the store would accept
-- for a new app.
pub decode_app-Accepted :
    (kit : Kit) (read : ReadInteger) (app : ManagedApp) (result : App)
    → decode_app kit read app ≡ ok result
    → Accepted kit read app result
unfolding decode_app
decode_app-Accepted kit read app result h =
    let compose = and_then-ok (compose_object kit.json app.config) h in
    let services =
      and_then-ok
        (or_err (message "managed app config has no services object")
          (as_object (get_field (codes "services") compose.0)))
        compose.2 in
    let runner =
      and_then-ok
        (or_err (message "managed app config has no runner service")
          (as_object (get_field (codes "runner") services.0)))
        services.2 in
    let labels =
      and_then-ok
        (or_err (message "managed app runner service has no readable labels")
          (string_map (get_field (codes "labels") runner.0)))
        runner.2 in
    let (checked, fixed, single) =
      labelled-Checked kit read app services.0 runner.0 labels.0 result labels.2 in
    (
      checked,
      (
        runner.0,
        (
          compose.0,
          services.0,
          compose.1,
          object_of _ _ _ services.1,
          object_of _ _ _ runner.1,
          single,
        ),
        fixed,
      ),
    )
