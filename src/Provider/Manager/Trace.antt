-- ===== src/Provider/Manager/Trace.antt =====
-- The calls that `Manager` makes on its client, and when a call is warranted by those before it.
use garm_provider_truenas.Base.{
  Bool, true, false, not, ◌&&◌, ◌||◌, List, [], ◌∷◌, is_empty, not_found, errors_is, Result, ok,
  err, Outcome, done, failed,
}
use garm_provider_truenas.Base.Text.{Text, codes, text_eq}
use garm_provider_truenas.Provider.{AppSpec, App, Client}
use garm_provider_truenas.Provider.Manager.{is_active}

-- A call with what it was given and what it answered.
pub data Call : Type 0 where
  created : AppSpec → Call
  got : Text → Result App → Call
  listed : Result (List App) → Call
  deleted : Text → Call

abbrev pub Log : Type 0
Log = List Call

-- A client that also keeps the calls made on it, the newest first.
module _ {S : Type 0} where
  abbrev pub noting {ℓ} : {A : Type ℓ} → (Result A → Call) → Log → Outcome S A → Outcome (S × Log) A
  noting note log (done a s) = done a (s, note (ok a) ∷ log)
  noting note log (failed e s) = failed e (s, note (err e) ∷ log)

  unfoldable pub traced : Client S → Client (S × Log)
  traced client = record {
    create_app = λ spec w. noting (λ _. created spec) w.1 (client.create_app spec w.0);
    get_app = λ name w. noting (got name) w.1 (client.get_app name w.0);
    list_apps = λ w. noting listed w.1 (client.list_apps w.0);
    delete_app = λ name w. noting (λ _. deleted name) w.1 (client.delete_app name w.0);
  }

-- The app belongs to the controller and is in no active state.
unfoldable pub is_retirable : Text → App → Bool
unfolding is_active
is_retirable controller_id app =
    text_eq app.spec.controller_id controller_id && not (is_active app.state)

unfoldable pub names_retirable : Text → Text → List App → Bool
unfolding is_retirable
names_retirable controller_id name [] = false
names_retirable controller_id name (app ∷ apps) =
    (text_eq app.spec.name name && is_retirable controller_id app)
    || names_retirable controller_id name apps

-- What a call shows about a deletion of that name: TrueNAS answered for it with an app that may go.
unfoldable pub shows_retirable : Text → Text → Call → Bool
unfolding names_retirable
shows_retirable controller_id name (got asked (ok app)) =
    text_eq asked name && is_retirable controller_id app
shows_retirable controller_id name (listed (ok apps)) = names_retirable controller_id name apps
shows_retirable controller_id name _ = false

unfoldable pub seen_retirable : Text → Text → Log → Bool
unfolding shows_retirable
seen_retirable controller_id name [] = false
seen_retirable controller_id name (call ∷ log) =
    shows_retirable controller_id name call || seen_retirable controller_id name log

-- The call before asked for that name, and TrueNAS knew of no such app.
unfoldable pub just_absent : Text → Log → Bool
just_absent name (got asked (err e) ∷ log) = text_eq asked name && errors_is e not_found
just_absent name _ = false

unfoldable pub drops_all : List Text → Bool
drops_all (cap ∷ []) = text_eq cap (codes "ALL")
drops_all _ = false

-- Nothing of the host is reachable from the app, and it has no capability.
unfoldable pub is_confined : AppSpec → Bool
unfolding drops_all
is_confined spec =
    is_empty spec.host_mounts
    && not spec.docker_socket
    && spec.no_new_privileges
    && spec.credential_tmpfs
    && not spec.workdir_tmpfs
    && drops_all spec.cap_drop

unfoldable pub is_warranted : Text → Call → Log → Bool
unfolding seen_retirable just_absent is_confined
is_warranted controller_id (created spec) log =
    just_absent spec.name log && is_confined spec && text_eq spec.controller_id controller_id
is_warranted controller_id (deleted name) log = seen_retirable controller_id name log
is_warranted controller_id _ log = true

-- Every call of the log was warranted when it was made.
unfoldable pub is_justified : Text → Log → Bool
unfolding is_warranted
is_justified controller_id [] = true
is_justified controller_id (call ∷ log) =
    is_warranted controller_id call log && is_justified controller_id log
