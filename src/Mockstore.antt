-- ===== src/Mockstore.antt =====
-- internal/mockstore/mockstore.go: apps kept in a JSON file. The file system is part of the state,
-- with the outcome of each kind of call; the mutex makes each operation one step. A file's content
-- is what `json.Unmarshal` makes of it.
pub mod Laws
pub mod Invariant
pub mod Sweep
use garm_provider_truenas.Base.{Outcome}
use garm_provider_truenas.Base.{
  ℕ, Bool, true, false, List, [], ◌∷◌, Option, none, some, if◌then◌else◌, not_found, Error,
  sentinel, message, Result, ok, err, Run, done, failed, ◌>>=◌, ◌>>◌, return, raise,
}
use garm_provider_truenas.Base.Text.{Text}
use garm_provider_truenas.Base.Dict.{Dict, lookup, insert, erase, values}
use garm_provider_truenas.Provider.{App, AppSpec, Client, State, state_running}

pub data Content : Type 0 where
  blank : Content
  malformed : Content
  encoded : Dict App → Content

pub record Disk : Type 0 where
  -- The file at the store's path, and the one with `.tmp` behind it.
  pub file : Option Content
  pub tmp : Option Content
  pub can_read : Bool
  pub can_mkdir : Bool
  pub can_write : Bool
  pub can_rename : Bool

parse : Option Content → Result (Dict App)
parse none = ok []
parse (some blank) = ok []
parse (some malformed) = err (message "json.Unmarshal")
parse (some (encoded apps)) = ok apps

-- A missing file is found missing also where reading fails.
read : Option Content → Bool → Result (Dict App)
unfolding parse
read none readable = ok []
read (some content) true = parse (some content)
read (some content) false = err (message "os.ReadFile")

answer : Disk → Result (Dict App) → Outcome Disk (Dict App)
answer d (ok apps) = done apps d
answer d (err e) = failed e d

unfoldable pub load : Run Disk (Dict App)
unfolding read answer
load d = answer d (read d.file d.can_read)

-- The file is replaced by a rename, once its successor has been written.
unfoldable pub save : Dict App → Run Disk (Unit {0})
save apps d =
    if d.can_mkdir
    then (if d.can_write
        then (if d.can_rename
            then done tt (record d { file = some (encoded apps); tmp = none })
            else failed (message "os.Rename") (record d { tmp = some (encoded apps) }))
        else failed (message "os.WriteFile") d)
    else failed (message "os.MkdirAll") d

create_in : AppSpec → Dict App → Option App → Run Disk App
create_in spec apps (some app) = return app
create_in spec apps none = do
  let app : App = record { spec = spec; state = state_running }
  save (insert spec.name app apps)
  return app

unfoldable pub create_app : AppSpec → Run Disk App
unfolding load save create_in
create_app spec = do apps ← load; create_in spec apps (lookup spec.name apps)

or_not_found : Option App → Run Disk App
or_not_found none = raise (sentinel not_found)
or_not_found (some app) = return app

unfoldable pub get_app : Text → Run Disk App
unfolding load or_not_found
get_app name = do apps ← load; or_not_found (lookup name apps)

unfoldable pub list_apps : Run Disk (List App)
unfolding load
list_apps = do apps ← load; return (values apps)

delete_in : Text → Dict App → Option App → Run Disk (Unit {0})
delete_in name apps none = return tt
delete_in name apps (some app) = save (erase name apps)

unfoldable pub delete_app : Text → Run Disk (Unit {0})
unfolding load save delete_in
delete_app name = do apps ← load; delete_in name apps (lookup name apps)

set_in : Text → State → Dict App → Option App → Run Disk (Unit {0})
set_in name state apps none = raise (sentinel not_found)
set_in name state apps (some app) = save (insert name (record app { state = state }) apps)

unfoldable pub set_state : Text → State → Run Disk (Unit {0})
unfolding load save set_in
set_state name state = do apps ← load; set_in name state apps (lookup name apps)

abbrev pub store : Client Disk
store = record {
  create_app = create_app;
  get_app = get_app;
  list_apps = list_apps;
  delete_app = delete_app;
}
