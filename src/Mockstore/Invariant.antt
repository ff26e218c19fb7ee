-- ===== src/Mockstore/Invariant.antt =====
-- internal/mockstore/mockstore.go: what every operation keeps of the apps in the file.
use garm_provider_truenas.Base.{
  ok, err, Error, ◌⊎◌, ◌≡◌, refl, Bool, true, false, ◌&&◌, [], ◌∷◌, List, ℕ, Option, none, some,
  arith, state_of, inl, inr, Run, done, failed,
}
use garm_provider_truenas.Base.Text.{Text, text_eq, text_eq_iff, text_eq_refl}
use garm_provider_truenas.Base.Dict.{insert, erase, Dict, lookup, lookup-insert, lookup-erase}
use garm_provider_truenas.Provider.{App, AppSpec, State, Client, state_running}
use garm_provider_truenas.Provider.Manager.{Manager, Request, serve}
use garm_provider_truenas.Provider.Manager.Keeps.{Keeps, serve-keeps}
use garm_provider_truenas.Mockstore.{
  Content, encoded, Disk, create_app, get_app, delete_app, save, set_in, load, read, answer, blank,
  malformed, list_apps, set_state,
}
use garm_provider_truenas.Mockstore.Laws.{apps_of}

unfoldable pub is_none {ℓ} : {A : Type ℓ} → Option A → Bool
is_none none = true
is_none (some a) = false

-- Each app stands under its own name, and no name stands twice.
unfoldable pub is_keyed : Dict App → Bool
unfolding is_none
is_keyed [] = true
is_keyed ((name, app) ∷ apps) =
    text_eq app.spec.name name && is_none (lookup name apps) && is_keyed apps

unfoldable pub is_sound : Disk → Bool
unfolding is_keyed apps_of
is_sound d = is_keyed (apps_of d.file)

insert-is_keyed :
    (name : Text) (app : App) (apps : Dict App)
    → text_eq app.spec.name name ≡ true
    → is_keyed apps ≡ true
    → is_keyed (insert name app apps) ≡ true
unfolding is_keyed insert lookup is_none
insert-is_keyed name app [] h k = ground arith
insert-is_keyed name app ((j, other) ∷ apps) h k = ground (
  arith,
  text_eq_iff j name,
  text_eq_iff name j,
  lookup-insert name j app apps,
  insert-is_keyed name app apps h,
)

erase-is_keyed :
    (name : Text) (apps : Dict App) → is_keyed apps ≡ true → is_keyed (erase name apps) ≡ true
unfolding is_keyed erase is_none
erase-is_keyed name [] h = refl
erase-is_keyed name ((j, other) ∷ apps) h =
    ground (arith, lookup-erase name j apps, erase-is_keyed name apps)

lookup-named :
    (name : Text) (app : App) (apps : Dict App)
    → is_keyed apps ≡ true
    → lookup name apps ≡ some app
    → text_eq app.spec.name name ≡ true
unfolding is_keyed lookup
lookup-named name app [] h e = cc
lookup-named name app ((j, other) ∷ apps) h e =
    ground (arith, text_eq_iff j name, lookup-named name app apps)

create_app-is_sound :
    (spec : AppSpec) (d : Disk) → is_sound d ≡ true → is_sound (state_of (create_app spec d)) ≡ true
unfolding create_app is_sound apps_of is_keyed
create_app-is_sound spec d h =
    let app : App = record { spec = spec; state = state_running } in
    ground (
      arith,
      text_eq_refl spec.name,
      insert-is_keyed spec.name app (apps_of d.file),
      insert-is_keyed spec.name app [],
    )

get_app-is_sound :
    (name : Text) (d : Disk) → is_sound d ≡ true → is_sound (state_of (get_app name d)) ≡ true
unfolding get_app
get_app-is_sound name d h = ground arith

list_apps-is_sound : (d : Disk) → is_sound d ≡ true → is_sound (state_of (list_apps d)) ≡ true
unfolding list_apps
list_apps-is_sound d h = ground arith

delete_app-is_sound :
    (name : Text) (d : Disk) → is_sound d ≡ true → is_sound (state_of (delete_app name d)) ≡ true
unfolding delete_app is_sound apps_of
delete_app-is_sound name d h = ground (arith, erase-is_keyed name (apps_of d.file))

save-is_sound :
    (apps : Dict App) (d : Disk)
    → is_keyed apps ≡ true
    → is_sound d ≡ true
    → is_sound (state_of (save apps d)) ≡ true
unfolding save is_sound apps_of
save-is_sound apps d h k = ground arith

set_in-is_sound :
    (name : Text) (state : State) (apps : Dict App) (o : Option App) (d : Disk)
    → lookup name apps ≡ o
    → is_keyed apps ≡ true
    → is_sound d ≡ true
    → is_sound (state_of (set_in name state apps o d)) ≡ true
unfolding set_in
set_in-is_sound name state apps none d e h k = k
set_in-is_sound name state apps (some app) d e h k =
    let changed : App = record app { state = state } in
    save-is_sound (insert name changed apps) d
      (insert-is_keyed name changed apps (lookup-named name app apps h e) h) k

read-cases :
    (content : Option Content) (can_read : Bool)
    → (read content can_read ≡ ok (apps_of content))
      ⊎ ((e : Error) × (read content can_read ≡ err e))
unfolding read apps_of
read-cases none b = inl refl
read-cases (some blank) true = inl refl
read-cases (some malformed) true = inr (_, refl)
read-cases (some (encoded apps)) true = inl refl
read-cases (some content) false = inr (_, refl)

set_state-is_sound :
    (name : Text) (state : State) (d : Disk)
    → is_sound d ≡ true
    → is_sound (state_of (set_state name state d)) ≡ true
unfolding set_state load answer is_sound
set_state-is_sound name state d h =
    let apps = apps_of d.file in
    elim (read-cases d.file d.can_read) [
      | inl e ↦ rw e (set_in-is_sound name state apps (lookup name apps) d refl h h)
      | inr (_, e) ↦ rw e h
    ]

-- Which calls of the file system fail during one operation of the store. An operation makes no call
-- of a kind twice.
pub record Faults : Type 0 where
  pub read_works : Bool
  pub mkdir_works : Bool
  pub write_works : Bool
  pub rename_works : Bool

unfoldable pub under : Faults → Disk → Disk
under f d = record d {
  can_read = f.read_works;
  can_mkdir = f.mkdir_works;
  can_write = f.write_works;
  can_rename = f.rename_works;
}

-- A disk with the faults of the operations to come; nothing changes after the last of them.
abbrev pub Fated : Type 0
Fated = Disk × List Faults

unfoldable pub next : Fated → Fated
unfolding under
next (d, []) = (d, [])
next (d, f ∷ faults) = (under f d, faults)

unfoldable pub fated {ℓ} : {A : Type ℓ} → Run Disk A → Run Fated A
unfolding next
fated op w = elim (op (next w).0) [
  | done a d ↦ done a (d, (next w).1)
  | failed e d ↦ failed e (d, (next w).1)
]

-- The store, where each operation meets faults of its own.
abbrev pub fated_store : Client Fated
fated_store = record {
  create_app = λ spec. fated (create_app spec);
  get_app = λ name. fated (get_app name);
  list_apps = fated list_apps;
  delete_app = λ name. fated (delete_app name);
}

-- What can happen to the file: a request to a manager over it, or a state set from outside.
pub data Step : Type 0 where
  served : Text → Request → Step
  state_set : Text → State → Step

abbrev pub manager_of : Text → Manager Fated
manager_of controller_id = record { client = fated_store; controller_id = controller_id }

unfoldable pub run : (Text → List ℕ) → Step → Fated → Fated
unfolding fated
run sha256 (served controller_id r) w = serve sha256 (manager_of controller_id) r w
run sha256 (state_set name state) w = state_of (fated (set_state name state) w)

unfoldable pub run_all : (Text → List ℕ) → List Step → Fated → Fated
unfolding run
run_all sha256 [] w = w
run_all sha256 (step ∷ steps) w = run_all sha256 steps (run sha256 step w)

next-is_sound : (w : Fated) → is_sound w.0 ≡ true → is_sound (next w).0 ≡ true
unfolding next under is_sound
next-is_sound (d, []) h = h
next-is_sound (d, f ∷ faults) h = h

fated-is_sound :
    {A : Type 0} (op : Run Disk A)
    → ((d : Disk) → is_sound d ≡ true → is_sound (state_of (op d)) ≡ true)
    → (w : Fated) → is_sound w.0 ≡ true
    → is_sound (state_of (fated op w)).0 ≡ true
unfolding fated
fated-is_sound op keeps w h = ground (arith, keeps (next w).0, next-is_sound w)

fated_store-Keeps : Keeps fated_store (λ w. is_sound w.0)
fated_store-Keeps = record {
  create_app-keeps = λ spec. fated-is_sound (create_app spec) (create_app-is_sound spec);
  get_app-keeps = λ name. fated-is_sound (get_app name) (get_app-is_sound name);
  list_apps-keeps = fated-is_sound list_apps list_apps-is_sound;
  delete_app-keeps = λ name. fated-is_sound (delete_app name) (delete_app-is_sound name);
}

-- Through any requests to managers over the file and any states that are set, where in each operation
-- of the store any of its calls of the file system may fail, whatever failed or worked before: if each
-- app in the file stands under its own name, and no name stands twice, it stays so.
pub run_all-is_sound :
    (sha256 : Text → List ℕ) (steps : List Step) (w : Fated)
    → is_sound w.0 ≡ true
    → is_sound (run_all sha256 steps w).0 ≡ true
unfolding run_all run
run_all-is_sound sha256 [] w h = h
run_all-is_sound sha256 (served controller_id r ∷ steps) w h =
    let m = manager_of controller_id in
    run_all-is_sound sha256 steps (serve sha256 m r w)
      (serve-keeps m (λ x. is_sound x.0) fated_store-Keeps sha256 r w h)
run_all-is_sound sha256 (state_set name state ∷ steps) w h =
    run_all-is_sound sha256 steps (state_of (fated (set_state name state) w))
      (fated-is_sound (set_state name state) (set_state-is_sound name state) w h)
