-- ===== src/Mockstore/Laws.antt =====
-- internal/mockstore/mockstore.go: the operations against the map of apps that the file stands for.
use garm_provider_truenas.Base.{
  ◌≡◌, refl, Bool, true, false, ◌&&◌, [], Option, none, some, arith, Outcome, done, failed,
  Option-cases, inl, inr,
}
use garm_provider_truenas.Base.Text.{Text, text_eq_iff}
use garm_provider_truenas.Base.Dict.{
  insert, erase, Dict, lookup, lookup-nil, lookup-insert, lookup-erase,
}
use garm_provider_truenas.Provider.{App, AppSpec, State, state_running}
use garm_provider_truenas.Provider.Contract.{IsStore, Updates, found}
use garm_provider_truenas.Mockstore.{store}
use garm_provider_truenas.Mockstore.{
  Content, malformed, encoded, Disk, create_app, get_app, delete_app, set_state, store,
}

-- An error leaves the file as it was, also where the write of its successor succeeded.
abbrev pub Atomic {ℓ} : {A : Type ℓ} → Disk → Outcome Disk A → Type 0
Atomic d (done a d') = Unit {0}
Atomic d (failed e d') = d'.file ≡ d.file

-- A creation that fails, at whatever call, leaves the content of the store's file as it was.
pub create_app-Atomic : (spec : AppSpec) (d : Disk) → Atomic d (create_app spec d)
unfolding create_app
create_app-Atomic spec d = ground arith

pub delete_app-Atomic : (name : Text) (d : Disk) → Atomic d (delete_app name d)
unfolding delete_app
delete_app-Atomic name d = ground arith

pub set_state-Atomic : (name : Text) (state : State) (d : Disk) → Atomic d (set_state name state d)
unfolding set_state
set_state-Atomic name state d = ground arith

unfoldable pub is_parsed : Option Content → Bool
is_parsed (some malformed) = false
is_parsed _ = true

unfoldable pub apps_of : Option Content → Dict App
apps_of (some (encoded apps)) = apps
apps_of _ = []

-- The file can be read and replaced, and what it holds can be parsed.
unfoldable pub is_healthy : Disk → Bool
unfolding is_parsed
is_healthy d = d.can_read && d.can_mkdir && d.can_write && d.can_rename && is_parsed d.file

-- The apps that the file stands for.
unfoldable pub view : Disk → Text → Option App
unfolding apps_of
view d name = lookup name (apps_of d.file)

-- The disk once the file has been replaced.
abbrev rewritten : Dict App → Disk → Disk
rewritten apps d = record d { file = some (encoded apps); tmp = none }

view-insert :
    (name : Text) (app : App) (d : Disk)
    → Updates (view d) name (some app) (view (rewritten (insert name app (apps_of d.file)) d))
unfolding view
view-insert name app d k = lookup-insert name k app (apps_of d.file)

view-erase :
    (name : Text) (d : Disk)
    → Updates (view d) name none (view (rewritten (erase name (apps_of d.file)) d))
unfolding view
view-erase name d k = lookup-erase name k (apps_of d.file)

rewritten-healthy :
    (apps : Dict App) (d : Disk) → is_healthy d ≡ true → is_healthy (rewritten apps d) ≡ true
unfolding is_healthy
rewritten-healthy apps d h = ground arith

get_app-view :
    (name : Text) (d : Disk) → is_healthy d ≡ true → get_app name d ≡ found (view d name) d
unfolding is_healthy view get_app
get_app-view name d h = ground (arith, lookup-nil {V = App} name)

create_app-view :
    (spec : AppSpec) (d : Disk)
    → is_healthy d ≡ true
    → view d spec.name ≡ none
    → let app : App = record { spec = spec; state = state_running } in
      create_app spec d ≡ done app (rewritten (insert spec.name app (apps_of d.file)) d)
unfolding is_healthy view create_app
create_app-view spec d h fresh = ground arith

pub delete_app-view :
    (name : Text) (d : Disk)
    → is_healthy d ≡ true
    → (s : Disk) × (delete_app name d ≡ done tt s)
      × (is_healthy s ≡ true)
      × Updates (view d) name none (view s)
unfolding is_healthy
delete_app-view name d h = elim (Option-cases (view d name)) [
  | inl e ↦ (
    d,
    unfold delete_app view in ground (arith, lookup-nil {V = App} name),
    h,
    λ k. ground (arith, e, text_eq_iff name k),
  )
  | inr (app, e) ↦ (
    rewritten (erase name (apps_of d.file)) d,
    unfold delete_app view in ground (arith, lookup-nil {V = App} name),
    ground arith,
    view-erase name d,
  )
]

-- While the file can be read, parsed and replaced, the store is a map from names to apps: `GetApp`
-- looks a name up, `CreateApp` enters an app with the given identity under a name that is free, and
-- `DeleteApp` takes out its name alone; the last two succeed and keep the store in that condition.
pub store-IsStore : IsStore store (λ d name. is_healthy d ≡ true) (λ spec. Unit {0}) view
store-IsStore = record {
  get-view = get_app-view;
  create-view = λ spec d h admitted fresh.
      let app : App = record { spec = spec; state = state_running } in
      let made : Dict App = insert spec.name app (apps_of d.file) in
      (
        app,
        rewritten made d,
        create_app-view spec d h fresh,
        record { same_name = refl; same_controller = refl; same_pool = refl },
        rewritten-healthy made d h,
        view-insert spec.name app d,
      );
  delete-view = λ name d app h e. delete_app-view name d h;
}
