-- ===== src/Mockstore/Sweep.antt =====
-- internal/provider's `RemoveAll` over internal/mockstore.
use garm_provider_truenas.Base.{
  ◌≡◌, raise, return, ◌∙◌, refl, Bool, true, false, ◌&&◌, ◌||◌, List, [], ◌∷◌, Option, none, some,
  arith, done, failed, Bool-cases, inl, inr, if◌then◌else◌, any, sentinel, active,
}
use garm_provider_truenas.Base.Text.{Text, text_eq, text_eq_iff}
use garm_provider_truenas.Base.Dict.{Dict, lookup, values}
use garm_provider_truenas.Provider.{App}
use garm_provider_truenas.Provider.Manager.{Manager, is_active, remove_each, remove_all}
use garm_provider_truenas.Provider.Manager.Trace.{is_retirable}
use garm_provider_truenas.Mockstore.{Disk, load, list_apps, store}
use garm_provider_truenas.Mockstore.Laws.{apps_of, is_healthy, view, delete_app-view}
use garm_provider_truenas.Mockstore.Invariant.{is_keyed, is_sound, is_none}

-- What a sweep of a controller leaves of an entry.
unfoldable pub left_by : Text → Option App → Option App
unfolding is_retirable
left_by controller_id none = none
left_by controller_id (some app) = if is_retirable controller_id app then none else some app

-- An app of the controller's that may not go.
unfoldable pub is_busy : Text → App → Bool
unfolding is_active
is_busy controller_id app = text_eq app.spec.controller_id controller_id && is_active app.state

-- Whether a list has an app of that name that may go.
unfoldable pub goes : Text → Text → List App → Bool
unfolding is_retirable
goes controller_id name [] = false
goes controller_id name (app ∷ apps) =
    (is_retirable controller_id app && text_eq app.spec.name name) || goes controller_id name apps

goes-absent :
    (controller_id name : Text) (apps : Dict App)
    → is_keyed apps ≡ true
    → lookup name apps ≡ none
    → goes controller_id name (values apps) ≡ false
unfolding goes values is_keyed lookup
goes-absent c name [] h e = refl
goes-absent c name ((j, app) ∷ apps) h e =
    ground (arith, text_eq_iff app.spec.name j, goes-absent c name apps)

goes-values :
    (controller_id name : Text) (apps : Dict App)
    → is_keyed apps ≡ true
    → (if goes controller_id name (values apps) then none else lookup name apps)
      ≡ left_by controller_id (lookup name apps)
unfolding goes values is_keyed lookup left_by is_none
goes-values c name [] h = refl
goes-values c name ((j, app) ∷ apps) h = ground (
  arith,
  text_eq_iff app.spec.name j,
  text_eq_iff j name,
  goes-values c name apps,
  goes-absent c name apps,
)

or_true : (b : Bool) → (b || true) ≡ true
or_true true = refl
or_true false = refl

load-healthy : (d : Disk) → is_healthy d ≡ true → load d ≡ done (apps_of d.file) d
unfolding is_healthy load apps_of
load-healthy d h = ground arith

list_apps-healthy :
    (d : Disk) → is_healthy d ≡ true → list_apps d ≡ done (values (apps_of d.file)) d
unfolding list_apps
list_apps-healthy d h = rw (load-healthy d h) refl

-- The end of the sweep.
raise_if :
    (b : Bool) (d : Disk)
    → (if b then raise {S = Disk} {A = Unit {0}} (sentinel active) else return tt) d
      ≡ (if b then failed (sentinel active) d else done tt d)
raise_if true d = refl
raise_if false d = refl

module _ (controller_id : Text) where
  -- The manager over the file.
  abbrev pub over : Manager Disk
  over = record { client = store; controller_id = controller_id }

  remove_each-view :
      (apps : List App) (busy : Bool) (d : Disk)
      → is_healthy d ≡ true
      → (d' : Disk) × (remove_each over apps busy d
          ≡ done (busy || any (is_busy controller_id) apps) d')
        × (is_healthy d' ≡ true)
        × ((name : Text)
            → view d' name ≡ (if goes controller_id name apps then none else view d name))
  unfolding remove_each any is_busy goes is_retirable
  remove_each-view [] busy d h = (d, ground arith, h, λ name. refl)
  remove_each-view (app ∷ apps) busy d h =
      elim (Bool-cases (text_eq app.spec.controller_id controller_id)) [
        | inr foreign ↦ rw foreign (remove_each-view apps busy d h)
        | inl own ↦ elim (Bool-cases (is_active app.state)) [
          | inl stays ↦
              let rest = remove_each-view apps true d h in
              (
                rest.0,
                rw (own, stays, rest.1, or_true busy) refl,
                rest.2,
                λ name. rw (own, stays) (rest.3 name),
              )
          | inr gone ↦
              let deleted = delete_app-view app.spec.name d h in
              let rest = remove_each-view apps busy deleted.0 deleted.2 in
              (
                rest.0,
                rw (own, gone, deleted.1, rest.1) refl,
                rest.2,
                λ name. ground (arith, own, gone, rest.3 name, deleted.3 name),
              )
        ]
      ]

  -- Over a file that can be read, parsed and replaced, in which each app stands once, under its own
  -- name: `RemoveAll` takes out exactly the apps of its controller that are in no active state, leaves
  -- every other entry, and fails with `ErrActive` exactly if the controller has an app in an active
  -- state, once it has tried all.
  pub remove_all-view :
      (d : Disk)
      → is_healthy d ≡ true
      → is_sound d ≡ true
      → (d' : Disk) × (remove_all over d ≡ (
          if any (is_busy controller_id) (values (apps_of d.file))
          then failed (sentinel active) d'
          else done tt d'))
        × ((name : Text) → view d' name ≡ left_by controller_id (view d name))
  unfolding remove_all is_sound view
  remove_all-view d h sound =
      let apps = apps_of d.file in
      let swept = remove_each-view (values apps) false d h in
      (
        swept.0,
        rw (list_apps-healthy d h, swept.1)
            (raise_if (any (is_busy controller_id) (values apps)) swept.0),
        λ name. swept.3 name ∙ goes-values controller_id name apps sound,
      )
