-- ===== src/Provider/Contract.antt =====
-- What the manager may rely on of a client that works: at the names at which a state is
-- healthy the client is a map from names to apps.
pub mod Lifecycle
use garm_provider_truenas.Base.{
  ◌≡◌, Bool, true, Option, none, some, Outcome, done, failed, sentinel, not_found, if◌then◌else◌,
}
use garm_provider_truenas.Base.Text.{Text, text_eq}
use garm_provider_truenas.Provider.{App, AppSpec, Client}

abbrev pub found : {S : Type 0} → Option App → S → Outcome S App
found none s = failed (sentinel not_found) s
found (some app) s = done app s

-- A map in which one name has been given another entry.
abbrev pub Updates : (Text → Option App) → Text → Option App → (Text → Option App) → Type 0
Updates old name entry new = (k : Text) → new k ≡ (if text_eq name k then entry else old k)

-- What TrueNAS reports of an app agrees with what was asked for.
pub record Realizes (spec : AppSpec) (app : App) : Type 0 where
  pub same_name : app.spec.name ≡ spec.name
  pub same_controller : app.spec.controller_id ≡ spec.controller_id
  pub same_pool : app.spec.pool_id ≡ spec.pool_id

-- A client that works is a map, for every name at which a state is healthy, and creates what it
-- admits.
pub record IsStore {S : Type 0} (client : Client S) (Healthy : S → Text → Type 0)
    (Admits : AppSpec → Type 0) (view : S → Text → Option App) : Type 0 where
  pub get-view :
      (name : Text) (s : S) → Healthy s name → client.get_app name s ≡ found (view s name) s
  pub create-view :
      (spec : AppSpec) (s : S)
      → Healthy s spec.name
      → Admits spec
      → view s spec.name ≡ none
      → (app : App) × (s' : S) × (client.create_app spec s ≡ done app s')
        × Realizes spec app
        × Healthy s' spec.name
        × Updates (view s) spec.name (some app) (view s')
  pub delete-view :
      (name : Text) (s : S) (app : App)
      → Healthy s name
      → view s name ≡ some app
      → (s' : S) × (client.delete_app name s ≡ done tt s')
        × Healthy s' name
        × Updates (view s) name none (view s')
