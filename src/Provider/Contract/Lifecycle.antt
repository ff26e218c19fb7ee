-- ===== src/Provider/Contract/Lifecycle.antt =====
-- internal/provider/provider.go: `Create`, `Get`, `Stop` and `Delete` over a client that works.
use garm_provider_truenas.Base.{
  ℕ, ◌≡◌, true, false, List, Option, none, some, arith, if◌then◌else◌, inl, inr, done, failed,
  sentinel, foreign, active, Option-cases, errors_is, ok,
}
use garm_provider_truenas.Base.Text.{Text, codes, text_eq, text_eq_refl, text_eq_iff}
use garm_provider_truenas.Provider.{App, AppSpec, Bootstrap, Instance}
use garm_provider_truenas.Provider.Names.{owned_name}
use garm_provider_truenas.Provider.Manager.{
  Manager, create, delete, validate_bootstrap, to_instance, app_spec,
}
use garm_provider_truenas.Provider.Manager.Trace.{is_retirable}
use garm_provider_truenas.Provider.Contract.{IsStore, Updates, Realizes}

module _ {S : Type 0} (m : Manager S) (Healthy : S → Text → Type 0) (Admits : AppSpec → Type 0)
    (view : S → Text → Option App) (store : IsStore m.client Healthy Admits view) where
  -- If `create` of an admitted app succeeds in a state healthy at its name, then asking once more for
  -- the same runner gives the same instance and leaves the state as the first request left it.
  pub create_twice :
      (sha256 : Text → List ℕ) (input : Bootstrap) (s s' : S) (i : Instance)
      → Healthy s (owned_name sha256 m.controller_id input.name)
      → Admits (app_spec m.controller_id (owned_name sha256 m.controller_id input.name) input)
      → create m sha256 input s ≡ done i s'
      → create m sha256 input s' ≡ done i s'
  unfolding create
  create_twice sha256 input s s' i h fits made =
      let name = owned_name sha256 m.controller_id input.name in
      elim (Option-cases (view s name)) [
        | inl e ↦
            let new =
              store.create-view (app_spec m.controller_id name input) s (unfold app_spec in h) fits
                (unfold app_spec in e) in
            ground (
              arith,
              e,
              new,
              store.get-view name s h,
              store.get-view name new.1 new.4,
              new.5 name,
              text_eq_refl name,
            )
        | inr (app, e) ↦ ground (arith, e, store.get-view name s h)
      ]

  -- In a state healthy at the app's name, with a bootstrap that passes the check, an app that is
  -- admitted and no app under its name, `create` succeeds and leaves a state healthy at that name, in
  -- which that name stands for the app of the instance it returns, with the name, controller and pool
  -- that were asked for, and every other name for what it did before.
  pub create_fresh :
      (sha256 : Text → List ℕ) (input : Bootstrap) (s : S)
      → Healthy s (owned_name sha256 m.controller_id input.name)
      → Admits (app_spec m.controller_id (owned_name sha256 m.controller_id input.name) input)
      → validate_bootstrap input ≡ ok tt
      → view s (owned_name sha256 m.controller_id input.name) ≡ none
      → (app : App) × (s' : S) × (create m sha256 input s ≡ done (to_instance app) s')
        × Realizes
            (app_spec m.controller_id (owned_name sha256 m.controller_id input.name) input)
            app
        × Healthy s' (owned_name sha256 m.controller_id input.name)
        × Updates (view s) (owned_name sha256 m.controller_id input.name) (some app) (view s')
  unfolding create errors_is
  create_fresh sha256 input s h fits valid absent =
      let name = owned_name sha256 m.controller_id input.name in
      let new = store.create-view (app_spec m.controller_id name input) s h fits absent in
      (
        new.0,
        new.1,
        ground (
          arith,
          absent,
          store.get-view name s h,
          text_eq_iff new.0.spec.controller_id m.controller_id,
          text_eq_iff new.0.spec.pool_id input.pool_id,
        ),
        new.3,
        new.4,
        new.5,
      )

  -- In a state healthy at its name, `delete` of an app that is the controller's own and in no active
  -- state succeeds and leaves a state healthy at that name, in which its name stands for nothing and
  -- every other name for what it did before.
  pub delete_retires :
      (provider_id : Text) (s : S) (app : App)
      → Healthy s provider_id
      → view s provider_id ≡ some app
      → is_retirable m.controller_id app ≡ true
      → (s' : S) × (delete m provider_id s ≡ done tt s')
        × Healthy s' provider_id
        × Updates (view s) provider_id none (view s')
  unfolding delete is_retirable codes
  delete_retires provider_id s app h e may =
      let gone = store.delete-view provider_id s app h e in
      (gone.0, ground (arith, store.get-view provider_id s h), gone.2, gone.3)

  -- In a state healthy at its name, `delete` of an app that is another controller's or in an active
  -- state fails, with `ErrForeign` or `ErrActive`, and leaves the state as it is.
  pub delete_refuses :
      (provider_id : Text) (s : S) (app : App)
      → Healthy s provider_id
      → view s provider_id ≡ some app
      → is_retirable m.controller_id app ≡ false
      → delete m provider_id s
        ≡ failed
            (sentinel (if text_eq app.spec.controller_id m.controller_id then active else foreign))
            s
  unfolding delete is_retirable codes
  delete_refuses provider_id s app h e may = ground (arith, store.get-view provider_id s h)
