-- ===== src/Appstore/Store/Refine.antt =====
-- internal/truenasstore/store.go: the store over a TrueNAS that keeps what it is sent, as the map of
-- Provider.Contract.
use garm_provider_truenas.Base.{◌∙◌, ap}
use garm_provider_truenas.Base.{
  ◌≡◌, refl, sym, subst, Bool, true, false, Option, none, some, arith, ok, done, [], if◌then◌else◌,
  Option-cases, inl, inr,
}
use garm_provider_truenas.Base.Int.{pos, decimal}
use garm_provider_truenas.Base.Json.{object, Fields}
use garm_provider_truenas.Base.Text.{Text, codes, text_eq, text_eq_refl}
use garm_provider_truenas.Kit.{Kit}
use garm_provider_truenas.Provider.{App, AppSpec, general_cpu, general_memory_bytes}
use garm_provider_truenas.Provider.Contract.{IsStore, Updates, Realizes, found}
use garm_provider_truenas.Appstore.{map_state}
use garm_provider_truenas.Appstore.Decode.{ManagedApp, ReadInteger, decode_app}
use garm_provider_truenas.Appstore.Gateway.{Network}
use garm_provider_truenas.Appstore.Gateway.Policy.{sent}
use garm_provider_truenas.Appstore.Store.{
  AppService, JobCaller, Store, delete_arguments, client, get_app, create_app, delete_app,
}
use garm_provider_truenas.Appstore.Store.Sent.{
  IsReadable, IsAdmitted, seen_as, shown, entry_of, compose_config-kept, apply-sent, reads_sent,
  validates_sent, decode-sent,
}
use garm_provider_truenas.Appstore.Store.{
  get_found, get_decoded, get_with, create_with, delete_with,
}

-- A TrueNAS that keeps a custom app under its name with the document it was sent, in some state, and
-- that takes an app away with all it keeps of it.
pub record Keeps {S : Type 0} (kit : Kit) (service : AppService S) (jobs : JobCaller S)
    (raw : S → Text → Option ManagedApp) : Type 0 where
  pub get-raw : (name : Text) (s : S) → service.get_app_with_config name s ≡ done (raw s name) s
  pub create-raw :
      (name document : Text) (fields : Fields) (s : S)
      → kit.json.unmarshal document ≡ some (object fields)
      → raw s name ≡ none
      → (state : Text) × (s' : S) × (service.create_app name document s ≡ done tt s')
        × ((k : Text)
            → raw s' k ≡ (
                if text_eq name k
                then some (record { name = name; state = state; config = some fields })
                else raw s k))
  pub delete-raw :
      (name : Text) (app : ManagedApp) (s : S)
      → raw s name ≡ some app
      → (s' : S) × (jobs.call_and_wait (codes "app.delete") (delete_arguments name) s ≡ done tt s')
        × ((k : Text) → raw s' k ≡ (if text_eq name k then none else raw s k))

module _ {S : Type 0} (kit : Kit) (net : Network) (read : ReadInteger) (gateway : Bool)
    (service : AppService S) (jobs : JobCaller S) where
  -- The store over them.
  abbrev pub linked : Store S
  linked = record { apps = some service; caller = some jobs; callback_host_gateway = gateway }

  get_found-shown :
      (o : Option ManagedApp) (s : S)
      → IsReadable kit net read gateway o
      → get_found kit net read linked o s ≡ found (shown kit net read gateway o) s
  unfolding get_found get_decoded shown seen_as
  get_found-shown none s h = refl
  get_found-shown (some app) s h = rw (h.1, h.2) refl

  module _ (raw : S → Text → Option ManagedApp) (truenas : Keeps kit service jobs raw) where
    -- The map from names to apps that the store shows.
    abbrev pub view : S → Text → Option App
    view s name = shown kit net read gateway (raw s name)

    abbrev pub Healthy : S → Text → Type 0
    Healthy s name = IsReadable kit net read gateway (raw s name)

    get_app-view :
        (name : Text) (s : S)
        → Healthy s name
        → get_app kit net read linked name s ≡ found (view s name) s
    unfolding get_app get_with
    get_app-view name s h = rw (truenas.get-raw name s) (get_found-shown (raw s name) s h)

    raw-none :
        (o : Option ManagedApp)
        → IsReadable kit net read gateway o
        → shown kit net read gateway o ≡ none
        → o ≡ none
    unfolding shown seen_as
    raw-none none h e = refl
    raw-none (some app) h e = absurd (ground (arith, h.1, e))

    shown-decoded :
        (app : ManagedApp) (a : App)
        → decode_app kit read app ≡ ok a
        → shown kit net read gateway (some app) ≡ some a
    unfolding shown seen_as
    shown-decoded app a h = rw h refl

    -- An update of what TrueNAS keeps is an update of what the store shows.
    shown-if :
        (b : Bool) (new old : Option ManagedApp)
        → shown kit net read gateway (if b then new else old)
          ≡ (if b then shown kit net read gateway new else shown kit net read gateway old)
    shown-if true new old = refl
    shown-if false new old = refl

    module _ (reads_cpu : read (decimal (pos general_cpu)) ≡ some (pos general_cpu))
        (reads_memory : read (decimal (pos general_memory_bytes))
          ≡ some (pos general_memory_bytes)) where
      create_app-view :
          (spec : AppSpec) (s : S)
          → Healthy s spec.name
          → IsAdmitted kit net read gateway spec
          → view s spec.name ≡ none
          → (app : App) × (s' : S) × (create_app kit net read linked spec s ≡ done app s')
            × Realizes spec app
            × Healthy s' spec.name
            × Updates (view s) spec.name (some app) (view s')
      unfolding create_app create_with
      create_app-view spec s h fits fresh =
          let entry = entry_of kit net read gateway gateway spec fits.sendable in
          let fields = sent kit gateway spec entry in
          let new =
            truenas.create-raw spec.name (kit.json.marshal (object fields)) fields s
              (reads_sent kit net read gateway gateway spec fits.sendable fits.reads_back)
              (raw-none (raw s spec.name) h fresh) in
          let kept_app : ManagedApp = record {
            name = spec.name;
            state = new.0;
            config = some fields;
          } in
          let app : App = record {
            spec = record spec { bootstrap_token = [] };
            state = map_state new.0;
          } in
          let there : raw new.1 spec.name ≡ some kept_app =
            rw (new.3 spec.name, text_eq_refl spec.name) refl in
          let decoded : decode_app kit read kept_app ≡ ok app =
            decode-sent kit net read gateway reads_cpu reads_memory gateway spec entry new.0 fits in
          let valid =
            validates_sent kit net read gateway gateway spec fits.sendable spec.name new.0 in
          let healthy : Healthy new.1 spec.name =
            subst (IsReadable kit net read gateway) (sym there) (app, decoded, valid) in
          let visible : view new.1 spec.name ≡ some app =
            rw there (shown-decoded kept_app app decoded) in
          (
            app,
            new.1,
            rw
                (
                  compose_config-kept kit net read gateway spec fits.fixed,
                  apply-sent kit net read gateway gateway spec fits.sendable fits.reads_back,
                  new.2,
                )
                (get_app-view spec.name new.1 healthy ∙ ap (λ v. found v new.1) visible),
            record { same_name = refl; same_controller = refl; same_pool = refl },
            healthy,
            λ k. rw (new.3 k, shown-if) (rw (shown-decoded kept_app app decoded) refl),
          )

      delete_app-view :
          (name : Text) (s : S) (app : App)
          → Healthy s name
          → view s name ≡ some app
          → (s' : S) × (delete_app kit net read linked name s ≡ done tt s')
            × Healthy s' name
            × Updates (view s) name none (view s')
      unfolding delete_app delete_with shown
      delete_app-view name s app h e = elim (Option-cases (raw s name)) [
        | inl gone ↦ absurd (ground (arith, gone, e))
        | inr (kept_app, there) ↦
            let new = truenas.delete-raw name kept_app s there in
            let left : raw new.0 name ≡ none = rw (new.2 name, text_eq_refl name) refl in
            (
              new.0,
              new.1,
              subst (IsReadable kit net read gateway) (sym left) tt,
              λ k. rw (new.2 k, shown-if) refl,
            )
      ]

      -- Over a TrueNAS that keeps the documents it is sent and answers with them, the store is a map
      -- from names to apps, at every name under which there is no app or one that it decodes and
      -- whose gateway policy is as it is set: `GetApp` looks the name up, `CreateApp` of an admitted
      -- specification enters an app with its name, controller and pool, and `DeleteApp` takes out
      -- its name alone. Admitted are the specifications of the fixed profile with labels that have
      -- no blanks around them and texts that are not blank, whose document the JSON library reads
      -- back and whose URLs, if the policy is on, share a hostname.
      pub linked-IsStore :
          IsStore (client kit net read linked) Healthy (IsAdmitted kit net read gateway) view
      linked-IsStore = record {
        get-view = get_app-view;
        create-view = create_app-view;
        delete-view = delete_app-view;
      }
