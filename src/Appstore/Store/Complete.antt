-- ===== src/Appstore/Store/Complete.antt =====
-- internal/truenasstore/store.go: what `ListApps` does not leave out.
use garm_provider_truenas.Base.{
  ◌≡◌, ◌⊎◌, true, List, [], ◌∷◌, Option, none, some, arith, In, Result, ok, err, errors_is,
  unmanaged, Outcome, done, follow-done, Bool-cases, Result-cases, inl, inr,
}
use garm_provider_truenas.Base.Text.{Text}
use garm_provider_truenas.Kit.{Kit}
use garm_provider_truenas.Provider.{App}
use garm_provider_truenas.Appstore.{plausible_managed_app_name}
use garm_provider_truenas.Appstore.Decode.{ManagedApp, ReadInteger, decode_app}
use garm_provider_truenas.Appstore.Gateway.{Network, validate_callback_host_gateway_app_config}
use garm_provider_truenas.Appstore.Store.{
  AppService, Store, list_apps, list_each, list_found, list_decoded, list_with, sort_names,
}
use garm_provider_truenas.Appstore.Store.Listing.{sort_names-In}

module _ {S : Type 0} (kit : Kit) (net : Network) (read : ReadInteger) (store : Store S)
    (a : App) where
  -- An app that is decoded is the head of what is returned; what comes later is returned behind it.
  list_decoded-In :
      (app : ManagedApp) (r : Result App) (later : S → Outcome S (List App)) (s s' : S)
      (apps : List App)
      → list_decoded kit net read store app r later s ≡ done apps s'
      → ((t' : S) (rest : List App) → later s ≡ done rest t' → In a rest) ⊎ (r ≡ ok a)
      → In a apps
  unfolding list_decoded
  list_decoded-In app (err e) later s s' apps run (inr h) = cc
  list_decoded-In app (err e) later s s' apps run (inl h) =
      elim (Bool-cases (errors_is e unmanaged)) [
        | inl skip ↦ h s' apps (rw skip at run)
        | inr stop ↦ absurd (ground (arith, stop))
      ]
  list_decoded-In app (ok b) later s s' apps run h =
      elim (Result-cases
        (validate_callback_host_gateway_app_config kit net app store.callback_host_gateway)) [
          | inl (_, v) ↦
              let rest = follow-done (later s) (rw v at run) in
              let same : (b ∷ rest.0) ≡ apps = cc rest.3 in
              rw (← same) (behind rest.1 rest.0 rest.2 h)
          | inr (e, v) ↦ absurd (ground (arith, v))
        ]
    where
      behind :
          (t : S) (rest : List App)
          → later s ≡ done rest t
          → ((t' : S) (rest : List App) → later s ≡ done rest t' → In a rest) ⊎ (ok b ≡ ok a)
          → (b ≡ a) ⊎ In a rest
      behind t rest e (inl h) = inr (h t rest e)
      behind t rest e (inr h) = inl (cc h)

  list_found-In :
      (o : Option ManagedApp) (later : S → Outcome S (List App)) (s s' : S) (apps : List App)
      → list_found kit net read store o later s ≡ done apps s'
      → ((t' : S) (rest : List App) → later s ≡ done rest t' → In a rest)
        ⊎ ((app : ManagedApp) × (o ≡ some app) × (decode_app kit read app ≡ ok a))
      → In a apps
  unfolding list_found
  list_found-In none later s s' apps run (inl h) = h s' apps run
  list_found-In none later s s' apps run (inr h) = absurd (ground (arith, h.1))
  list_found-In (some app) later s s' apps run (inl h) =
      list_decoded-In app (decode_app kit read app) later s s' apps run (inl h)
  list_found-In (some app) later s s' apps run (inr h) =
      let same : app ≡ h.0 = cc h.1 in
      list_decoded-In app (decode_app kit read app) later s s' apps run (inr (rw same h.2))

  module _ (service : AppService S) (raw : S → Text → Option ManagedApp)
      (reads : (name : Text) (s : S) → service.get_app_with_config name s ≡ done (raw s name) s)
      (name : Text) (app : ManagedApp) (plausible : plausible_managed_app_name name ≡ true)
      (decodes : decode_app kit read app ≡ ok a) where
    list_each-In :
        (names : List Text) (s s' : S) (apps : List App)
        → raw s name ≡ some app
        → In name names
        → list_each kit net read store service names s ≡ done apps s'
        → In a apps
    unfolding list_each
    list_each-In [] s s' apps there h run = absurd h
    list_each-In (n ∷ names) s s' apps there (inl e) run =
        let run' = rw (e, plausible, reads) at run in
        list_found-In (raw s name) (list_each kit net read store service names) s s' apps run'
          (inr (app, there, decodes))
    list_each-In (n ∷ names) s s' apps there (inr i) run =
        elim (Bool-cases (plausible_managed_app_name n)) [
          | inr out ↦ list_each-In names s s' apps there i (rw out at run)
          | inl in_ ↦
              list_found-In (raw s n) (list_each kit net read store service names) s s' apps
                (rw (in_, reads) at run)
                (inl λ t' rest later. list_each-In names s t' rest there i later)
        ]

-- Over a TrueNAS that answers each name with what it keeps, an app that is listed under a plausible
-- name and decodes is returned whenever `ListApps` succeeds.
pub list_apps-In :
    {S : Type 0} (kit : Kit) (net : Network) (read : ReadInteger) (service : AppService S)
    (store : Store S) (raw : S → Text → Option ManagedApp) (names : List Text) (name : Text)
    (app : ManagedApp) (a : App) (s s' : S) (apps : List App)
    → store.apps ≡ some service
    → ((k : Text) (t : S) → service.get_app_with_config k t ≡ done (raw t k) t)
    → service.list_apps s ≡ done names s
    → In name names
    → plausible_managed_app_name name ≡ true
    → raw s name ≡ some app
    → decode_app kit read app ≡ ok a
    → list_apps kit net read store s ≡ done apps s'
    → In a apps
unfolding list_apps list_with
list_apps-In kit net read service store raw names name app a s s' apps linked reads listed i
      plausible there decodes run =
    list_each-In kit net read store a service raw reads name app plausible decodes
      (sort_names names) s s' apps there (sort_names-In name names i) (rw (linked, listed) at run)
