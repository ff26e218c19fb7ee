-- ===== src/Appstore/Store/Listing.antt =====
-- internal/truenasstore/store.go: what `ListApps` answers with.
use garm_provider_truenas.Base.{◌⊎◌}
use garm_provider_truenas.Base.{
  ◌≡◌, refl, ap, ◌∙◌, List, [], ◌∷◌, Option, none, some, arith, All, In, Result, ok, err, errors_is,
  unmanaged, Outcome, done, follow-done, Bool-cases, Result-cases, inl, inr,
}
use garm_provider_truenas.Base.Text.{Text, text_lt}
use garm_provider_truenas.Kit.{Kit}
use garm_provider_truenas.Provider.{App}
use garm_provider_truenas.Appstore.{plausible_managed_app_name}
use garm_provider_truenas.Appstore.Decode.{ManagedApp, ReadInteger, decode_app}
use garm_provider_truenas.Appstore.Decode.Fixed.{Accepted, decode_app-Accepted}
use garm_provider_truenas.Appstore.Gateway.{Network, validate_callback_host_gateway_app_config}
use garm_provider_truenas.Appstore.Store.{
  AppService, Store, list_apps, list_each, list_found, list_decoded, list_with, sort_names,
  insert_name,
}

insert_name-In :
    (a name : Text) (names : List Text) → (name ≡ a) ⊎ In a names → In a (insert_name name names)
unfolding insert_name
insert_name-In a name [] h = h
insert_name-In a name (other ∷ names) h = elim (Bool-cases (text_lt other name)) [
  | inl later ↦ rw later (swapped h (insert_name-In a name names))
  | inr now ↦ rw now h
]
  where
    swapped :
        (name ≡ a) ⊎ ((other ≡ a) ⊎ In a names)
        → ((name ≡ a) ⊎ In a names → In a (insert_name name names))
        → (other ≡ a) ⊎ In a (insert_name name names)
    swapped (inl e) rest = inr (rest (inl e))
    swapped (inr (inl e)) rest = inl e
    swapped (inr (inr i)) rest = inr (rest (inr i))

pub sort_names-In : (a : Text) (names : List Text) → In a names → In a (sort_names names)
unfolding sort_names
sort_names-In a [] h = h
sort_names-In a (name ∷ names) (inl e) = insert_name-In a name (sort_names names) (inl e)
sort_names-In a (name ∷ names) (inr i) =
    insert_name-In a name (sort_names names) (inr (sort_names-In a names i))

module _ {S : Type 0} (kit : Kit) (net : Network) (read : ReadInteger) (store : Store S)
    (service : AppService S) where
  -- TrueNAS answered with this app when it was asked for an app by name.
  abbrev pub WasShown : ManagedApp → Type 0
  WasShown found =
      (name : Text) × (t t' : S) × (service.get_app_with_config name t ≡ done (some found) t')

  -- A listed app is what an app that TrueNAS showed was decoded as: that app has the fixed profile,
  -- and the host gateway policy of the store.
  abbrev pub IsListed : App → Type 0
  IsListed app =
      (found : ManagedApp) × WasShown found
      × Accepted kit read found app
      × (validate_callback_host_gateway_app_config kit net found store.callback_host_gateway
          ≡ ok tt)

  list_decoded-All :
      (app : ManagedApp) (r : Result App) (later : S → Outcome S (List App)) (s s' : S)
      (apps : List App)
      → WasShown app
      → decode_app kit read app ≡ r
      → ((t t' : S) (rest : List App) → later t ≡ done rest t' → All IsListed rest)
      → list_decoded kit net read store app r later s ≡ done apps s'
      → All IsListed apps
  unfolding list_decoded
  list_decoded-All app (err e) later s s' apps shown d h run =
      elim (Bool-cases (errors_is e unmanaged)) [
        | inl skip ↦ h s s' apps (rw skip at run)
        | inr stop ↦ absurd (ground (arith, stop))
      ]
  list_decoded-All app (ok a) later s s' apps shown d h run =
      elim (Result-cases
        (validate_callback_host_gateway_app_config kit net app store.callback_host_gateway)) [
          | inl (_, v) ↦
              let rest = follow-done (later s) (rw v at run) in
              let same : (a ∷ rest.0) ≡ apps = cc rest.3 in
              rw (← same)
                ((app, shown, decode_app-Accepted kit read app a d, v), h s rest.1 rest.0 rest.2)
          | inr (e, v) ↦ absurd (ground (arith, v))
        ]

  list_found-All :
      (o : Option ManagedApp) (later : S → Outcome S (List App)) (s s' : S) (apps : List App)
      → ((found : ManagedApp) → o ≡ some found → WasShown found)
      → ((t t' : S) (rest : List App) → later t ≡ done rest t' → All IsListed rest)
      → list_found kit net read store o later s ≡ done apps s'
      → All IsListed apps
  unfolding list_found
  list_found-All none later s s' apps shown h run = h s s' apps run
  list_found-All (some app) later s s' apps shown h run =
      list_decoded-All app (decode_app kit read app) later s s' apps (shown app refl) refl h run

  list_each-All :
      (names : List Text) (s s' : S) (apps : List App)
      → list_each kit net read store service names s ≡ done apps s'
      → All IsListed apps
  unfolding list_each
  list_each-All [] s s' apps run = let same : [] ≡ apps = cc run in rw (← same) tt
  list_each-All (name ∷ names) s s' apps run = elim (Bool-cases (plausible_managed_app_name name)) [
    | inr out ↦ list_each-All names s s' apps (rw out at run)
    | inl in_ ↦
        let found = follow-done (service.get_app_with_config name s) (rw in_ at run) in
        list_found-All found.0 (list_each kit net read store service names) found.1 s' apps
          (λ app e. (name, s, found.1, found.2 ∙ ap (λ o. done o found.1) e)) (list_each-All names)
          found.3
  ]

-- Whatever TrueNAS answers, every app that `ListApps` returns is what an app was decoded as that
-- TrueNAS showed when it was asked by name; and that app's document has one service, the runner, with
-- the fixed profile, and passes the host gateway policy of the store.
pub list_apps-All :
    {S : Type 0} (kit : Kit) (net : Network) (read : ReadInteger) (store : Store S)
    (service : AppService S) (s s' : S) (apps : List App)
    → store.apps ≡ some service
    → list_apps kit net read store s ≡ done apps s'
    → All (IsListed kit net read store service) apps
unfolding list_apps list_with
list_apps-All kit net read store service s s' apps is run =
    let names = follow-done (service.list_apps s) (rw is at run) in
    list_each-All kit net read store service (sort_names names.0) names.1 s' apps names.3
