-- ===== src/Provider/Manager/Keeps.antt =====
-- internal/provider/provider.go: what the client's operations keep of the state, every request to
-- the manager keeps.
use garm_provider_truenas.Base.{
  ℕ, ◌≡◌, Bool, true, false, List, [], ◌∷◌, arith, state_of, Outcome-cases, inl, inr, ok, err,
  Result, Result-cases,
}
use garm_provider_truenas.Base.Text.{Text, codes}
use garm_provider_truenas.Provider.{App, AppSpec, Bootstrap, Client}
use garm_provider_truenas.Provider.Names.{owned_name}
use garm_provider_truenas.Provider.Manager.{
  Manager, Request, create_request, get_request, list_request, delete_request, start_request,
  stop_request, remove_all_request, validate_bootstrap, verify_ownership, admit, create_absent,
  create_found, create, get, list, delete_found, delete, start, stop, remove_each, remove_all,
  serve, app_spec,
}

-- Each operation of a client keeps a test of the state, whether it fails or not.
pub record Keeps {S : Type 0} (client : Client S) (good : S → Bool) : Type 0 where
  pub create_app-keeps :
      (spec : AppSpec) (s : S) → good s ≡ true → good (state_of (client.create_app spec s)) ≡ true
  pub get_app-keeps :
      (name : Text) (s : S) → good s ≡ true → good (state_of (client.get_app name s)) ≡ true
  pub list_apps-keeps : (s : S) → good s ≡ true → good (state_of (client.list_apps s)) ≡ true
  pub delete_app-keeps :
      (name : Text) (s : S) → good s ≡ true → good (state_of (client.delete_app name s)) ≡ true

module _ {S : Type 0} (m : Manager S) (good : S → Bool) (keeps : Keeps m.client good) where
  admit-state : (pool_id : Text) (app : App) (s : S) → state_of (admit m pool_id app s) ≡ s
  unfolding admit verify_ownership
  admit-state pool_id app s = ground arith

  create_absent-keeps :
      (name : Text) (input : Bootstrap) (s : S)
      → good s ≡ true
      → good (state_of (create_absent m name input s)) ≡ true
  unfolding create_absent
  create_absent-keeps name input s h =
      let spec = app_spec m.controller_id name input in
      elim (Outcome-cases (m.client.create_app spec s)) [
        | inl (app, s', e) ↦
            ground (arith, e, keeps.create_app-keeps spec s h, admit-state input.pool_id app s')
        | inr (_, _, e) ↦ ground (arith, e, keeps.create_app-keeps spec s h)
      ]

  create_found-keeps :
      (name : Text) (input : Bootstrap) (found : Result App) (s : S)
      → good s ≡ true
      → good (state_of (create_found m name input found s)) ≡ true
  unfolding create_found
  create_found-keeps name input (ok app) s h = ground (arith, admit-state input.pool_id app s)
  create_found-keeps name input (err e) s h = ground (arith, create_absent-keeps name input s h)

  create-keeps :
      (sha256 : Text → List ℕ) (input : Bootstrap) (s : S)
      → good s ≡ true
      → good (state_of (create m sha256 input s)) ≡ true
  unfolding create
  create-keeps sha256 input s h =
      let name = owned_name sha256 m.controller_id input.name in
      let kept = keeps.get_app-keeps name s h in
      elim (Result-cases (validate_bootstrap input)) [
        | inr (_, bad) ↦ ground (arith, bad)
        | inl (_, fine) ↦ elim (Outcome-cases (m.client.get_app name s)) [
          | inl (app, s', e) ↦
              ground (arith, fine, e, kept, create_found-keeps name input (ok app) s')
          | inr (why, s', e) ↦
              ground (arith, fine, e, kept, create_found-keeps name input (err why) s')
        ]
      ]

  get-keeps : (id : Text) (s : S) → good s ≡ true → good (state_of (get m id s)) ≡ true
  unfolding get
  get-keeps id s h = elim (Outcome-cases (m.client.get_app id s)) [
    | inl (app, s', e) ↦
        ground (arith, e, keeps.get_app-keeps id s h, admit-state (codes "") app s')
    | inr (_, _, e) ↦ ground (arith, e, keeps.get_app-keeps id s h)
  ]

  list-keeps : (id : Text) (s : S) → good s ≡ true → good (state_of (list m id s)) ≡ true
  unfolding list
  list-keeps id s h = elim (Outcome-cases (m.client.list_apps s)) [
    | inl (_, _, e) ↦ ground (arith, e, keeps.list_apps-keeps s h)
    | inr (_, _, e) ↦ ground (arith, e, keeps.list_apps-keeps s h)
  ]

  delete_found-keeps :
      (id : Text) (found : Result App) (s : S)
      → good s ≡ true
      → good (state_of (delete_found m id found s)) ≡ true
  unfolding delete_found verify_ownership
  delete_found-keeps id (ok app) s h = ground (arith, keeps.delete_app-keeps id s h)
  delete_found-keeps id (err e) s h = ground arith

  delete-keeps : (id : Text) (s : S) → good s ≡ true → good (state_of (delete m id s)) ≡ true
  unfolding delete
  delete-keeps id s h = elim (Outcome-cases (m.client.get_app id s)) [
    | inl (app, s', e) ↦
        ground (arith, e, keeps.get_app-keeps id s h, delete_found-keeps id (ok app) s')
    | inr (why, s', e) ↦
        ground (arith, e, keeps.get_app-keeps id s h, delete_found-keeps id (err why) s')
  ]

  stop-keeps : (id : Text) (s : S) → good s ≡ true → good (state_of (stop m id s)) ≡ true
  unfolding stop verify_ownership
  stop-keeps id s h = elim (Outcome-cases (m.client.get_app id s)) [
    | inl (_, _, e) ↦ ground (arith, e, keeps.get_app-keeps id s h)
    | inr (_, _, e) ↦ ground (arith, e, keeps.get_app-keeps id s h)
  ]

  remove_each-keeps :
      (apps : List App) (busy : Bool) (s : S)
      → good s ≡ true
      → good (state_of (remove_each m apps busy s)) ≡ true
  unfolding remove_each
  remove_each-keeps [] busy s h = h
  remove_each-keeps (app ∷ apps) busy s h =
      let kept = keeps.delete_app-keeps app.spec.name s h in
      elim (Outcome-cases (m.client.delete_app app.spec.name s)) [
        | inl (_, s', e) ↦ ground (
          arith,
          e,
          kept,
          remove_each-keeps apps busy s,
          remove_each-keeps apps true s,
          remove_each-keeps apps busy s',
        )
        | inr (_, s', e) ↦ ground (
          arith,
          e,
          kept,
          remove_each-keeps apps busy s,
          remove_each-keeps apps true s,
          remove_each-keeps apps busy s',
        )
      ]

  remove_all-keeps : (s : S) → good s ≡ true → good (state_of (remove_all m s)) ≡ true
  unfolding remove_all
  remove_all-keeps s h =
      let kept = keeps.list_apps-keeps s h in
      elim (Outcome-cases (m.client.list_apps s)) [
        | inr (_, _, e) ↦ ground (arith, e, kept)
        | inl (apps, s', e) ↦
            let swept = remove_each-keeps apps false s' (rw e at kept) in
            elim (Outcome-cases (remove_each m apps false s')) [
              | inl (_, _, d) ↦ ground (arith, e, d, swept)
              | inr (_, _, d) ↦ ground (arith, e, d, swept)
            ]
      ]

  pub serve-keeps :
      (sha256 : Text → List ℕ) (r : Request) (s : S)
      → good s ≡ true
      → good (serve sha256 m r s) ≡ true
  unfolding serve start
  serve-keeps sha256 (create_request input) s h = create-keeps sha256 input s h
  serve-keeps sha256 (get_request id) s h = get-keeps id s h
  serve-keeps sha256 (list_request id) s h = list-keeps id s h
  serve-keeps sha256 (delete_request id) s h = delete-keeps id s h
  serve-keeps sha256 (start_request id) s h = h
  serve-keeps sha256 (stop_request id) s h = stop-keeps id s h
  serve-keeps sha256 remove_all_request s h = remove_all-keeps s h
