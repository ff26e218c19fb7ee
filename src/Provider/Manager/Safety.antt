-- ===== src/Provider/Manager/Safety.antt =====
-- Every call that `Manager` makes is warranted by what TrueNAS answered before, whatever the client
-- does.
use garm_provider_truenas.Base.{
  ◌≡◌, Bool, true, false, List, [], ◌∷◌, arith, Outcome-cases, state_of, All, All-map, inl, inr, ok,
  ℕ,
}
use garm_provider_truenas.Base.Text.{Text, codes, text_eq_refl}
use garm_provider_truenas.Provider.{App, Client, Bootstrap}
use garm_provider_truenas.Provider.Names.{owned_name}
use garm_provider_truenas.Provider.Manager.{
  Manager, start, Request, create_request, get_request, list_request, delete_request, start_request,
  stop_request, remove_all_request, serve, serve_all, create, delete,
}
use garm_provider_truenas.Provider.Manager.{
  Manager, start, Request, create_request, get_request, list_request, delete_request, start_request,
  stop_request, remove_all_request, serve, serve_all, create, delete, stop, get, list, remove_each,
  remove_all,
}
use garm_provider_truenas.Provider.Manager.Trace.{
  Log, deleted, listed, names_retirable, traced, is_justified, is_retirable, seen_retirable,
}

module _ {S : Type 0} (client : Client S) (controller_id : Text) where
  abbrev pub logged : Manager (S × Log)
  logged = record { client = traced client; controller_id = controller_id }

  pub delete-is_justified :
      (provider_id : Text) (s : S) (log : Log)
      → is_justified controller_id log ≡ true
      → is_justified controller_id (state_of (delete logged provider_id (s, log))).1 ≡ true
  unfolding delete traced is_justified
  delete-is_justified provider_id s log h = ground (arith, text_eq_refl provider_id)

  pub create-is_justified :
      (sha256 : Text → List ℕ) (input : Bootstrap) (s : S) (log : Log)
      → is_justified controller_id log ≡ true
      → is_justified controller_id (state_of (create logged sha256 input (s, log))).1 ≡ true
  unfolding create traced is_justified
  create-is_justified sha256 input s log h = ground (
    arith,
    text_eq_refl (owned_name sha256 controller_id input.name),
    text_eq_refl controller_id,
    text_eq_refl (codes "ALL"),
  )

  pub stop-is_justified :
      (provider_id : Text) (s : S) (log : Log)
      → is_justified controller_id log ≡ true
      → is_justified controller_id (state_of (stop logged provider_id (s, log))).1 ≡ true
  unfolding stop traced is_justified
  stop-is_justified provider_id s log h = ground arith

  pub get-is_justified :
      (provider_id : Text) (s : S) (log : Log)
      → is_justified controller_id log ≡ true
      → is_justified controller_id (state_of (get logged provider_id (s, log))).1 ≡ true
  unfolding get traced is_justified
  get-is_justified provider_id s log h = ground arith

  pub list-is_justified :
      (pool_id : Text) (s : S) (log : Log)
      → is_justified controller_id log ≡ true
      → is_justified controller_id (state_of (list logged pool_id (s, log))).1 ≡ true
  unfolding list traced is_justified
  list-is_justified pool_id s log h = ground arith

  -- The apps that are still to be looked at were all shown by an earlier call.
  abbrev Shown : Log → List App → Type 0
  Shown log = All (λ app.
      is_retirable controller_id app ≡ true → seen_retirable controller_id app.spec.name log ≡ true)

  Shown-deleted :
      (name : Text) (log : Log) (apps : List App) → Shown log apps → Shown (deleted name ∷ log) apps
  unfolding seen_retirable
  Shown-deleted name log [] shown = tt
  Shown-deleted name log (app ∷ apps) shown = (λ h. shown.0 h, Shown-deleted name log apps shown.1)

  remove_each-is_justified :
      (apps : List App) (busy : Bool) (s : S) (log : Log)
      → Shown log apps
      → is_justified controller_id log ≡ true
      → is_justified controller_id (state_of (remove_each logged apps busy (s, log))).1 ≡ true
  unfolding remove_each traced is_justified
  remove_each-is_justified [] busy s log shown h = h
  remove_each-is_justified (app ∷ apps) busy s log shown h = ground (
    arith,
    remove_each-is_justified apps busy s log shown.1,
    remove_each-is_justified apps true s log shown.1,
    remove_each-is_justified apps busy (state_of (client.delete_app app.spec.name s))
        (deleted app.spec.name ∷ log) (Shown-deleted app.spec.name log apps shown.1),
    shown.0,
  )

  names_retirable-Shown :
      (apps : List App)
      → All
          (λ app.
            is_retirable controller_id app ≡ true
            → names_retirable controller_id app.spec.name apps ≡ true)
          apps
  unfolding names_retirable
  names_retirable-Shown [] = tt
  names_retirable-Shown (app ∷ apps) = (
    λ h. ground (arith, text_eq_refl app.spec.name),
    All-map (λ other f h. ground (arith, f h)) apps (names_retirable-Shown apps),
  )

  listed-Shown : (apps : List App) (log : Log) → Shown (listed (ok apps) ∷ log) apps
  unfolding seen_retirable
  listed-Shown apps log =
      All-map (λ other f h. ground (arith, f h)) apps (names_retirable-Shown apps)

  pub remove_all-is_justified :
      (s : S) (log : Log)
      → is_justified controller_id log ≡ true
      → is_justified controller_id (state_of (remove_all logged (s, log))).1 ≡ true
  unfolding remove_all traced is_justified
  remove_all-is_justified s log h = elim (Outcome-cases (client.list_apps s)) [
    | inl (apps, s', e) ↦ ground (
      arith,
      e,
      remove_each-is_justified apps false s' (listed (ok apps) ∷ log) (listed-Shown apps log) h,
    )
    | inr (_, _, e) ↦ ground (arith, e)
  ]

  start-is_justified :
      (provider_id : Text) (s : S) (log : Log)
      → is_justified controller_id log ≡ true
      → is_justified controller_id (state_of (start logged provider_id (s, log))).1 ≡ true
  unfolding start
  start-is_justified provider_id s log h = h

  serve-is_justified :
      (sha256 : Text → List ℕ) (r : Request) (s : S) (log : Log)
      → is_justified controller_id log ≡ true
      → is_justified controller_id (serve sha256 logged r (s, log)).1 ≡ true
  unfolding serve
  serve-is_justified sha256 (create_request input) s log = create-is_justified sha256 input s log
  serve-is_justified sha256 (get_request id) s log = get-is_justified id s log
  serve-is_justified sha256 (list_request id) s log = list-is_justified id s log
  serve-is_justified sha256 (delete_request id) s log = delete-is_justified id s log
  serve-is_justified sha256 (start_request id) s log = start-is_justified id s log
  serve-is_justified sha256 (stop_request id) s log = stop-is_justified id s log
  serve-is_justified sha256 remove_all_request s log = remove_all-is_justified s log

  -- Through any sequence of requests, against any client, and after any calls for which this held
  -- before: every app that the manager creates is
  -- confined, carries the controller's identity and was reported absent under its name by the call
  -- just before; and every app that it deletes was shown to it before as the controller's own and
  -- in no active state.
  pub serve_all-is_justified :
      (sha256 : Text → List ℕ) (rs : List Request) (s : S) (log : Log)
      → is_justified controller_id log ≡ true
      → is_justified controller_id (serve_all sha256 logged rs (s, log)).1 ≡ true
  unfolding serve_all
  serve_all-is_justified sha256 [] s log h = h
  serve_all-is_justified sha256 (r ∷ rs) s log h =
      let after = serve sha256 logged r (s, log) in
      serve_all-is_justified sha256 rs after.0 after.1 (serve-is_justified sha256 r s log h)
