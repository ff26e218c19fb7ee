-- ===== src/Vm/Manager/Safety.antt =====
-- Every call that the VM backend makes is warranted by what the middleware answered before,
-- whatever the middleware does.
use garm_provider_truenas.Base.{
  ◌≡◌, Bool, true, false, List, [], ◌∷◌, arith, Outcome, state_of, inl, inr, ok, any, Result-cases,
  Outcome-cases,
}
use garm_provider_truenas.Base.Int.{int_eq_refl}
use garm_provider_truenas.Base.Text.{Text, codes, text_eq_refl}
use garm_provider_truenas.Provider.{Bootstrap, Instance}
use garm_provider_truenas.Kit.{Kit}
use garm_provider_truenas.Ownership.{Ownership}
use garm_provider_truenas.Vm.{Vm, Template, Client, template_family}
use garm_provider_truenas.Vm.Seed.{owned_name, seed_for}
use garm_provider_truenas.Vm.Manager.{
  Manager, find_in, find_owned, create, delete, stop, reconcile_bootstrap, get, list, boot,
  clone_and_boot, clone_spec, create_absent, verify_template, remove_each, remove_all,
}
use garm_provider_truenas.Vm.Manager.Trace.{
  Log, resolved, cloned, inspected, traced, is_owned, is_justified, is_bare, is_idle, is_busy,
  is_seeded,
}

module _ {S : Type 0} (kit : Kit) (m : Manager S) where
  -- The VM that `find_in` picks was in the list, and is owned.
  find_in-any :
      (provider_id : Text) (vms : List Vm) (vm : Vm) (o : Ownership) (p : Vm → Bool)
      → find_in kit m provider_id vms ≡ ok (vm, o)
      → (is_owned kit m vm.id vm ≡ true → p vm ≡ true)
      → any p vms ≡ true
  unfolding find_in any is_owned
  find_in-any provider_id [] vm o p h keeps = cc
  find_in-any provider_id (v ∷ vms) vm o p h keeps =
      ground (arith, int_eq_refl vm.id, find_in-any provider_id vms vm o p)

module _ {S : Type 0} (kit : Kit) (client : Client S) (controller_id system_version : Text) where
  abbrev pub logged : Manager (S × Log)
  logged = record {
    client = traced client;
    controller_id = controller_id;
    system_version = system_version;
  }

  abbrev pub Keeps {ℓ} : {A : Type ℓ} → (S × Log → Outcome (S × Log) A) → Type 0
  Keeps run =
      (s : S) (log : Log)
      → is_justified kit logged log ≡ true
      → is_justified kit logged (state_of (run (s, log))).1 ≡ true

  boot-is_justified :
      (name : Text) (input : Bootstrap) (vm : Vm) → Keeps (boot kit logged name input vm)
  unfolding boot traced is_justified
  boot-is_justified name input vm s log h =
      elim (Outcome-cases (client.stage_seed vm.id (seed_for kit input name) s)) [
        | inl (ref, s', e) ↦ ground (arith, e, int_eq_refl vm.id, text_eq_refl ref)
        | inr (_, _, e) ↦ ground (arith, e)
      ]

  clone_and_boot-is_justified :
      (name : Text) (input : Bootstrap) (template : Template)
      → verify_template template ≡ ok tt
      → (s : S) (log : Log) → is_justified kit logged (resolved (ok template) ∷ log) ≡ true
      → is_justified kit logged
          (state_of
            (clone_and_boot kit logged name input template (s, resolved (ok template) ∷ log))).1
        ≡ true
  unfolding clone_and_boot traced is_justified verify_template
  clone_and_boot-is_justified name input template exact s log h =
      elim (Outcome-cases (client.clone template.id (clone_spec kit logged name input) s)) [
        | inl (vm, s', e) ↦ ground (
          arith,
          e,
          int_eq_refl template.id,
          boot-is_justified name input vm s' (
              cloned template.id (clone_spec kit logged name input) ∷ resolved (ok template) ∷ log),
        )
        | inr (_, _, e) ↦ ground (arith, e, int_eq_refl template.id)
      ]

  create_absent-is_justified :
      (name : Text) (input : Bootstrap) → Keeps (create_absent kit logged name input)
  unfolding create_absent traced is_justified
  create_absent-is_justified name input s log h =
      elim (Outcome-cases (client.resolve_template template_family s)) [
        | inl (template, s', e) ↦ elim (Result-cases (verify_template template)) [
          | inl (_, f) ↦
              ground (arith, e, f, clone_and_boot-is_justified name input template f s' log)
          | inr (_, f) ↦ ground (arith, e, f)
        ]
        | inr (_, _, e) ↦ ground (arith, e)
      ]

  pub create-is_justified : (input : Bootstrap) → Keeps (create kit logged input)
  unfolding create traced is_justified
  create-is_justified input s log h =
      let name = owned_name kit.sha256 controller_id input.name in
      let asked = state_of (client.system_version s) in
      ground (
        arith,
        create_absent-is_justified name input (state_of (client.get_by_name name asked))
            (inspected ∷ inspected ∷ log),
      )

  pub delete-is_justified : (provider_id : Text) → Keeps (delete kit logged provider_id)
  unfolding delete find_owned traced is_justified
  delete-is_justified provider_id s log h = elim (Outcome-cases (client.list s)) [
    | inl (vms, s', e) ↦ elim (Result-cases (find_in kit logged provider_id vms)) [
      | inl ((vm, o), f) ↦ ground (
        arith,
        e,
        f,
        find_in-any kit logged provider_id vms vm o (is_bare kit logged vm.id) f,
        find_in-any kit logged provider_id vms vm o (is_idle kit logged vm.id) f,
        find_in-any kit logged provider_id vms vm o (is_seeded kit logged vm.id vm.seed_ref) f,
        text_eq_refl vm.seed_ref,
        int_eq_refl vm.id,
      )
      | inr (_, f) ↦ ground (arith, e, f)
    ]
    | inr (_, _, e) ↦ ground (arith, e)
  ]

  pub stop-is_justified : (provider_id : Text) → Keeps (stop kit logged provider_id)
  unfolding stop find_owned traced is_justified
  stop-is_justified provider_id s log h = elim (Outcome-cases (client.list s)) [
    | inl (vms, s', e) ↦ elim (Result-cases (find_in kit logged provider_id vms)) [
      | inl ((vm, o), f) ↦
          ground
            (arith, e, f, find_in-any kit logged provider_id vms vm o (is_busy kit logged vm.id) f)
      | inr (_, f) ↦ ground (arith, e, f)
    ]
    | inr (_, _, e) ↦ ground (arith, e)
  ]

  pub reconcile_bootstrap-is_justified :
      (provider_id : Text) → Keeps (reconcile_bootstrap kit logged provider_id)
  unfolding reconcile_bootstrap find_owned traced is_justified
  reconcile_bootstrap-is_justified provider_id s log h = elim (Outcome-cases (client.list s)) [
    | inl (vms, s', e) ↦ elim (Result-cases (find_in kit logged provider_id vms)) [
      | inl ((vm, o), f) ↦ ground (
        arith,
        e,
        f,
        find_in-any kit logged provider_id vms vm o (is_seeded kit logged vm.id vm.seed_ref) f,
        text_eq_refl vm.seed_ref,
      )
      | inr (_, f) ↦ ground (arith, e, f)
    ]
    | inr (_, _, e) ↦ ground (arith, e)
  ]

  find_owned-is_justified : (provider_id : Text) → Keeps (find_owned kit logged provider_id)
  unfolding find_owned traced is_justified
  find_owned-is_justified provider_id s log h = ground arith

  pub get-is_justified : (provider_id : Text) → Keeps (get kit logged provider_id)
  unfolding get find_owned traced is_justified
  get-is_justified provider_id s log h = ground arith

  pub list-is_justified : (pool_id : Text) → Keeps (list kit logged pool_id)
  unfolding list traced is_justified
  list-is_justified pool_id s log h = ground arith

  remove_each-is_justified :
      (items : List Instance) (busy : Bool) → Keeps (remove_each kit logged items busy)
  unfolding remove_each
  remove_each-is_justified [] busy s log h = h
  remove_each-is_justified (item ∷ items) busy s log h =
      let found = state_of (find_owned kit logged item.provider_id (s, log)) in
      let gone = state_of (delete kit logged item.provider_id found) in
      ground (
        arith,
        find_owned-is_justified item.provider_id s log h,
        delete-is_justified item.provider_id found.0 found.1,
        remove_each-is_justified items true found.0 found.1,
        remove_each-is_justified items busy gone.0 gone.1,
      )

  pub remove_all-is_justified : Keeps (remove_all kit logged)
  unfolding remove_all
  remove_all-is_justified s log h = elim (Outcome-cases (list kit logged (codes "") (s, log))) [
    | inl (items, w, e) ↦ ground (
      arith,
      e,
      list-is_justified (codes "") s log h,
      remove_each-is_justified items false w.0 w.1,
    )
    | inr (_, w, e) ↦ ground (arith, e, list-is_justified (codes "") s log h)
  ]
