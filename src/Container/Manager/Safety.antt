-- ===== src/Container/Manager/Safety.antt =====
-- Every call that the container backend makes is warranted by what the middleware answered before,
-- whatever the middleware does.
use garm_provider_truenas.Base.{
  ◌≡◌, Bool, true, false, ◌&&◌, List, [], ◌∷◌, arith, Outcome, state_of, inl, inr, ok, any,
  Result-cases, Outcome-cases,
}
use garm_provider_truenas.Base.Int.{ℤ, int_eq_refl}
use garm_provider_truenas.Base.Text.{Text, codes, text_eq, text_eq_refl}
use garm_provider_truenas.Provider.{Bootstrap, Instance}
use garm_provider_truenas.Kit.{Kit}
use garm_provider_truenas.Ownership.{Ownership}
use garm_provider_truenas.Container.{Container, Image, Client, image_family}
use garm_provider_truenas.Container.Plan.{
  StagedFile, BootstrapPlan, container_rootfs_mountpoint, default_init, owned_name,
  build_bootstrap_plan,
}
use garm_provider_truenas.Container.Manager.{
  Manager, find_in, find_owned, create, delete, stop, get, list, remove_each, remove_all, bring_up,
  create_from, create_absent, create_spec, cleanup_failed_create, stage_files, full_path,
  stage_bootstrap_files,
}
use garm_provider_truenas.Container.Manager.Trace.{
  Log, put, inspected, resolved, created, traced, is_owned, made, is_justified, is_idle, is_busy,
}

module _ {S : Type 0} (kit : Kit) (m : Manager S) where
  -- The container that `find_in` picks was in the list, and is owned.
  find_in-any :
      (provider_id : Text) (items : List Container) (item : Container) (o : Ownership)
      (p : Container → Bool)
      → find_in kit m provider_id items ≡ ok (item, o)
      → (is_owned kit m item.id item ≡ true → p item ≡ true)
      → any p items ≡ true
  unfolding find_in any is_owned
  find_in-any provider_id [] item o p h keeps = cc
  find_in-any provider_id (i ∷ items) item o p h keeps =
      ground (arith, int_eq_refl item.id, find_in-any provider_id items item o p)

module _ {S : Type 0} (kit : Kit) (client : Client S) (controller_id system_version : Text) where
  abbrev pub logged : Manager (S × Log)
  logged = record {
    client = traced client;
    controller_id = controller_id;
    system_version = system_version;
  }

  abbrev pub Keeps {ℓ} : {A : Type ℓ} → (S × Log → Outcome (S × Log) A) → Type 0
  Keeps run =
      (s : S) (log : Log)
      → is_justified kit logged log ≡ true
      → is_justified kit logged (state_of (run (s, log))).1 ≡ true

  -- A run that keeps the log justified and the created container known.
  abbrev Tends {ℓ} : ℤ → {A : Type ℓ} → (S × Log → Outcome (S × Log) A) → Type 0
  Tends id run =
      (s : S) (log : Log)
      → (is_justified kit logged log && made id log) ≡ true
      → (is_justified kit logged (state_of (run (s, log))).1 && made id (state_of (run (s, log))).1)
        ≡ true

  stage_files-Tends :
      (id : ℤ) (mountpoint : Text) (files : List StagedFile)
      → Tends id (stage_files kit logged mountpoint files)
  unfolding stage_files traced is_justified
  stage_files-Tends id mountpoint [] s log h = h
  stage_files-Tends id mountpoint (file ∷ files) s log h =
      let path = full_path mountpoint file in
      let put_state = state_of (client.put_file path file.content file.mode s) in
      ground (
        arith,
        stage_files-Tends id mountpoint files (state_of (client.stat_file path put_state))
            (inspected ∷ put path file.mode ∷ log),
      )

  stage_bootstrap_files-Tends :
      (id : ℤ) (item : Container) (plan : BootstrapPlan)
      → Tends id (stage_bootstrap_files kit logged item plan)
  unfolding stage_bootstrap_files
  stage_bootstrap_files-Tends id item plan s log h =
      elim (Result-cases (container_rootfs_mountpoint item.dataset item.name)) [
        | inl (mountpoint, e) ↦
            ground (arith, e, stage_files-Tends id mountpoint plan.files s log h)
        | inr (_, e) ↦ ground (arith, e)
      ]

  bring_up-Tends :
      (input : Bootstrap) (item : Container)
      → Tends item.id (bring_up kit logged input (build_bootstrap_plan kit input) item)
  unfolding bring_up traced is_justified build_bootstrap_plan
  bring_up-Tends input item s log h =
      let plan = build_bootstrap_plan kit input in
      elim (Outcome-cases (stage_bootstrap_files kit logged item plan (s, log))) [
        | inl (mountpoint, w, e) ↦ ground (
          arith,
          e,
          stage_bootstrap_files-Tends item.id item plan s log h,
          text_eq_refl default_init,
        )
        | inr (_, w, e) ↦ ground (arith, e, stage_bootstrap_files-Tends item.id item plan s log h)
      ]

  cleanup-Tends : (id : ℤ) → Tends id (cleanup_failed_create kit logged id)
  unfolding cleanup_failed_create traced is_justified
  cleanup-Tends id s log h = ground (arith, int_eq_refl id)

  create_from-is_justified :
      (name : Text) (input : Bootstrap) (image : Image)
      → text_eq image.name image_family ≡ true
      → Keeps (create_from kit logged name input image)
  unfolding create_from traced is_justified create_spec
  create_from-is_justified name input image pinned s log h =
      let plan = build_bootstrap_plan kit input in
      let spec = create_spec kit logged name input plan image in
      elim (Outcome-cases (client.create spec s)) [
        | inl (item, s', e) ↦
            let start = created spec (ok item) ∷ log in
            let up = state_of (bring_up kit logged input plan item (s', start)) in
            ground (
              arith,
              e,
              int_eq_refl item.id,
              text_eq_refl (codes "DEFAULT"),
              bring_up-Tends input item s' start,
              cleanup-Tends item.id up.0 up.1,
            )
        | inr (_, _, e) ↦ ground (arith, e, text_eq_refl (codes "DEFAULT"))
      ]

  create_absent-is_justified :
      (name : Text) (input : Bootstrap) → Keeps (create_absent kit logged name input)
  unfolding create_absent traced is_justified
  create_absent-is_justified name input s log h =
      elim (Outcome-cases (client.resolve_image image_family s)) [
        | inl (image, s', e) ↦ ground (
          arith,
          e,
          λ (p : text_eq image.name image_family ≡ true).
              create_from-is_justified name input image p s' (resolved (ok image) ∷ log),
        )
        | inr (_, _, e) ↦ ground (arith, e)
      ]

  pub create-is_justified : (input : Bootstrap) → Keeps (create kit logged input)
  unfolding create traced is_justified
  create-is_justified input s log h =
      let name = owned_name kit.sha256 controller_id input.name in
      let asked = state_of (client.system_version s) in
      ground (
        arith,
        create_absent-is_justified name input (state_of (client.get_by_name name asked))
            (inspected ∷ inspected ∷ log),
      )

  pub delete-is_justified : (provider_id : Text) → Keeps (delete kit logged provider_id)
  unfolding delete find_owned traced is_justified
  delete-is_justified provider_id s log h = elim (Outcome-cases (client.list s)) [
    | inl (items, s', e) ↦ elim (Result-cases (find_in kit logged provider_id items)) [
      | inl ((item, o), f) ↦ ground (
        arith,
        e,
        f,
        find_in-any kit logged provider_id items item o (is_idle kit logged item.id) f,
      )
      | inr (_, f) ↦ ground (arith, e, f)
    ]
    | inr (_, _, e) ↦ ground (arith, e)
  ]

  pub stop-is_justified : (provider_id : Text) → Keeps (stop kit logged provider_id)
  unfolding stop find_owned traced is_justified
  stop-is_justified provider_id s log h = elim (Outcome-cases (client.list s)) [
    | inl (items, s', e) ↦ elim (Result-cases (find_in kit logged provider_id items)) [
      | inl ((item, o), f) ↦ ground (
        arith,
        e,
        f,
        find_in-any kit logged provider_id items item o (is_busy kit logged item.id) f,
      )
      | inr (_, f) ↦ ground (arith, e, f)
    ]
    | inr (_, _, e) ↦ ground (arith, e)
  ]

  find_owned-is_justified : (provider_id : Text) → Keeps (find_owned kit logged provider_id)
  unfolding find_owned traced is_justified
  find_owned-is_justified provider_id s log h = ground arith

  pub get-is_justified : (provider_id : Text) → Keeps (get kit logged provider_id)
  unfolding get find_owned traced is_justified
  get-is_justified provider_id s log h = ground arith

  pub list-is_justified : (pool_id : Text) → Keeps (list kit logged pool_id)
  unfolding list traced is_justified
  list-is_justified pool_id s log h = ground arith

  remove_each-is_justified :
      (items : List Instance) (busy : Bool) → Keeps (remove_each kit logged items busy)
  unfolding remove_each
  remove_each-is_justified [] busy s log h = h
  remove_each-is_justified (item ∷ items) busy s log h =
      let found = state_of (find_owned kit logged item.provider_id (s, log)) in
      let gone = state_of (delete kit logged item.provider_id found) in
      ground (
        arith,
        find_owned-is_justified item.provider_id s log h,
        delete-is_justified item.provider_id found.0 found.1,
        remove_each-is_justified items true found.0 found.1,
        remove_each-is_justified items busy gone.0 gone.1,
      )

  pub remove_all-is_justified : Keeps (remove_all kit logged)
  unfolding remove_all
  remove_all-is_justified s log h = elim (Outcome-cases (list kit logged (codes "") (s, log))) [
    | inl (items, w, e) ↦ ground (
      arith,
      e,
      list-is_justified (codes "") s log h,
      remove_each-is_justified items false w.0 w.1,
    )
    | inr (_, w, e) ↦ ground (arith, e, list-is_justified (codes "") s log h)
  ]
