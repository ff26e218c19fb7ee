-- ===== src/Container/Manager/Created.antt =====
-- internal/containerbackend/manager.go: what the manager has seen when `Create` succeeds.
use garm_provider_truenas.Base.{
  ◌>>◌, return, ◌≡◌, ◌⊎◌, refl, Bool, true, false, not, ◌||◌, String, arith, ok, Error, Outcome,
  done, failed, Run, follow-done, follow-labelled, follow-lift, follow, lift, settle, inl, inr,
  errors_is, not_found, Bool-cases, Option-cases, some, is_empty, [], ◌∷◌, ap, ◌∙◌,
}
use garm_provider_truenas.Base.Text.{Text, codes, text_eq, text_eq→eq, is_blank, trim_space}
use garm_provider_truenas.Kit.{Kit}
use garm_provider_truenas.Provider.{Bootstrap, Instance}
use garm_provider_truenas.Base.FilePath.{join_path}
use garm_provider_truenas.Ownership.{Ownership, decode_ownership}
use garm_provider_truenas.Provider.Manager.{wrong_pool}
use garm_provider_truenas.Container.Manager.Checks.{is_owner, checked_identity, pool_mismatch}
use garm_provider_truenas.Container.{Container, Image, image_family}
use garm_provider_truenas.Container.Plan.{
  owned_name, validate_bootstrap, build_bootstrap_plan, container_rootfs_mountpoint, default_init,
}
use garm_provider_truenas.Container.Manager.{
  Manager, is_running, is_stopped, drift_if, to_instance, verify_ownership,
  verify_bootstrap_ownership, verify_system_version, bring_up, create_from, create_absent,
  create_found, create, create_spec, stage_bootstrap_files, stage_files, owner,
  decode_owned_identity, token_path, expect_absent, cleanup_failed_create, after_failure,
}

follow-drift :
    {S : Type 0} {B : Type 0} (bad : Bool) (text : String) (f : Unit {0} → Run S B) {b : B}
    {s s' : S}
    → follow f (lift (drift_if bad text) s) ≡ done b s'
    → (bad ≡ false) × (f tt s ≡ done b s')
follow-drift true text f h = cc
follow-drift false text f h = (refl, h)

-- A call that must be told of an absence, and was.
follow-absent :
    {S : Type 0} {A : Type 0} {B : Type 0} (present unknown : String) (o : Outcome S A) (b c : B)
    {s' : S}
    → follow (λ r. expect_absent present unknown r >> return b) (settle o) ≡ done c s'
    → (e : Error) × (o ≡ failed e s') × (errors_is e not_found ≡ true) × (b ≡ c)
follow-absent present unknown (done a s) b c h = cc
follow-absent present unknown (failed e s) b c h = elim (Bool-cases (errors_is e not_found)) [
  | inl gone ↦ let left = rw gone at h in (e, cc left, gone, cc left)
  | inr other ↦ absurd (ground (arith, other))
]

module _ {S : Type 0} (kit : Kit) (m : Manager S) (input : Bootstrap) where
  -- A container was created for the request. It was started, its bootstrap settings were overwritten,
  -- it was asked for by its ID and runs, and then the last call looked for the token file below the
  -- root of the container that was created, and there is none. Each of these calls was made in the
  -- state that the one before left.
  pub record Started (item : Container) (s : S) : Type 0 where
    pub name : Text
    pub image : Image
    pub creates : S
    pub created : S
    pub box : Container
    pub was_created :
        m.client.create
          (create_spec kit m name input (build_bootstrap_plan kit input) image)
          creates
        ≡ done box created
    pub staged : S
    pub started : S
    pub before : S
    pub between : S
    pub was_started : m.client.start box.id staged ≡ done tt started
    pub scrubbed : Container
    pub was_scrubbed :
        m.client.update box.id (record { init = default_init; init_env = [] }) started
        ≡ done scrubbed before
    pub shown : m.client.get box.id before ≡ done item between
    pub runs : is_running item.state ≡ true
    pub mountpoint : Text
    pub below_root : container_rootfs_mountpoint box.dataset box.name ≡ ok mountpoint
    pub answer : Error
    pub looked :
        m.client.stat_file
          (join_path (mountpoint ∷ codes "var/lib/garm-container/bootstrap-instance-token" ∷ []))
          between
        ≡ failed answer s
    pub gone : errors_is answer not_found ≡ true

  -- The container that an instance stands for is the controller's, in the pool and of the profile.
  abbrev pub Stands : Instance → Container → Type 0
  Stands i item =
      (i ≡ to_instance item input.pool_id) × (verify_ownership kit m item input.pool_id ≡ ok tt)

  bring_up-Started :
      (name : Text) (image : Image) (created : Container) (s s' : S) (i : Instance) (before : S)
      → m.client.create (create_spec kit m name input (build_bootstrap_plan kit input) image) before
        ≡ done created s
      → bring_up kit m input (build_bootstrap_plan kit input) created s ≡ done i s'
      → (item : Container) × Stands i item × Started item s'
  unfolding bring_up stage_bootstrap_files build_bootstrap_plan token_path
  bring_up-Started name image created s s' i before was run =
      let plan = build_bootstrap_plan kit input in
      let staged = follow-done (stage_bootstrap_files kit m created plan s) run in
      let full = follow-drift (is_blank created.dataset) _ _ staged.2 in
      let root = follow-lift (container_rootfs_mountpoint created.dataset created.name) _ full.1 in
      let files = follow-done (stage_files kit m root.0 plan.files s) root.2 in
      let placed : root.0 ≡ staged.0 = cc files.3 in
      let started = follow-labelled _ (m.client.start created.id staged.1) staged.3 in
      let scrubbed =
        follow-labelled _
          (m.client.update created.id (record { init = plan.final_init; init_env = plan.final_env })
            started.1)
          started.3 in
      let read = follow-labelled _ (m.client.get created.id scrubbed.1) scrubbed.3 in
      let owned = follow-lift (verify_ownership kit m read.0 input.pool_id) _ read.3 in
      let running = follow-drift (not (is_running read.0.state)) _ _ owned.2 in
      let left =
        follow-absent _ _ (m.client.stat_file (token_path kit m staged.0) read.1)
          (to_instance read.0 input.pool_id) i running.1 in
      (
        read.0,
        (cc left.3, owned.1),
        record {
          name = name;
          image = image;
          creates = before;
          created = s;
          box = created;
          was_created = was;
          staged = staged.1;
          started = started.1;
          before = scrubbed.1;
          between = read.1;
          was_started = started.2;
          scrubbed = scrubbed.0;
          was_scrubbed = scrubbed.2;
          shown = read.2;
          runs = ground (arith, running.0);
          mountpoint = staged.0;
          below_root = root.1 ∙ ap ok placed;
          answer = left.0;
          looked = left.1;
          gone = left.2;
        },
      )

  -- A clean-up runs after a failure only.
  after_failure-done :
      {A : Type 0} (cleanup : Run S (Unit {0})) (o : Outcome S A) {a : A} {s' : S}
      → after_failure cleanup o ≡ done a s'
      → o ≡ done a s'
  after_failure-done cleanup (done a s) h = h
  after_failure-done cleanup (failed e s) h = cc

  create_from-Started :
      (name : Text) (image : Image) (s s' : S) (i : Instance)
      → create_from kit m name input image s ≡ done i s'
      → (item : Container) × Stands i item × Started item s'
  unfolding create_from
  create_from-Started name image s s' i run =
      let plan = build_bootstrap_plan kit input in
      let created =
        follow-labelled _ (m.client.create (create_spec kit m name input plan image) s) run in
      let owned =
        follow-lift (verify_bootstrap_ownership kit m created.0 input.pool_id plan) _ created.3 in
      let idle = follow-drift (not (is_stopped created.0.state)) _ _ owned.2 in
      bring_up-Started name image created.0 created.1 s' i s created.2 (
        after_failure-done (cleanup_failed_create kit m created.0.id)
          (bring_up kit m input plan created.0 created.1) idle.1)

  create_absent-Started :
      (name : Text) (s s' : S) (i : Instance)
      → create_absent kit m name input s ≡ done i s'
      → (item : Container) × Stands i item × Started item s'
  unfolding create_absent
  create_absent-Started name s s' i run =
      let resolved = follow-labelled _ (m.client.resolve_image image_family s) run in
      let exact =
        follow-drift (not (text_eq resolved.0.name image_family) || is_blank resolved.0.version) _ _
          resolved.3 in
      create_from-Started name resolved.0 resolved.1 s' i exact.1

  -- Its description names this controller, and the pool of the request.
  abbrev pub Belongs : Container → Type 0
  Belongs item =
      (o : Ownership) × (decode_ownership kit.json item.description ≡ some o)
      × (o.managed_by ≡ codes "garm-provider-truenas")
      × (o.controller_id ≡ m.controller_id)
      × (o.pool_id ≡ input.pool_id)

  given_pool : validate_bootstrap input ≡ ok tt → is_empty input.pool_id ≡ false
  unfolding validate_bootstrap is_blank trim_space
  given_pool valid = ground arith

  verify_ownership-Belongs :
      (item : Container)
      → is_empty input.pool_id ≡ false
      → verify_ownership kit m item input.pool_id ≡ ok tt
      → Belongs item
  unfolding verify_ownership owner decode_owned_identity checked_identity pool_mismatch wrong_pool
      is_owner
  verify_ownership-Belongs item pool h =
      elim (Option-cases (decode_ownership kit.json item.description)) [
        | inl e ↦ absurd (ground (arith, e))
        | inr (o, e) ↦ (
          o,
          e,
          text_eq→eq o.managed_by (codes "garm-provider-truenas") (ground (arith, e)),
          text_eq→eq o.controller_id m.controller_id (ground (arith, e)),
          text_eq→eq o.pool_id input.pool_id (ground (arith, e)),
        )
      ]

  -- The last call asked for a container by the name that the manager gives this runner.
  abbrev pub Found : Container → S → Type 0
  Found item s =
      (before : S) × (m.client.get_by_name (owned_name kit.sha256 m.controller_id input.name) before
        ≡ done item s)

  create_found-Started :
      (name : Text) (found : Outcome S Container) (s' : S) (i : Instance)
      → follow (create_found kit m name input) (settle found) ≡ done i s'
      → (item : Container) × Stands i item × ((found ≡ done item s') ⊎ Started item s')
  unfolding create_found
  create_found-Started name (done item s) s' i run =
      let owned = follow-lift (verify_ownership kit m item input.pool_id) _ run in
      (item, (cc owned.2, owned.1), inl (cc owned.2))
  create_found-Started name (failed e s) s' i run = elim (Bool-cases (errors_is e not_found)) [
    | inl absent ↦
        let new = create_absent-Started name s s' i (rw absent at run) in (new.0, new.1, inr new.2)
    | inr unknown ↦ absurd (ground (arith, unknown))
  ]

  first :
      {item : Container} {s : S} (before : S)
      → (m.client.get_by_name (owned_name kit.sha256 m.controller_id input.name) before
          ≡ done item s)
        ⊎ Started item s
      → Found item s ⊎ Started item s
  first before (inl e) = inl (before, e)
  first before (inr h) = inr h

  -- Whatever the middleware answers: an instance that `Create` returns stands for a container that
  -- the manager was shown and that passed its checks, and whose description names this controller and
  -- the pool of the request. Either the last call found it under the runner's name; or a container
  -- was created for the request, and the last four calls started that container, took its bootstrap
  -- settings away, showed it running when asked for its ID, and found no token file below the root of
  -- the container that was created.
  pub create-shows_container :
      (s s' : S) (i : Instance)
      → create kit m input s ≡ done i s'
      → (item : Container) × Stands i item × Belongs item × (Found item s' ⊎ Started item s')
  unfolding create
  create-shows_container s s' i run =
      let name = owned_name kit.sha256 m.controller_id input.name in
      let valid = follow-lift (validate_bootstrap input) _ run in
      let version = follow-done (verify_system_version kit m s) valid.2 in
      let made = create_found-Started name (m.client.get_by_name name version.1) s' i version.3 in
      let belongs = verify_ownership-Belongs made.0 (given_pool valid.1) made.1.1 in
      (made.0, made.1, belongs, first version.1 made.2)
