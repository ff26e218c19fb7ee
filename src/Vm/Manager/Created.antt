-- ===== src/Vm/Manager/Created.antt =====
-- internal/vmbackend/manager.go: what the manager has seen when `Create` succeeds.
use garm_provider_truenas.Base.{
  settle, ap, ◌≡◌, ◌⊎◌, ◌∙◌, refl, Bool, true, false, not, ◌||◌, String, arith, ok, Outcome, done,
  failed, Run, follow-done, follow-labelled, follow-lift, follow, lift, inl, inr, errors_is,
  not_found, Bool-cases, Option-cases, some, is_empty,
}
use garm_provider_truenas.Base.Int.{ℤ}
use garm_provider_truenas.Base.Text.{
  Text, codes, trim_space, contains, is_blank, text_eq, text_eq→eq,
}
use garm_provider_truenas.Kit.{Kit}
use garm_provider_truenas.Provider.{Bootstrap, Instance}
use garm_provider_truenas.Ownership.{Ownership, decode_ownership}
use garm_provider_truenas.Provider.Manager.{wrong_pool}
use garm_provider_truenas.Vm.Manager.Checks.{is_owner, checked_owner}
use garm_provider_truenas.Vm.{Vm, Template, template_family}
use garm_provider_truenas.Vm.Seed.{owned_name, validate_bootstrap, seed_for}
use garm_provider_truenas.Vm.Manager.{
  Manager, owner, is_running, is_stopped, drift_if, to_instance, verify_ownership,
  verify_system_version, verify_template, boot, clone_and_boot, create_absent, create_found, create,
  clone_spec,
}

follow-drift :
    {S : Type 0} {B : Type 0} (bad : Bool) (text : String) (f : Unit {0} → Run S B) {b : B}
    {s s' : S}
    → follow f (lift (drift_if bad text) s) ≡ done b s'
    → (bad ≡ false) × (f tt s ≡ done b s')
follow-drift true text f h = cc
follow-drift false text f h = (refl, h)

module _ {S : Type 0} (kit : Kit) (m : Manager S) (input : Bootstrap) where
  -- The last five calls on the middleware, each from the state that the one before left: a VM was
  -- cloned, a seed was staged for it and attached to it, it was started, and asked for by its ID. The
  -- VM that this shows runs, with this seed, whose reference does not hold the token.
  pub record Started (item : Vm) (s : S) : Type 0 where
    pub template_id : ℤ
    pub name : Text
    pub clones : S
    pub cloned : S
    pub staged : S
    pub attached : S
    pub before : S
    pub vm : Vm
    pub was_cloned :
        m.client.clone template_id (clone_spec kit m name input) clones ≡ done vm cloned
    pub was_staged :
        m.client.stage_seed vm.id (seed_for kit input name) cloned ≡ done item.seed_ref staged
    pub was_attached : m.client.attach_seed vm.id item.seed_ref staged ≡ done tt attached
    pub was_started : m.client.start vm.id attached ≡ done tt before
    pub shown : m.client.get vm.id before ≡ done item s
    pub runs : is_running item.state ≡ true
    pub seeded : is_blank item.seed_ref ≡ false
    pub secret : contains item.seed_ref input.token ≡ false

  -- The VM that an instance stands for is the controller's, in the pool and of the profile.
  abbrev pub Stands : Instance → Vm → Type 0
  Stands i item =
      (i ≡ to_instance item input.pool_id) × (verify_ownership kit m item input.pool_id ≡ ok tt)

  boot-Started :
      (name : Text) (created : Vm) (s s' : S) (i : Instance) (template_id : ℤ) (before : S)
      → m.client.clone template_id (clone_spec kit m name input) before ≡ done created s
      → boot kit m name input created s ≡ done i s'
      → (item : Vm) × Stands i item × Started item s'
  unfolding boot
  boot-Started name created s s' i template_id before was run =
      let staged =
        follow-labelled _ (m.client.stage_seed created.id (seed_for kit input name) s) run in
      let safe = follow-drift (is_blank staged.0 || contains staged.0 input.token) _ _ staged.3 in
      let attached = follow-labelled _ (m.client.attach_seed created.id staged.0 staged.1) safe.1 in
      let started = follow-labelled _ (m.client.start created.id attached.1) attached.3 in
      let read = follow-labelled _ (m.client.get created.id started.1) started.3 in
      let owned = follow-lift (verify_ownership kit m read.0 input.pool_id) _ read.3 in
      let running = follow-drift (not (is_running read.0.state)) _ _ owned.2 in
      let same = follow-drift (not (text_eq read.0.seed_ref staged.0)) _ _ running.1 in
      let seen : read.0.seed_ref ≡ staged.0 =
        text_eq→eq read.0.seed_ref staged.0 (ground (arith, same.0)) in
      let now : read.1 ≡ s' = cc same.1 in
      (
        read.0,
        (cc same.1, owned.1),
        record {
          template_id = template_id;
          name = name;
          clones = before;
          cloned = s;
          staged = staged.1;
          attached = attached.1;
          before = started.1;
          vm = created;
          was_cloned = was;
          was_staged = rw seen staged.2;
          was_attached = rw seen attached.2;
          was_started = started.2;
          shown = read.2 ∙ ap (done read.0) now;
          runs = ground (arith, running.0);
          seeded = ap is_blank seen ∙ ground (arith, safe.0);
          secret = ap (λ t. contains t input.token) seen ∙ ground (arith, safe.0);
        },
      )

  clone_and_boot-Started :
      (name : Text) (template : Template) (s s' : S) (i : Instance)
      → clone_and_boot kit m name input template s ≡ done i s'
      → (item : Vm) × Stands i item × Started item s'
  unfolding clone_and_boot
  clone_and_boot-Started name template s s' i run =
      let cloned =
        follow-labelled _ (m.client.clone template.id (clone_spec kit m name input) s) run in
      let owned = follow-lift (verify_ownership kit m cloned.0 input.pool_id) _ cloned.3 in
      let idle = follow-drift (not (is_stopped cloned.0.state)) _ _ owned.2 in
      boot-Started name cloned.0 cloned.1 s' i template.id s cloned.2 idle.1

  create_absent-Started :
      (name : Text) (s s' : S) (i : Instance)
      → create_absent kit m name input s ≡ done i s'
      → (item : Vm) × Stands i item × Started item s'
  unfolding create_absent
  create_absent-Started name s s' i run =
      let resolved = follow-labelled _ (m.client.resolve_template template_family s) run in
      let exact = follow-labelled _ (lift (verify_template resolved.0) resolved.1) resolved.3 in
      clone_and_boot-Started name resolved.0 exact.1 s' i exact.3

  -- Its description names this controller, and the pool of the request.
  abbrev pub Belongs : Vm → Type 0
  Belongs item =
      (o : Ownership) × (decode_ownership kit.json item.description ≡ some o)
      × (o.managed_by ≡ codes "garm-provider-truenas")
      × (o.controller_id ≡ m.controller_id)
      × (o.pool_id ≡ input.pool_id)

  given_pool : validate_bootstrap input ≡ ok tt → is_empty input.pool_id ≡ false
  unfolding validate_bootstrap is_blank trim_space
  given_pool valid = ground arith

  verify_ownership-Belongs :
      (item : Vm)
      → is_empty input.pool_id ≡ false
      → verify_ownership kit m item input.pool_id ≡ ok tt
      → Belongs item
  unfolding verify_ownership owner checked_owner wrong_pool is_owner
  verify_ownership-Belongs item pool h =
      elim (Option-cases (decode_ownership kit.json item.description)) [
        | inl e ↦ absurd (ground (arith, e))
        | inr (o, e) ↦ (
          o,
          e,
          text_eq→eq o.managed_by (codes "garm-provider-truenas") (ground (arith, e)),
          text_eq→eq o.controller_id m.controller_id (ground (arith, e)),
          text_eq→eq o.pool_id input.pool_id (ground (arith, e)),
        )
      ]

  -- The last call asked for a VM by the name that the manager gives this runner.
  abbrev pub Found : Vm → S → Type 0
  Found item s =
      (before : S) × (m.client.get_by_name (owned_name kit.sha256 m.controller_id input.name) before
        ≡ done item s)

  create_found-Started :
      (name : Text) (found : Outcome S Vm) (s' : S) (i : Instance)
      → follow (create_found kit m name input) (settle found) ≡ done i s'
      → (item : Vm) × Stands i item × ((found ≡ done item s') ⊎ Started item s')
  unfolding create_found
  create_found-Started name (done item s) s' i run =
      let owned = follow-lift (verify_ownership kit m item input.pool_id) _ run in
      (item, (cc owned.2, owned.1), inl (cc owned.2))
  create_found-Started name (failed e s) s' i run = elim (Bool-cases (errors_is e not_found)) [
    | inl absent ↦
        let new = create_absent-Started name s s' i (rw absent at run) in (new.0, new.1, inr new.2)
    | inr unknown ↦ absurd (ground (arith, unknown))
  ]

  first :
      {item : Vm} {s : S} (before : S)
      → (m.client.get_by_name (owned_name kit.sha256 m.controller_id input.name) before
          ≡ done item s)
        ⊎ Started item s
      → Found item s ⊎ Started item s
  first before (inl e) = inl (before, e)
  first before (inr h) = inr h

  -- Whatever the middleware answers: an instance that `Create` returns stands for a VM that the last
  -- call showed and that passed its checks, and whose description names this controller and the pool
  -- of the request. Either that call found it under the runner's name, or the four calls before that one cloned a VM
  -- for the request, staged the seed of the request for the clone, attached it and started the clone,
  -- and then the last call asked for the VM by the ID of the clone: it runs with that seed, whose
  -- reference is not blank and does not contain the token.
  pub create-shows :
      (s s' : S) (i : Instance)
      → create kit m input s ≡ done i s'
      → (item : Vm) × Stands i item × Belongs item × (Found item s' ⊎ Started item s')
  unfolding create
  create-shows s s' i run =
      let name = owned_name kit.sha256 m.controller_id input.name in
      let valid = follow-lift (validate_bootstrap input) _ run in
      let version = follow-done (verify_system_version kit m s) valid.2 in
      let made = create_found-Started name (m.client.get_by_name name version.1) s' i version.3 in
      let belongs = verify_ownership-Belongs made.0 (given_pool valid.1) made.1.1 in
      (made.0, made.1, belongs, first version.1 made.2)
