-- ===== src/Container/Manager/Cleanup.antt =====
-- internal/containerbackend/manager.go: what `cleanupFailedCreate` leaves behind a `Create` that fails.
use garm_provider_truenas.Base.{
  ◌≡◌, ◌⊎◌, ◌∙◌, refl, true, arith, Error, Outcome, done, failed, follow, follow-done, settle,
  String, Run, errors_is, not_found, Bool-cases, Result-cases, ok, not, lift, relabel, ◌>>◌,
  Outcome-cases, inl, inr,
}
use garm_provider_truenas.Base.Int.{ℤ}
use garm_provider_truenas.Kit.{Kit}
use garm_provider_truenas.Provider.{Bootstrap}
use garm_provider_truenas.Base.Text.{Text}
use garm_provider_truenas.Container.{Container, Image}
use garm_provider_truenas.Container.Plan.{BootstrapPlan, build_bootstrap_plan}
use garm_provider_truenas.Container.Manager.{
  Manager, is_stopped, drift_if, verify_bootstrap_ownership, create_from, create_spec, bring_up,
  cleanup_failed_create, cleanup_found, stop_forced, remove_if_stopped, or_clean, after_failure,
}

module _ {S : Type 0} (kit : Kit) (m : Manager S) (id : ℤ) where
  -- The last call was told that there is no such container, or deleted it after it was shown stopped.
  abbrev pub Gone : S → Type 0
  Gone s =
      ((t : S) × (e : Error) × (m.client.get id t ≡ failed e s) × (errors_is e not_found ≡ true))
      ⊎ ((t u : S) × (item : Container) × (m.client.get id t ≡ done item u)
          × (is_stopped item.state ≡ true)
          × (m.client.delete id u ≡ done tt s))

  again-Gone :
      (s s' : S) (o : Outcome S Container)
      → m.client.get id s ≡ o
      → follow (remove_if_stopped kit m id) (settle o) ≡ done tt s'
      → Gone s'
  unfolding remove_if_stopped
  again-Gone s s' (failed e t) asked run = elim (Bool-cases (errors_is e not_found)) [
    | inl gone ↦ inl (s, e, asked ∙ cc (rw gone at run), gone)
    | inr other ↦ absurd (ground (arith, other))
  ]
  again-Gone s s' (done item t) asked run = elim (Bool-cases (is_stopped item.state)) [
    | inl idle ↦ inr (s, t, item, asked, idle, rw idle at run)
    | inr busy ↦ absurd (ground (arith, busy))
  ]

  found-Gone :
      (s s' : S) (o : Outcome S Container)
      → m.client.get id s ≡ o
      → follow (cleanup_found kit m id) (settle o) ≡ done tt s'
      → Gone s'
  unfolding cleanup_found
  found-Gone s s' (failed e t) asked run = elim (Bool-cases (errors_is e not_found)) [
    | inl gone ↦ inl (s, e, asked ∙ cc (rw gone at run), gone)
    | inr other ↦ absurd (ground (arith, other))
  ]
  found-Gone s s' (done item t) asked run =
      let stopped = follow-done (stop_forced kit m id item t) run in
      again-Gone stopped.1 s' (m.client.get id stopped.1) refl stopped.3

  cleanup_failed_create-Gone : (s s' : S) → cleanup_failed_create kit m id s ≡ done tt s' → Gone s'
  unfolding cleanup_failed_create
  cleanup_failed_create-Gone s s' run = found-Gone s s' (m.client.get id s) refl run

  pub cleaned :
      {A : Type 0} (o : Outcome S A) (e : Error) (s' : S)
      → after_failure (cleanup_failed_create kit m id) o ≡ failed e s'
      → (t : S) × (o ≡ failed e t)
        × (Gone s' ⊎ ((e' : Error) × (cleanup_failed_create kit m id t ≡ failed e' s')))
  cleaned (done a s) e s' h = cc
  cleaned (failed e' t) e s' h = elim (Outcome-cases (cleanup_failed_create kit m id t)) [
    | inl (_, u, clean) ↦
        let now = rw clean at h in
        (t, cc now, inl (cleanup_failed_create-Gone t s' (clean ∙ cc now)))
    | inr (e'', u, stuck) ↦ let now = rw stuck at h in (t, cc now, inr (e'', stuck ∙ cc now))
  ]

follow-failed :
    {S A B : Type 0} (text : String) (o : Outcome S A) {f : A → Run S B} {e : Error} {s' : S}
    → follow f (relabel text o) ≡ failed e s'
    → ((e' : Error) × (o ≡ failed e' s'))
      ⊎ ((a : A) × (t : S) × (o ≡ done a t) × (f a t ≡ failed e s'))
follow-failed text (done a t) h = inr (a, t, refl, h)
follow-failed text (failed e' t) h = inl (e', cc h)

module _ {S : Type 0} (kit : Kit) (m : Manager S) (input : Bootstrap) (name : Text)
    (image : Image) where
  abbrev plan : BootstrapPlan
  plan = build_bootstrap_plan kit input

  -- The call that creates the container of a request.
  abbrev pub asked : S → Outcome S Container
  asked = m.client.create (create_spec kit m name input plan image)

  -- It failed: then nothing was called after it.
  abbrev pub Uncreated : S → S → Type 0
  Uncreated s s' = (e : Error) × (asked s ≡ failed e s')

  -- It answered with a container that is not the controller's, as it was asked for and stopped: then
  -- nothing was called after it, and the container stays.
  abbrev pub Unadmitted : S → S → Type 0
  Unadmitted s s' =
      (created : Container) × (asked s ≡ done created s')
      × (verify_bootstrap_ownership kit m created input.pool_id plan ≡ ok tt
          → is_stopped created.state ≡ true
          → ⊥)

  -- It answered with a container that was admitted, and what came then failed with the error that is
  -- returned: either the last call showed that this container is gone, or the clean-up failed too.
  abbrev pub Cleaned : S → Error → S → Type 0
  Cleaned s e s' =
      (created : Container) × (t u : S) × (asked s ≡ done created t)
      × (bring_up kit m input plan created t ≡ failed e u)
      × (Gone kit m created.id s'
          ⊎ ((e' : Error) × (cleanup_failed_create kit m created.id u ≡ failed e' s')))

  admitted :
      (created : Container) (e : Error) (s t s' : S)
      → asked s ≡ done created t
      → (do
        lift (verify_bootstrap_ownership kit m created input.pool_id plan)
        lift (
            drift_if
              (not (is_stopped created.state))
              "new container unexpectedly active before bootstrap admission")
        or_clean (cleanup_failed_create kit m created.id) (bring_up kit m input plan created))
          t
        ≡ failed e s'
      → Unadmitted s s' ⊎ Cleaned s e s'
  admitted created e s t s' was run =
      elim (Result-cases (verify_bootstrap_ownership kit m created input.pool_id plan)) [
        | inr (x, v) ↦
            let now = rw v at run in inl (created, was ∙ cc now, λ good. absurd (cc (v, good)))
        | inl (_, v) ↦ elim (Bool-cases (is_stopped created.state)) [
          | inl idle ↦
              let failed_then =
                cleaned kit m created.id (bring_up kit m input plan created t) e s'
                  (rw (v, idle) at run) in
              inr (created, t, failed_then.0, was, failed_then.1, failed_then.2)
          | inr busy ↦
              let now = rw (v, busy) at run in
              inl (created, was ∙ cc now, λ _ idle. absurd (cc (busy, idle)))
        ]
      ]

  -- When `Create` fails in or after its call that creates the container, with whatever middleware:
  -- that call failed, and nothing was called after it; or it answered with a container that was not
  -- admitted, which stays, and nothing was called after it; or the container was admitted, the error
  -- is the first one met then, and either the last call showed that this very container is gone, or
  -- the clean-up of it failed too.
  pub create_from-cleans :
      (e : Error) (s s' : S)
      → create_from kit m name input image s ≡ failed e s'
      → Uncreated s s' ⊎ Unadmitted s s' ⊎ Cleaned s e s'
  unfolding create_from
  create_from-cleans e s s' run = elim (follow-failed "create container" (asked s) run) [
    | inl (x, f) ↦ inl (x, f)
    | inr (created, t, was, rest) ↦ inr (admitted created e s t s' was rest)
  ]
