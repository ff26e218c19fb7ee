-- ===== src/Container/Manager/Absence.antt =====
-- internal/containerbackend/manager.go: the evidence on which `Delete` reports success.
use garm_provider_truenas.Base.{
  ◌≡◌, refl, Bool, true, false, not, ◌&&◌, List, [], ◌∷◌, arith, any, done, ok, err, Error,
  errors_is, not_found, inl, inr, Outcome-cases, Result-cases,
}
use garm_provider_truenas.Base.Int.{int_eq, int_eq_refl}
use garm_provider_truenas.Base.Text.{Text, text_eq}
use garm_provider_truenas.Kit.{Kit}
use garm_provider_truenas.Ownership.{Ownership}
use garm_provider_truenas.Container.{Container, Client}
use garm_provider_truenas.Container.Manager.{
  Manager, owner, find_in, find_owned, delete, provider_id_for, verify_steady_runtime,
}
use garm_provider_truenas.Container.Manager.Trace.{Log, got, deleted, listed, traced}
use garm_provider_truenas.Container.Manager.Safety.{logged}

abbrev pub has_id : Text → Container → Bool
has_id provider_id item = text_eq (provider_id_for item.id) provider_id

-- The last call showed that nothing of that ID exists: a listing without it, one that was itself
-- answered with not found, or a read of the container of that ID, which was deleted just before.
unfoldable pub shows_absence : Text → Log → Bool
unfolding any
shows_absence provider_id (listed (ok items) ∷ log) = not (any (has_id provider_id) items)
shows_absence provider_id (listed (err e) ∷ log) = errors_is e not_found
shows_absence provider_id (got id (err e) ∷ deleted id' ∷ log) =
    text_eq (provider_id_for id) provider_id && int_eq id id' && errors_is e not_found
shows_absence provider_id _ = false

owner_error :
    {S : Type 0} (kit : Kit) (m : Manager S) (item : Container) (e : Error)
    → owner kit m item ≡ err e
    → errors_is e not_found ≡ false
unfolding owner verify_steady_runtime errors_is
owner_error kit m item e h = ground arith

find_in-absent :
    {S : Type 0} (kit : Kit) (m : Manager S) (provider_id : Text) (items : List Container)
    (e : Error)
    → find_in kit m provider_id items ≡ err e
    → errors_is e not_found ≡ true
    → any (has_id provider_id) items ≡ false
unfolding find_in any
find_in-absent kit m provider_id [] e h absent = refl
find_in-absent kit m provider_id (item ∷ items) e h absent =
    ground (arith, owner_error kit m item e, find_in-absent kit m provider_id items e)

find_in-has_id :
    {S : Type 0} (kit : Kit) (m : Manager S) (provider_id : Text) (items : List Container)
    (item : Container) (o : Ownership)
    → find_in kit m provider_id items ≡ ok (item, o)
    → has_id provider_id item ≡ true
unfolding find_in
find_in-has_id kit m provider_id [] item o h = cc
find_in-has_id kit m provider_id (i ∷ items) item o h =
    ground (arith, find_in-has_id kit m provider_id items item o)

-- Whenever `delete` reports success, its last call was a listing that has no container of that ID,
-- a listing that was itself answered with not found, or a read of the container of that ID that was
-- answered with not found, and the call before that deleted this container.
pub delete-shows_absence :
    {S : Type 0} (kit : Kit) (client : Client S) (controller_id system_version provider_id : Text)
    (s s' : S) (log log' : Log)
    → delete kit (logged kit client controller_id system_version) provider_id (s, log)
      ≡ done tt (s', log')
    → shows_absence provider_id log' ≡ true
unfolding delete find_owned traced shows_absence
delete-shows_absence kit client controller_id system_version provider_id s s' log log' h =
    let m = logged kit client controller_id system_version in
    elim (Outcome-cases (client.list s)) [
      | inl (items, t, e) ↦ elim (Result-cases (find_in kit m provider_id items)) [
        | inl ((item, o), f) ↦
            ground
              (arith, e, f, int_eq_refl item.id, find_in-has_id kit m provider_id items item o f)
        | inr (x, f) ↦ ground (arith, e, f, find_in-absent kit m provider_id items x f)
      ]
      | inr (x, t, e) ↦ ground (arith, e)
    ]
