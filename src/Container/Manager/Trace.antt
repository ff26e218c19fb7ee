-- ===== src/Container/Manager/Trace.antt =====
-- The calls that the container backend makes on its middleware, and when a call is warranted by
-- those before it.
use garm_provider_truenas.Base.{
  ℕ, Bool, true, false, not, ◌&&◌, ◌||◌, List, [], ◌∷◌, is_empty, Result, ok, err, Outcome, done,
  failed, any,
}
use garm_provider_truenas.Base.Int.{ℤ, int_eq}
use garm_provider_truenas.Base.Text.{Text, codes, text_eq}
use garm_provider_truenas.Kit.{Kit}
use garm_provider_truenas.Container.{Container, Image, CreateSpec, UpdateSpec, Client, image_family}
use garm_provider_truenas.Container.Plan.{default_init}
use garm_provider_truenas.Container.Manager.{Manager, owner, is_stopped, is_running}

-- A call with what it was given and what it answered.
pub data Call : Type 0 where
  resolved : Result Image → Call
  created : CreateSpec → Result Container → Call
  updated : ℤ → UpdateSpec → Call
  put : Text → ℕ → Call
  started : ℤ → Call
  stopped : ℤ → Bool → Call
  deleted : ℤ → Call
  got : ℤ → Result Container → Call
  listed : Result (List Container) → Call
  inspected : Call

abbrev pub Log : Type 0
Log = List Call

module _ {S : Type 0} where
  abbrev pub noting {ℓ} : {A : Type ℓ} → (Result A → Call) → Log → Outcome S A → Outcome (S × Log) A
  noting note log (done a s) = done a (s, note (ok a) ∷ log)
  noting note log (failed e s) = failed e (s, note (err e) ∷ log)

  unfoldable pub traced : Client S → Client (S × Log)
  traced c = record {
    system_version = λ w. noting (λ _. inspected) w.1 (c.system_version w.0);
    resolve_image = λ family w. noting resolved w.1 (c.resolve_image family w.0);
    get_by_name = λ name w. noting (λ _. inspected) w.1 (c.get_by_name name w.0);
    get = λ id w. noting (got id) w.1 (c.get id w.0);
    list = λ w. noting listed w.1 (c.list w.0);
    create = λ spec w. noting (created spec) w.1 (c.create spec w.0);
    update = λ id spec w. noting (λ _. updated id spec) w.1 (c.update id spec w.0);
    put_file =
        λ path content mode w. noting (λ _. put path mode) w.1 (c.put_file path content mode w.0);
    stat_file = λ path w. noting (λ _. inspected) w.1 (c.stat_file path w.0);
    start = λ id w. noting (λ _. started id) w.1 (c.start id w.0);
    stop = λ id force w. noting (λ _. stopped id force) w.1 (c.stop id force w.0);
    delete = λ id w. noting (λ _. deleted id) w.1 (c.delete id w.0);
  }

is_ok {ℓ} : {A : Type ℓ} → Result A → Bool
is_ok (ok a) = true
is_ok (err e) = false

unfoldable pub is_owned : {S : Type 0} → Kit → Manager S → ℤ → Container → Bool
unfolding is_ok
is_owned kit m id item = is_ok (owner kit m item) && int_eq item.id id

-- Some listing showed a container that passes the test.
unfoldable pub seen : (Container → Bool) → Log → Bool
unfolding any
seen p [] = false
seen p (listed (ok items) ∷ log) = any p items || seen p log
seen p (call ∷ log) = seen p log

-- The manager created a container of that ID.
unfoldable pub made : ℤ → Log → Bool
made id [] = false
made id (created spec (ok item) ∷ log) = int_eq item.id id || made id log
made id (call ∷ log) = made id log

-- The call just before asked for that ID and was told that it is stopped, or running.
unfoldable pub just_stopped : ℤ → Log → Bool
just_stopped id (got id' (ok item) ∷ log) = int_eq id' id && is_stopped item.state
just_stopped id _ = false

unfoldable pub just_running : ℤ → Log → Bool
just_running id (got id' (ok item) ∷ log) = int_eq id' id && is_running item.state
just_running id _ = false

-- The restricted defaults and the pinned image family.
unfoldable pub is_confined : CreateSpec → Bool
is_confined spec =
    not spec.autostart
    && text_eq spec.idmap_type (codes "DEFAULT")
    && text_eq spec.capabilities_policy (codes "DEFAULT")
    && text_eq spec.image.name image_family

unfoldable pub scrubs : UpdateSpec → Bool
scrubs spec = text_eq spec.init default_init && is_empty spec.init_env

module _ {S : Type 0} (kit : Kit) (m : Manager S) where
  abbrev pub is_idle : ℤ → Container → Bool
  is_idle id item = is_owned kit m id item && is_stopped item.state

  abbrev pub is_busy : ℤ → Container → Bool
  is_busy id item = is_owned kit m id item && is_running item.state

  unfoldable pub is_warranted : Call → Log → Bool
  unfolding seen made just_stopped just_running is_confined scrubs
  is_warranted (created spec answer) log = is_confined spec
  is_warranted (updated id spec) log = made id log && scrubs spec
  is_warranted (started id) log = made id log
  is_warranted (stopped id true) log = made id log && just_running id log
  is_warranted (stopped id false) log = seen (is_busy id) log
  is_warranted (deleted id) log = (made id log && just_stopped id log) || seen (is_idle id) log
  is_warranted _ log = true

  -- Every call of the log was warranted when it was made.
  unfoldable pub is_justified : Log → Bool
  unfolding is_warranted
  is_justified [] = true
  is_justified (call ∷ log) = is_warranted call log && is_justified log
