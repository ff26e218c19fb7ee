-- ===== src/Vm/Manager/Trace.antt =====
-- The calls that the VM backend makes on its middleware, and when a call is warranted by those
-- before it.
use garm_provider_truenas.Base.{
  Bool, true, false, not, ◌&&◌, ◌||◌, List, [], ◌∷◌, Result, ok, err, Outcome, done, failed, any,
}
use garm_provider_truenas.Base.Int.{ℤ, int_eq}
use garm_provider_truenas.Base.Text.{Text, text_eq, is_blank}
use garm_provider_truenas.Kit.{Kit}
use garm_provider_truenas.Vm.{Vm, Template, CloneSpec, Client}
use garm_provider_truenas.Vm.Manager.{Manager, owner, is_exact_template, is_stopped, is_running}

-- A call with what it was given and what it answered.
pub data Call : Type 0 where
  resolved : Result Template → Call
  cloned : ℤ → CloneSpec → Call
  staged : ℤ → Result Text → Call
  attached : ℤ → Text → Result (Unit {0}) → Call
  detached : ℤ → Text → Result (Unit {0}) → Call
  seed_deleted : Text → Result (Unit {0}) → Call
  started : ℤ → Call
  stopped : ℤ → Bool → Call
  deleted : ℤ → Call
  listed : Result (List Vm) → Call
  inspected : Call

abbrev pub Log : Type 0
Log = List Call

-- Middleware that also keeps the calls made on it, the newest first.
module _ {S : Type 0} where
  abbrev pub noting {ℓ} : {A : Type ℓ} → (Result A → Call) → Log → Outcome S A → Outcome (S × Log) A
  noting note log (done a s) = done a (s, note (ok a) ∷ log)
  noting note log (failed e s) = failed e (s, note (err e) ∷ log)

  unfoldable pub traced : Client S → Client (S × Log)
  traced c = record {
    system_version = λ w. noting (λ _. inspected) w.1 (c.system_version w.0);
    resolve_template = λ family w. noting resolved w.1 (c.resolve_template family w.0);
    get_by_name = λ name w. noting (λ _. inspected) w.1 (c.get_by_name name w.0);
    get = λ id w. noting (λ _. inspected) w.1 (c.get id w.0);
    list = λ w. noting listed w.1 (c.list w.0);
    clone = λ id spec w. noting (λ _. cloned id spec) w.1 (c.clone id spec w.0);
    stage_seed = λ id seed w. noting (staged id) w.1 (c.stage_seed id seed w.0);
    attach_seed = λ id ref w. noting (attached id ref) w.1 (c.attach_seed id ref w.0);
    detach_seed = λ id ref w. noting (detached id ref) w.1 (c.detach_seed id ref w.0);
    delete_seed = λ ref w. noting (seed_deleted ref) w.1 (c.delete_seed ref w.0);
    bootstrap_consumed = λ id w. noting (λ _. inspected) w.1 (c.bootstrap_consumed id w.0);
    start = λ id w. noting (λ _. started id) w.1 (c.start id w.0);
    stop = λ id force w. noting (λ _. stopped id force) w.1 (c.stop id force w.0);
    delete = λ id w. noting (λ _. deleted id) w.1 (c.delete id w.0);
  }

is_ok {ℓ} : {A : Type ℓ} → Result A → Bool
is_ok (ok a) = true
is_ok (err e) = false

-- A VM that passes the ownership and runtime checks of this manager, with that ID.
unfoldable pub is_owned : {S : Type 0} → Kit → Manager S → ℤ → Vm → Bool
unfolding is_ok
is_owned kit m id vm = is_ok (owner kit m vm) && int_eq vm.id id

-- Some listing showed a VM that passes the test.
unfoldable pub seen : (Vm → Bool) → Log → Bool
unfolding any
seen p [] = false
seen p (listed (ok vms) ∷ log) = any p vms || seen p log
seen p (call ∷ log) = seen p log

-- What the call just before must have been.
unfoldable pub just_resolved : ℤ → Log → Bool
just_resolved id (resolved (ok template) ∷ log) =
    is_exact_template template && int_eq template.id id
just_resolved id _ = false

unfoldable pub just_staged : ℤ → Text → Log → Bool
just_staged id ref (staged id' (ok ref') ∷ log) =
    int_eq id' id && text_eq ref' ref && not (is_blank ref)
just_staged id ref _ = false

unfoldable pub just_attached : ℤ → Log → Bool
just_attached id (attached id' ref (ok _) ∷ log) = int_eq id' id
just_attached id _ = false

unfoldable pub just_detached : Text → Log → Bool
just_detached ref (detached id ref' (ok _) ∷ log) = text_eq ref' ref
just_detached ref _ = false

module _ {S : Type 0} (kit : Kit) (m : Manager S) where
  abbrev pub is_idle : ℤ → Vm → Bool
  is_idle id vm = is_owned kit m id vm && is_stopped vm.state

  abbrev pub is_busy : ℤ → Vm → Bool
  is_busy id vm = is_owned kit m id vm && is_running vm.state

  abbrev pub is_seeded : ℤ → Text → Vm → Bool
  is_seeded id ref vm = is_idle id vm && text_eq vm.seed_ref ref

  abbrev pub is_bare : ℤ → Vm → Bool
  is_bare id vm = is_idle id vm && is_blank vm.seed_ref

  -- The two calls just before took away a seed of this VM that a listing before them showed.
  unfoldable pub just_unseeded : ℤ → Log → Bool
  unfolding seen
  just_unseeded id (seed_deleted ref (ok _) ∷ detached id' ref' (ok _) ∷ log) =
      int_eq id' id && text_eq ref' ref && seen (is_seeded id ref) log
  just_unseeded id _ = false

  unfoldable pub is_warranted : Call → Log → Bool
  unfolding seen just_resolved just_staged just_attached just_detached just_unseeded
  is_warranted (cloned id spec) log = just_resolved id log
  is_warranted (attached id ref answer) log = just_staged id ref log
  is_warranted (started id) log = just_attached id log
  is_warranted (detached id ref answer) log = seen (is_seeded id ref) log
  is_warranted (seed_deleted ref answer) log = just_detached ref log
  is_warranted (stopped id force) log = not force && seen (is_busy id) log
  is_warranted (deleted id) log = seen (is_bare id) log || just_unseeded id log
  is_warranted _ log = true

  -- Every call of the log was warranted when it was made.
  unfoldable pub is_justified : Log → Bool
  unfolding is_warranted
  is_justified [] = true
  is_justified (call ∷ log) = is_warranted call log && is_justified log
