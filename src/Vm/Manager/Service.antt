-- ===== src/Vm/Manager/Service.antt =====
-- The VM backend over a whole sequence of requests.
use garm_provider_truenas.Base.{◌≡◌, true, List, [], ◌∷◌, state_of}
use garm_provider_truenas.Base.Text.{Text}
use garm_provider_truenas.Provider.{Bootstrap}
use garm_provider_truenas.Kit.{Kit}
use garm_provider_truenas.Vm.{Client}
use garm_provider_truenas.Vm.Manager.{
  Manager, get, list, create, delete, stop, start, remove_all, reconcile_bootstrap,
}
use garm_provider_truenas.Vm.Manager.Trace.{Log, is_justified}
use garm_provider_truenas.Vm.Manager.Safety.{
  logged, Keeps, create-is_justified, delete-is_justified, stop-is_justified, get-is_justified,
  list-is_justified, remove_all-is_justified, reconcile_bootstrap-is_justified,
}

-- What is asked of the manager.
pub data Request : Type 0 where
  create_request : Bootstrap → Request
  get_request list_request delete_request start_request stop_request : Text → Request
  reconcile_request : Text → Request
  remove_all_request : Request

module _ {S : Type 0} (kit : Kit) (m : Manager S) where
  -- The state that a request leaves.
  unfoldable pub serve : Request → S → S
  serve (create_request input) w = state_of (create kit m input w)
  serve (get_request id) w = state_of (get kit m id w)
  serve (list_request pool_id) w = state_of (list kit m pool_id w)
  serve (delete_request id) w = state_of (delete kit m id w)
  serve (start_request id) w = state_of (start kit m id w)
  serve (stop_request id) w = state_of (stop kit m id w)
  serve (reconcile_request id) w = state_of (reconcile_bootstrap kit m id w)
  serve remove_all_request w = state_of (remove_all kit m w)

  unfoldable pub serve_all : List Request → S → S
  unfolding serve
  serve_all [] w = w
  serve_all (r ∷ rs) w = serve_all rs (serve r w)

module _ {S : Type 0} (kit : Kit) (client : Client S) (controller_id system_version : Text) where
  start-is_justified :
      (id : Text)
      → Keeps kit client controller_id system_version
          (start kit (logged kit client controller_id system_version) id)
  unfolding start
  start-is_justified id s log h = h

  serve-is_justified :
      (r : Request) (s : S) (log : Log)
      → is_justified kit (logged kit client controller_id system_version) log ≡ true
      → is_justified kit
          (logged kit client controller_id system_version)
          (serve kit (logged kit client controller_id system_version) r (s, log)).1
        ≡ true
  unfolding serve
  serve-is_justified (create_request input) s log h =
      create-is_justified kit client controller_id system_version input s log h
  serve-is_justified (get_request id) s log h =
      get-is_justified kit client controller_id system_version id s log h
  serve-is_justified (list_request id) s log h =
      list-is_justified kit client controller_id system_version id s log h
  serve-is_justified (delete_request id) s log h =
      delete-is_justified kit client controller_id system_version id s log h
  serve-is_justified (start_request id) s log h = start-is_justified id s log h
  serve-is_justified (stop_request id) s log h =
      stop-is_justified kit client controller_id system_version id s log h
  serve-is_justified (reconcile_request id) s log h =
      reconcile_bootstrap-is_justified kit client controller_id system_version id s log h
  serve-is_justified remove_all_request s log h =
      remove_all-is_justified kit client controller_id system_version s log h

  -- Through any sequence of requests, against any middleware, and after any calls for which this
  -- held before: a VM is cloned only from the template
  -- whose identity was checked just before; it is started only when a seed was attached to it just
  -- before, and that seed was staged for it and has a name; it is stopped only without force, when a
  -- listing showed it as owned and running; a seed is detached from it only when a listing showed it
  -- as owned and stopped with that seed; a seed is deleted only when it was detached just before; and
  -- it is deleted only when a listing showed it as owned, stopped and without a seed, or when the
  -- call just before deleted a seed, the call before that detached this seed from this VM, and a
  -- listing before these showed the VM as owned and stopped with this seed.
  pub serve_all-is_justified_vm :
      (rs : List Request) (s : S) (log : Log)
      → is_justified kit (logged kit client controller_id system_version) log ≡ true
      → is_justified kit
          (logged kit client controller_id system_version)
          (serve_all kit (logged kit client controller_id system_version) rs (s, log)).1
        ≡ true
  unfolding serve_all
  serve_all-is_justified_vm [] s log h = h
  serve_all-is_justified_vm (r ∷ rs) s log h =
      let after = serve kit (logged kit client controller_id system_version) r (s, log) in
      serve_all-is_justified_vm rs after.0 after.1 (serve-is_justified r s log h)
