-- ===== src/Container/Manager/Service.antt =====
-- The container backend over a whole sequence of requests.
use garm_provider_truenas.Base.{◌≡◌, true, List, [], ◌∷◌, state_of}
use garm_provider_truenas.Base.Text.{Text}
use garm_provider_truenas.Provider.{Bootstrap}
use garm_provider_truenas.Kit.{Kit}
use garm_provider_truenas.Container.{Client}
use garm_provider_truenas.Container.Manager.{
  Manager, get, list, create, delete, stop, start, remove_all,
}
use garm_provider_truenas.Container.Manager.Trace.{Log, is_justified}
use garm_provider_truenas.Container.Manager.Safety.{
  logged, Keeps, create-is_justified, delete-is_justified, stop-is_justified, get-is_justified,
  list-is_justified, remove_all-is_justified,
}

-- What is asked of the manager.
pub data Request : Type 0 where
  create_request : Bootstrap → Request
  get_request list_request delete_request start_request stop_request : Text → Request
  remove_all_request : Request

module _ {S : Type 0} (kit : Kit) (m : Manager S) where
  -- The state that a request leaves.
  unfoldable pub serve : Request → S → S
  serve (create_request input) w = state_of (create kit m input w)
  serve (get_request id) w = state_of (get kit m id w)
  serve (list_request pool_id) w = state_of (list kit m pool_id w)
  serve (delete_request id) w = state_of (delete kit m id w)
  serve (start_request id) w = state_of (start kit m id w)
  serve (stop_request id) w = state_of (stop kit m id w)
  serve remove_all_request w = state_of (remove_all kit m w)

  unfoldable pub serve_all : List Request → S → S
  unfolding serve
  serve_all [] w = w
  serve_all (r ∷ rs) w = serve_all rs (serve r w)

module _ {S : Type 0} (kit : Kit) (client : Client S) (controller_id system_version : Text) where
  start-is_justified :
      (id : Text)
      → Keeps kit client controller_id system_version
          (start kit (logged kit client controller_id system_version) id)
  unfolding start
  start-is_justified id s log h = h

  serve-is_justified :
      (r : Request) (s : S) (log : Log)
      → is_justified kit (logged kit client controller_id system_version) log ≡ true
      → is_justified kit
          (logged kit client controller_id system_version)
          (serve kit (logged kit client controller_id system_version) r (s, log)).1
        ≡ true
  unfolding serve
  serve-is_justified (create_request input) s log h =
      create-is_justified kit client controller_id system_version input s log h
  serve-is_justified (get_request id) s log h =
      get-is_justified kit client controller_id system_version id s log h
  serve-is_justified (list_request id) s log h =
      list-is_justified kit client controller_id system_version id s log h
  serve-is_justified (delete_request id) s log h =
      delete-is_justified kit client controller_id system_version id s log h
  serve-is_justified (start_request id) s log h = start-is_justified id s log h
  serve-is_justified (stop_request id) s log h =
      stop-is_justified kit client controller_id system_version id s log h
  serve-is_justified remove_all_request s log h =
      remove_all-is_justified kit client controller_id system_version s log h

  -- Through any sequence of requests, against any middleware, and after any calls for which this
  -- held before: a container is created only with the
  -- pinned image family, no autostart and the default ID map and capabilities; it is started, or its
  -- bootstrap state replaced (by the plain init and an empty environment), only if the manager
  -- created it; it is stopped by force only if the manager created it and was told just before that
  -- it runs, and without force only when a listing showed it as owned and running; and it is deleted
  -- only if the manager created it and was told just before that it is stopped, or when a listing
  -- showed it as owned and stopped.
  pub serve_all-is_justified_container :
      (rs : List Request) (s : S) (log : Log)
      → is_justified kit (logged kit client controller_id system_version) log ≡ true
      → is_justified kit
          (logged kit client controller_id system_version)
          (serve_all kit (logged kit client controller_id system_version) rs (s, log)).1
        ≡ true
  unfolding serve_all
  serve_all-is_justified_container [] s log h = h
  serve_all-is_justified_container (r ∷ rs) s log h =
      let after = serve kit (logged kit client controller_id system_version) r (s, log) in
      serve_all-is_justified_container rs after.0 after.1 (serve-is_justified r s log h)
