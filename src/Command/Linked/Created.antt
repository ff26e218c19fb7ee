-- ===== src/Command/Linked/Created.antt =====
-- cmd/garm-provider-truenas/garm_provider.go over internal/provider and internal/truenasstore:
-- `CreateInstance` from the request of GARM to the app that TrueNAS keeps.
use garm_provider_truenas.Base.{
  ◌≡◌, refl, true, false, none, some, Option, arith, Result, ok, done, is_empty,
}
use garm_provider_truenas.Base.Int.{pos, decimal}
use garm_provider_truenas.Base.Text.{Text, codes, text_eq, is_blank}
use garm_provider_truenas.Kit.{Kit}
use garm_provider_truenas.Provider.{App, Client, general_cpu, general_memory_bytes}
use garm_provider_truenas.Provider.Contract.{Updates, Realizes}
use garm_provider_truenas.Provider.Contract.Lifecycle.{create_fresh}
use garm_provider_truenas.Provider.Manager.{Manager, app_spec, new_manager, to_instance}
use garm_provider_truenas.Provider.Names.{sanitize, owned_name}
use garm_provider_truenas.Appstore.Decode.{ManagedApp, ReadInteger}
use garm_provider_truenas.Appstore.Gateway.{Network}
use garm_provider_truenas.Appstore.Store.{
  Transport, client, create_app, get_app, list_apps, delete_app, connect, dial, close_failed,
}
use garm_provider_truenas.Appstore.Store.Refine.{Keeps, linked, view, Healthy, linked-IsStore}
use garm_provider_truenas.Appstore.Store.Sent.{IsAdmitted}
use garm_provider_truenas.Command
use garm_provider_truenas.Command.{TrueNasConfig, BootstrapInstance, to_garm_instance}
use garm_provider_truenas.Command.Settings.{
  validate_config, validate_config_iff, is_usable, is_usable_true_nas,
}
use garm_provider_truenas.Command.Contract.{ParseUrl, validate_bootstrap_contract, to_bootstrap}
use garm_provider_truenas.Command.Contract.Accepts.{validate_bootstrap-to_bootstrap}
use garm_provider_truenas.Command.External.{
  World, Connection, ExternalProvider, api_key_name, open_manager, create_instance,
}
use garm_provider_truenas.Command.External.Frame.{create_instance-done}
use garm_provider_truenas.Command.Linked.{config_of, connect_store, linked_world}

module _ {S : Type 0} (kit : Kit) (net : Network) (read : ReadInteger)
    (transport : Transport S) where
  -- A configuration whose host, user name and key are not blank opens the connection.
  connect-done :
      (c : Connection) (s s' : S)
      → is_blank c.host ≡ false
      → is_blank c.username ≡ false
      → is_blank c.api_key ≡ false
      → transport.configure (config_of c) ≡ ok tt
      → transport.connect (config_of c) s ≡ done tt s'
      → connect_store kit net read transport c s
        ≡ done
            (client kit net read
              (linked kit net read c.callback_host_gateway transport.apps transport.caller))
            s'
  unfolding connect connect_store dial close_failed
  connect-done c s s' host username api_key configured connected =
      rw (host, username, api_key, configured, connected) refl

  module _ (load_config : Text → Result Command.Config) (getenv : Text → Text)
      (mock_store : Text → Client S) (c : TrueNasConfig)
      (state_file config_path controller_id : Text) where
    abbrev pub world : World S
    world = linked_world kit net read transport load_config getenv mock_store

    -- The command in truenas mode.
    abbrev pub true_nas_provider : ExternalProvider
    true_nas_provider = record {
      cfg = record { mode = codes "truenas"; state_file = state_file; true_nas = some c };
      config_path = config_path;
      controller_id = controller_id;
    }

    abbrev pub connection : Connection
    connection = record {
      host = c.host;
      username = c.username;
      api_key = getenv (api_key_name world c);
      port = c.port;
      callback_host_gateway = c.callback_host_gateway;
    }

    -- The manager over the store.
    abbrev pub true_nas_manager : Manager S
    true_nas_manager = record {
      client =
          client kit net read
            (linked kit net read c.callback_host_gateway transport.apps transport.caller);
      controller_id = controller_id;
    }

    usable :
        validate_config true_nas_provider.cfg ≡ ok tt
        → (is_blank c.host ≡ false) × (is_blank c.username ≡ false)
    unfolding is_usable is_usable_true_nas
    usable valid =
        let h = (validate_config_iff true_nas_provider.cfg).0 valid in
        (ground (arith, h), ground (arith, h))

    open_manager-done :
        (s s' : S)
        → validate_config true_nas_provider.cfg ≡ ok tt
        → is_blank connection.api_key ≡ false
        → is_blank controller_id ≡ false
        → is_empty (sanitize controller_id) ≡ false
        → transport.configure (config_of connection) ≡ ok tt
        → transport.connect (config_of connection) s ≡ done tt s'
        → open_manager world true_nas_provider s
          ≡ done (record { manager = true_nas_manager; connected = true }) s'
    unfolding open_manager text_eq codes new_manager is_blank create_app get_app list_apps
        delete_app
    open_manager-done s s' valid api_key blank named configured connected =
        rw
          (
            api_key,
            connect-done connection s s' (usable valid).0 (usable valid).1 api_key configured
                connected,
          )
          (rw (blank, named) refl)

    module _ (raw : S → Text → Option ManagedApp)
        (truenas : Keeps kit transport.apps transport.caller raw)
        (reads_cpu : read (decimal (pos general_cpu)) ≡ some (pos general_cpu))
        (reads_memory : read (decimal (pos general_memory_bytes))
          ≡ some (pos general_memory_bytes)) where
      -- The apps under their names, and the names at which the store can read them.
      abbrev pub shows : S → Text → Option App
      shows = view kit net read c.callback_host_gateway transport.apps transport.caller raw truenas

      abbrev pub ReadsAt : S → Text → Type 0
      ReadsAt =
          Healthy kit net read c.callback_host_gateway transport.apps transport.caller raw truenas

      abbrev pub app_name : BootstrapInstance → Text
      app_name b = owned_name kit.sha256 controller_id b.name

      -- What becomes of a request: an app, in the state in which the connection is closed.
      abbrev pub Creates : ParseUrl → BootstrapInstance → S → S → Type 0
      Creates parse b s opened =
          (app : App) × (t : S) × (create_instance world kit.sha256 kit.json parse true_nas_provider
              b s
            ≡ done (to_garm_instance (to_instance app)) (transport.close t))
          × Realizes (app_spec controller_id (app_name b) (to_bootstrap b)) app
          × ReadsAt t (app_name b)
          × Updates (shows opened) (app_name b) (some app) (shows t)

      fresh_app :
          (parse : ParseUrl) (b : BootstrapInstance) (s opened : S)
          → open_manager world true_nas_provider s
            ≡ done (record { manager = true_nas_manager; connected = true }) opened
          → validate_bootstrap_contract kit.json parse b ≡ ok tt
          → is_empty (sanitize b.name) ≡ false
          → ReadsAt opened (app_name b)
          → IsAdmitted kit net read c.callback_host_gateway
              (app_spec controller_id (app_name b) (to_bootstrap b))
          → shows opened (app_name b) ≡ none
          → Creates parse b s opened
      unfolding to_bootstrap
      fresh_app parse b s opened ready accepted named h fits absent =
          let new =
            create_fresh true_nas_manager ReadsAt (IsAdmitted kit net read c.callback_host_gateway)
              shows
              (linked-IsStore kit net read c.callback_host_gateway transport.apps transport.caller
                raw truenas reads_cpu reads_memory)
              kit.sha256 (to_bootstrap b) opened h fits
              (validate_bootstrap-to_bootstrap kit.json parse b accepted named) absent in
          (
            new.0,
            new.1,
            create_instance-done world kit.sha256 kit.json parse true_nas_provider b s opened new.1
                (record { manager = true_nas_manager; connected = true }) (to_instance new.0)
                accepted ready refl new.2,
            new.3,
            new.4,
            new.5,
          )

      -- `CreateInstance` in truenas mode, with a configuration that `validateConfig` accepts, a
      -- controller ID and an API key that are usable, and a TrueNAS that can be reached and keeps what
      -- it is sent: a request that the contract accepts, whose name has a character that `sanitize`
      -- keeps, whose app is admitted and whose app name is free, makes an app with its name, controller
      -- and pool under that name, changes no other, is answered with that app, and the connection is
      -- closed behind it.
      pub create_instance-linked :
          (parse : ParseUrl) (b : BootstrapInstance) (s opened : S)
          → validate_config true_nas_provider.cfg ≡ ok tt
          → is_blank connection.api_key ≡ false
          → is_blank controller_id ≡ false
          → is_empty (sanitize controller_id) ≡ false
          → transport.configure (config_of connection) ≡ ok tt
          → transport.connect (config_of connection) s ≡ done tt opened
          → validate_bootstrap_contract kit.json parse b ≡ ok tt
          → is_empty (sanitize b.name) ≡ false
          → ReadsAt opened (app_name b)
          → IsAdmitted kit net read c.callback_host_gateway
              (app_spec controller_id (app_name b) (to_bootstrap b))
          → shows opened (app_name b) ≡ none
          → Creates parse b s opened
      create_instance-linked parse b s opened valid api_key blank named configured connected =
          fresh_app parse b s opened
            (open_manager-done s opened valid api_key blank named configured connected)
