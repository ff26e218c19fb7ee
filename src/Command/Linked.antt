-- ===== src/Command/Linked.antt =====
-- cmd/garm-provider-truenas/garm_provider.go over internal/truenasstore: the command in truenas mode,
-- with the store that it connects.
pub mod Created
use garm_provider_truenas.Base.{Bool, false, Result, Run, ◌>>=◌, return}
use garm_provider_truenas.Base.Text.{Text}
use garm_provider_truenas.Kit.{Kit}
use garm_provider_truenas.Provider.{Client}
use garm_provider_truenas.Appstore.Decode.{ReadInteger}
use garm_provider_truenas.Appstore.Gateway.{Network}
use garm_provider_truenas.Appstore.Store
use garm_provider_truenas.Appstore.Store.{Transport, client}
use garm_provider_truenas.Command
use garm_provider_truenas.Command.External.{World, Connection}

-- The `truenasstore.Config` that a connection is opened with.
abbrev pub config_of : Connection → Store.Config
config_of c = record {
  host = c.host;
  username = c.username;
  api_key = c.api_key;
  port = c.port;
  insecure_skip_verify = false;
  callback_host_gateway = c.callback_host_gateway;
}

module _ {S : Type 0} (kit : Kit) (net : Network) (read : ReadInteger)
    (transport : Transport S) where
  -- `truenasstore.Connect`, whose store is the backend of the manager.
  unfoldable pub connect_store : Connection → Run S (Client S)
  connect_store c = do
    store ← Store.connect transport (config_of c)
    return (client kit net read store)

  -- The world of a command in which the store is this one.
  abbrev pub linked_world :
      (Text → Result Command.Config) → (Text → Text) → (Text → Client S) → World S
  linked_world load_config getenv mock_store = record {
    load_config = load_config;
    getenv = getenv;
    mock_store = mock_store;
    connect = connect_store;
    close = transport.close;
  }
