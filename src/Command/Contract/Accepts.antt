-- ===== src/Command/Contract/Accepts.antt =====
-- cmd/garm-provider-truenas/garm_provider.go and internal/provider/provider.go: the two checks of a
-- bootstrap, one behind the other.
use garm_provider_truenas.Base.{◌≡◌, false, arith, is_empty, ok}
use garm_provider_truenas.Base.Json.{Json}
use garm_provider_truenas.Provider.Manager.{validate_bootstrap}
use garm_provider_truenas.Provider.Names.{sanitize}
use garm_provider_truenas.Command.{BootstrapInstance}
use garm_provider_truenas.Command.Contract.{ParseUrl, validate_bootstrap_contract, to_bootstrap}

-- A bootstrap that the command accepts is accepted by the manager, if its name has a character that
-- `sanitize` keeps.
pub validate_bootstrap-to_bootstrap :
    (json : Json) (parse : ParseUrl) (b : BootstrapInstance)
    → validate_bootstrap_contract json parse b ≡ ok tt
    → is_empty (sanitize b.name) ≡ false
    → validate_bootstrap (to_bootstrap b) ≡ ok tt
unfolding validate_bootstrap_contract validate_bootstrap to_bootstrap
validate_bootstrap-to_bootstrap json parse b accepted named = ground arith
