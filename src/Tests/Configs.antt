-- ===== src/Tests/Configs.antt =====
-- internal/truenasstore over a configuration that TrueNAS keeps as it was sent.
use garm_provider_truenas.Base.{◌≡◌, refl, false, [], some, if◌then◌else◌, ok}
use garm_provider_truenas.Base.Int.{pos, decimal}
use garm_provider_truenas.Base.Text.{codes, text_eq, is_blank, trim_space}
use garm_provider_truenas.Provider.{App, general_cpu, general_memory_bytes}
use garm_provider_truenas.Provider.Manager.{app_spec}
use garm_provider_truenas.Appstore.{map_state}
use garm_provider_truenas.Appstore.Decode.{ManagedApp, ReadInteger, decode_app}
use garm_provider_truenas.Appstore.Decode.RoundTrip.{kept, IsLabel, decode_app-kept}
use garm_provider_truenas.Appstore.Decode.Fixed.{Accepted, decode_app-Accepted}
use garm_provider_truenas.Tests.Data.{kit, input}

-- The two integers that stand in a document.
abbrev pub read : ReadInteger
read t = if text_eq t (codes "4") then some (pos 4) else some (pos 8589934592)

pub reads :
    (read (decimal (pos general_cpu)) ≡ some (pos general_cpu))
    × (read (decimal (pos general_memory_bytes)) ≡ some (pos general_memory_bytes))
unfolding decimal codes text_eq
reads = (refl, refl)

not_blank :
    (is_blank input.callback_url ≡ false)
    × (is_blank input.metadata_url ≡ false)
    × (is_blank input.token ≡ false)
unfolding is_blank codes
not_blank = (refl, refl, refl)

are_labels : IsLabel (codes "ctl") × IsLabel input.pool_id
unfolding codes trim_space text_eq
are_labels = ((refl, refl), (refl, refl))

abbrev shown : ManagedApp
shown = record {
  name = codes "garm-ctl-r";
  state = codes "RUNNING";
  config = some (kept kit (app_spec (codes "ctl") (codes "garm-ctl-r") input));
}

abbrev app : App
app = record {
  spec = record (app_spec (codes "ctl") (codes "garm-ctl-r") input) { bootstrap_token = [] };
  state = map_state (codes "RUNNING");
}

decode_app-kept_example : decode_app kit read shown ≡ ok app
decode_app-kept_example =
    decode_app-kept kit read reads.0 reads.1 (codes "ctl") (codes "garm-ctl-r") input not_blank.0
      not_blank.1 not_blank.2 are_labels.0 are_labels.1 (codes "RUNNING")

was_decoded : decode_app kit read shown ≡ ok app
was_decoded =
    decode_app-kept kit read reads.0 reads.1 (codes "ctl") (codes "garm-ctl-r") input not_blank.0
      not_blank.1 not_blank.2 are_labels.0 are_labels.1 (codes "RUNNING")

decode_app-Accepted_example : Accepted kit read shown app
decode_app-Accepted_example = decode_app-Accepted kit read shown app was_decoded
