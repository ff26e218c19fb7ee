-- ===== src/Tests/Loading.antt =====
-- `loadConfig` on concrete files.
use garm_provider_truenas.Base.{◌≡◌, refl, true, [], none, some, ok}
use garm_provider_truenas.Base.Int.{pos}
use garm_provider_truenas.Base.Json.{null, string, object, close, field}
use garm_provider_truenas.Base.Text.{codes}
use garm_provider_truenas.Command.{Config}
use garm_provider_truenas.Command.Reading.{
  ConfigFiles, decode_config, load_config, empty_config, empty_true_nas, config_fields,
  config_field, section_field, true_nas_fields, true_nas_field,
}
use garm_provider_truenas.Command.Reading.RoundTrip.{config_value, load_config-config_value}

abbrev live : Config
live = record {
  mode = codes "truenas";
  state_file = [];
  true_nas = some (record empty_true_nas {
    host = codes "nas";
    username = codes "garm";
    port = pos 443;
    callback_host_gateway = true;
  });
}

-- One file, in which every text stands for that configuration and every number for its port.
abbrev files : ConfigFiles
files = record {
  opened = λ path. some (codes "file");
  first_value = λ text. some (config_value live);
  integer = λ digits. some (pos 443);
}

-- Keys fit whatever their case, the last one counts, and a null leaves the field as it is.
keys_read :
    decode_config files.integer (
      object (
        field
          (codes "MODE")
          (string (codes "a"))
          (field (codes "mode") (string (codes "mock")) (field (codes "Mode") null close))))
    ≡ some (record empty_config { mode = codes "mock" })
unfolding decode_config config_fields config_field codes
keys_read = refl

unknown_refused :
    decode_config files.integer (
      object (
        field
          (codes "truenas")
          (object (field (codes "password") (string (codes "x")) close))
          close))
    ≡ none
unfolding decode_config config_fields config_field section_field true_nas_fields true_nas_field
    codes
unknown_refused = refl

load_config-config_value_example : load_config files (codes "p") ≡ ok live
load_config-config_value_example =
    load_config-config_value files (codes "p") (codes "file") live refl refl refl
