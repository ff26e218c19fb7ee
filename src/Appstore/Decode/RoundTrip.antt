-- ===== src/Appstore/Decode/RoundTrip.antt =====
-- internal/truenasstore/store.go: an app of the manager's, composed and read back.
use garm_provider_truenas.Base.{◌≡◌, false, some, arith, ok, []}
use garm_provider_truenas.Base.Int.{pos, decimal}
use garm_provider_truenas.Base.Json.{object, Fields, field, close}
use garm_provider_truenas.Base.Text.{Text, codes, text_eq, text_eq_refl, is_blank, trim_space}
use garm_provider_truenas.Kit.{Kit}
use garm_provider_truenas.Provider.{AppSpec, Bootstrap, general_cpu, general_memory_bytes}
use garm_provider_truenas.Provider.Manager.{app_spec}
use garm_provider_truenas.Appstore.{
  runner_service, map_state, labels, environment, container_bootstrap_command,
}
use garm_provider_truenas.Appstore.Reading.{
  get_field, count_fields, string_map, is_text, is_list, text_at, has_field, has_all, only_keys,
  only_entries, has_entries, has_key, as_object,
}
use garm_provider_truenas.Appstore.Decode.{
  ReadInteger, decode_app, compose_object, decode_labelled, decode_managed, label, label_guards,
  validate_fixed_runner_service, runner_guards, environment_guards, first_drift, is_integer,
}

-- The configuration of an app whose Compose document TrueNAS keeps as it was sent.
abbrev pub kept : Kit → AppSpec → Fields
kept kit spec =
    field (codes "services") (object (field (codes "runner") (runner_service kit spec) close)) close

-- A text with no blanks around it, and not empty.
abbrev pub IsLabel : Text → Type 0
IsLabel text = (trim_space text ≡ text) × (text_eq text [] ≡ false)

module _ (kit : Kit) (read : ReadInteger)
    (reads_cpu : read (decimal (pos general_cpu)) ≡ some (pos general_cpu))
    (reads_memory : read (decimal (pos general_memory_bytes))
      ≡ some (pos general_memory_bytes)) where
  -- If the two limits are read back as the integers they are, and TrueNAS keeps the Compose document
  -- as it was sent, then the app that the manager asks for is decoded to what was asked for, without
  -- its token, in the state that TrueNAS reports; provided that the two URLs and the token are not
  -- blank, and the controller and the pool are not empty and have no blanks around them.
  pub decode_app-kept :
      (controller_id name : Text) (input : Bootstrap)
      → is_blank input.callback_url ≡ false
      → is_blank input.metadata_url ≡ false
      → is_blank input.token ≡ false
      → IsLabel controller_id
      → IsLabel input.pool_id
      → (state : Text)
      → decode_app kit read (record {
        name = name;
        state = state;
        config = some (kept kit (app_spec controller_id name input));
      })
        ≡ ok (record {
          spec = record (app_spec controller_id name input) { bootstrap_token = [] };
          state = map_state state;
        })
  unfolding decode_app runner_service app_spec get_field codes text_eq count_fields string_map
      is_text is_list text_at has_field has_all only_keys only_entries has_entries has_key as_object
      decode_labelled decode_managed label label_guards validate_fixed_runner_service runner_guards
      environment_guards first_drift is_integer compose_object labels environment
  decode_app-kept controller_id name input callback metadata token controller pool state =
      ground (arith, reads_cpu, reads_memory, text_eq_refl (container_bootstrap_command kit))
