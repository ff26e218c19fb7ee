-- ===== src/Appstore/Decode/Gated.antt =====
-- internal/truenasstore: an app of the manager's, composed with the gateway policy and read back.
use garm_provider_truenas.Base.{◌≡◌, false, some, arith, ok, []}
use garm_provider_truenas.Base.Int.{pos, decimal}
use garm_provider_truenas.Base.Text.{Text, codes, text_eq, text_eq_refl, text_lt, is_blank}
use garm_provider_truenas.Kit.{Kit}
use garm_provider_truenas.Provider.{Bootstrap, general_cpu, general_memory_bytes}
use garm_provider_truenas.Provider.Manager.{app_spec}
use garm_provider_truenas.Appstore.{
  runner_service, map_state, labels, environment, container_bootstrap_command,
}
use garm_provider_truenas.Appstore.Reading.{
  get_field, count_fields, string_map, is_text, is_list, text_at, has_field, has_all, only_keys,
  only_entries, has_entries, has_key, as_object,
}
use garm_provider_truenas.Appstore.Decode.{
  ReadInteger, decode_app, compose_object, decode_labelled, decode_managed, label, label_guards,
  validate_fixed_runner_service, runner_guards, environment_guards, first_drift, is_integer,
}
use garm_provider_truenas.Appstore.Decode.RoundTrip.{IsLabel}
use garm_provider_truenas.Appstore.Gateway.{put_field}
use garm_provider_truenas.Appstore.Gateway.Policy.{gated}

module _ (kit : Kit) (read : ReadInteger)
    (reads_cpu : read (decimal (pos general_cpu)) ≡ some (pos general_cpu))
    (reads_memory : read (decimal (pos general_memory_bytes))
      ≡ some (pos general_memory_bytes)) where
  -- The same for a document that was sent with the gateway policy on.
  pub decode_app-gated :
      (controller_id name : Text) (input : Bootstrap) (entry state : Text)
      → is_blank input.callback_url ≡ false
      → is_blank input.metadata_url ≡ false
      → is_blank input.token ≡ false
      → IsLabel controller_id
      → IsLabel input.pool_id
      → decode_app kit read (record {
        name = name;
        state = state;
        config = some (gated kit (app_spec controller_id name input) entry);
      })
        ≡ ok (record {
          spec = record (app_spec controller_id name input) { bootstrap_token = [] };
          state = map_state state;
        })
  unfolding decode_app runner_service app_spec get_field codes text_eq count_fields string_map
      is_text is_list text_at has_field has_all only_keys only_entries has_entries has_key as_object
      decode_labelled decode_managed label label_guards validate_fixed_runner_service runner_guards
      environment_guards first_drift is_integer compose_object labels environment gated put_field
      text_lt
  decode_app-gated controller_id name input entry state callback metadata token controller pool =
      ground (arith, reads_cpu, reads_memory, text_eq_refl (container_bootstrap_command kit))
