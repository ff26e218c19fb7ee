-- ===== src/Command/Reading/RoundTrip.antt =====
-- cmd/garm-provider-truenas/garm_provider.go: a configuration that is written with the tags of its
-- types, and read by `loadConfig`.
use garm_provider_truenas.Base.{
  zero, suc, ◌≡◌, refl, Bool, true, false, not, [], ◌∷◌, Option, none, some, ok, is_empty,
}
use garm_provider_truenas.Base.Int.{ℤ, pos, negsuc, decimal}
use garm_provider_truenas.Base.Json.{Value, boolean, number, string, object, Fields, close, field}
use garm_provider_truenas.Base.Text.{Text, codes, equal_fold, fold_rune, text_eq}
use garm_provider_truenas.Command.{Config, TrueNasConfig}
use garm_provider_truenas.Command.Reading.{
  ConfigFiles, empty_true_nas, text_field, bool_field, int_field, true_nas_field, true_nas_fields,
  section_field, config_field, config_fields, decode_config, load_config,
}

-- `omitempty`
abbrev field_unless : Bool → Text → Value → Fields → Fields
field_unless true key v rest = rest
field_unless false key v rest = field key v rest

abbrev is_zero : ℤ → Bool
is_zero (pos zero) = true
is_zero _ = false

unfoldable pub true_nas_value : TrueNasConfig → Fields
unfolding codes decimal
true_nas_value c = field (codes "host") (string c.host) (
    field (codes "username") (string c.username) (
      field (codes "api_key_env") (string c.api_key_env) (
        field_unless (is_empty c.backend) (codes "backend") (string c.backend) (
          field_unless (is_zero c.port) (codes "port") (number (decimal c.port)) (
            field_unless (not c.insecure_skip_verify) (codes "insecure_skip_verify")
              (boolean c.insecure_skip_verify)
              (field_unless (not c.callback_host_gateway) (codes "callback_host_gateway")
                (boolean c.callback_host_gateway) close))))))

abbrev section_value : Option TrueNasConfig → Fields
section_value none = close
section_value (some c) = field (codes "truenas") (object (true_nas_value c)) close

unfoldable pub config_value : Config → Value
unfolding codes
config_value c = object (
    field (codes "mode") (string c.mode) (
      field_unless (is_empty c.state_file) (codes "state_file") (string c.state_file)
        (section_value c.true_nas)))

-- The number in the section is the integer that was written.
abbrev pub ReadsPort : (Text → Option ℤ) → Option TrueNasConfig → Type 0
ReadsPort integer none = Unit
ReadsPort integer (some c) = integer (decimal c.port) ≡ some c.port

module _ (integer : Text → Option ℤ) (c : TrueNasConfig) where
  -- The section as far as it was read; fields that were left out keep their zero value.
  abbrev partial : Text → ℤ → Bool → Bool → TrueNasConfig
  partial backend port skip gateway = record c {
    backend = backend;
    port = port;
    insecure_skip_verify = skip;
    callback_host_gateway = gateway;
  }

  abbrev gateway_fields : Bool → Fields
  gateway_fields gateway =
      field_unless (not gateway) (codes "callback_host_gateway") (boolean gateway) close

  abbrev skip_fields : Bool → Bool → Fields
  skip_fields skip gateway =
      field_unless (not skip) (codes "insecure_skip_verify") (boolean skip) (gateway_fields gateway)

  abbrev port_fields : ℤ → Bool → Bool → Fields
  port_fields port skip gateway =
      field_unless (is_zero port) (codes "port") (number (decimal port)) (skip_fields skip gateway)

  gateway_read :
      (backend : Text) (port : ℤ) (skip gateway : Bool)
      → true_nas_fields integer (gateway_fields gateway) (partial backend port skip false)
        ≡ some (partial backend port skip gateway)
  unfolding true_nas_fields true_nas_field bool_field equal_fold fold_rune text_eq codes
  gateway_read backend port skip true = refl
  gateway_read backend port skip false = refl

  skip_read :
      (backend : Text) (port : ℤ) (skip gateway : Bool)
      → true_nas_fields integer (skip_fields skip gateway) (partial backend port false false)
        ≡ some (partial backend port skip gateway)
  unfolding true_nas_fields true_nas_field bool_field equal_fold fold_rune text_eq codes
  skip_read backend port true gateway = gateway_read backend port true gateway
  skip_read backend port false gateway = gateway_read backend port false gateway

  port_read :
      (backend : Text) (port : ℤ) (skip gateway : Bool)
      → integer (decimal port) ≡ some port
      → true_nas_fields integer
          (port_fields port skip gateway)
          (partial backend (pos 0) false false)
        ≡ some (partial backend port skip gateway)
  unfolding true_nas_fields true_nas_field int_field equal_fold fold_rune text_eq codes
  port_read backend (pos zero) skip gateway h = skip_read backend (pos 0) skip gateway
  port_read backend (pos (suc n)) skip gateway h =
      rw h (skip_read backend (pos (suc n)) skip gateway)
  port_read backend (negsuc n) skip gateway h = rw h (skip_read backend (negsuc n) skip gateway)

  backend_read :
      (backend : Text) (port : ℤ) (skip gateway : Bool)
      → integer (decimal port) ≡ some port
      → true_nas_fields integer
          (field_unless
            (is_empty backend)
            (codes "backend")
            (string backend)
            (port_fields port skip gateway))
          (partial [] (pos 0) false false)
        ≡ some (partial backend port skip gateway)
  unfolding true_nas_fields true_nas_field text_field equal_fold fold_rune text_eq codes
  backend_read [] port skip gateway h = port_read [] port skip gateway h
  backend_read (b ∷ backend) port skip gateway h = port_read (b ∷ backend) port skip gateway h

  true_nas_read :
      integer (decimal c.port) ≡ some c.port
      → true_nas_fields integer (true_nas_value c) empty_true_nas ≡ some c
  unfolding true_nas_value true_nas_fields true_nas_field text_field equal_fold fold_rune text_eq
      codes
  true_nas_read h = backend_read c.backend c.port c.insecure_skip_verify c.callback_host_gateway h

section_read :
    (integer : Text → Option ℤ) (mode state : Text) (section : Option TrueNasConfig)
    → ReadsPort integer section
    → config_fields integer
        (section_value section)
        (record { mode = mode; state_file = state; true_nas = none })
      ≡ some (record { mode = mode; state_file = state; true_nas = section })
unfolding config_fields config_field section_field equal_fold fold_rune text_eq codes
section_read integer mode state none h = refl
section_read integer mode state (some c) h = rw (true_nas_read integer c h) refl

state_read :
    (integer : Text → Option ℤ) (mode state : Text) (section : Option TrueNasConfig)
    → ReadsPort integer section
    → config_fields integer
        (field_unless (is_empty state) (codes "state_file") (string state) (section_value section))
        (record { mode = mode; state_file = []; true_nas = none })
      ≡ some (record { mode = mode; state_file = state; true_nas = section })
unfolding config_fields config_field text_field equal_fold fold_rune text_eq codes
state_read integer mode [] section h = section_read integer mode [] section h
state_read integer mode (s ∷ state) section h = section_read integer mode (s ∷ state) section h

-- Every configuration, written as the JSON object that its tags describe and without the fields that
-- these leave out, is read back by loadConfig as it was, if the file opens, if the object is its
-- first JSON value, and if the port that it holds reads as an `int`.
pub load_config-config_value :
    (files : ConfigFiles) (path content : Text) (cfg : Config)
    → files.opened path ≡ some content
    → files.first_value content ≡ some (config_value cfg)
    → ReadsPort files.integer cfg.true_nas
    → load_config files path ≡ ok cfg
unfolding load_config decode_config config_value config_fields config_field text_field equal_fold
    fold_rune text_eq codes
load_config-config_value files path content cfg opened first port =
    rw (opened, first)
      (rw (state_read files.integer cfg.mode cfg.state_file cfg.true_nas port) refl)
