-- ===== src/Command/Reading.antt =====
-- cmd/garm-provider-truenas/garm_provider.go: `loadConfig`. Opening a file, the first JSON value of a
-- text and the `int` that a JSON number stands for are parameters.
pub mod RoundTrip
use garm_provider_truenas.Base.{
  Bool, false, [], Option, none, some, message, Result, ok, err, if◌then◌else◌,
}
use garm_provider_truenas.Base.Int.{ℤ, pos}
use garm_provider_truenas.Base.Json.{
  Value, null, boolean, number, string, array, object, Fields, close, field,
}
use garm_provider_truenas.Base.Text.{Text, codes, equal_fold}
use garm_provider_truenas.Command.{Config, TrueNasConfig}

pub record ConfigFiles : Type 0 where
  pub opened : Text → Option Text
  pub first_value : Text → Option Value
  pub integer : Text → Option ℤ

abbrev pub empty_true_nas : TrueNasConfig
empty_true_nas = record {
  host = [];
  username = [];
  api_key_env = [];
  backend = [];
  port = pos 0;
  insecure_skip_verify = false;
  callback_host_gateway = false;
}

abbrev pub empty_config : Config
empty_config = record { mode = []; state_file = []; true_nas = none }

-- What a value does to a field that holds `old`; none where its type does not fit. A `null` leaves
-- the field as it is.
unfoldable pub text_field : Value → Text → Option Text
text_field (string text) old = some text
text_field null old = some old
text_field _ old = none

unfoldable pub bool_field : Value → Bool → Option Bool
bool_field (boolean b) old = some b
bool_field null old = some old
bool_field _ old = none

unfoldable pub int_field : (Text → Option ℤ) → Value → ℤ → Option ℤ
int_field integer (number digits) old = integer digits
int_field integer null old = some old
int_field integer _ old = none

abbrev pub map_some {ℓ κ} : {A : Type ℓ} {B : Type κ} → (A → B) → Option A → Option B
map_some f none = none
map_some f (some a) = some (f a)

-- One key of the `truenas` object; keys fit whatever their case, and an unknown one is refused.
unfoldable pub true_nas_field :
    (Text → Option ℤ) → Text → Value → TrueNasConfig → Option TrueNasConfig
unfolding text_field bool_field int_field equal_fold codes
true_nas_field integer key v c =
    if equal_fold key (codes "host")
    then map_some (λ x. record c { host = x }) (text_field v c.host)
    else if equal_fold key (codes "username")
    then map_some (λ x. record c { username = x }) (text_field v c.username)
    else if equal_fold key (codes "api_key_env")
    then map_some (λ x. record c { api_key_env = x }) (text_field v c.api_key_env)
    else if equal_fold key (codes "backend")
    then map_some (λ x. record c { backend = x }) (text_field v c.backend)
    else if equal_fold key (codes "port")
    then map_some (λ x. record c { port = x }) (int_field integer v c.port)
    else if equal_fold key (codes "insecure_skip_verify")
    then map_some (λ x. record c { insecure_skip_verify = x }) (bool_field v c.insecure_skip_verify)
    else if equal_fold key (codes "callback_host_gateway")
    then map_some (λ x. record c { callback_host_gateway = x })
        (bool_field v c.callback_host_gateway)
    else none

abbrev pub next {ℓ κ} : {A : Type ℓ} {B : Type κ} → Option A → (A → Option B) → Option B
next none f = none
next (some a) f = f a

unfoldable pub true_nas_fields : (Text → Option ℤ) → Fields → TrueNasConfig → Option TrueNasConfig
true_nas_fields integer close c = some c
true_nas_fields integer (field key v fields) c =
    next (true_nas_field integer key v c) (true_nas_fields integer fields)

abbrev pub present : Option TrueNasConfig → TrueNasConfig
present none = empty_true_nas
present (some c) = c

-- `null` takes the section away; an object fills the one that is there.
unfoldable pub section_field :
    (Text → Option ℤ) → Value → Option TrueNasConfig → Option (Option TrueNasConfig)
section_field integer null old = some none
section_field integer (object fields) old =
    map_some some (true_nas_fields integer fields (present old))
section_field integer _ old = none

unfoldable pub config_field : (Text → Option ℤ) → Text → Value → Config → Option Config
unfolding text_field equal_fold codes
config_field integer key v c =
    if equal_fold key (codes "mode")
    then map_some (λ x. record c { mode = x }) (text_field v c.mode)
    else if equal_fold key (codes "state_file")
    then map_some (λ x. record c { state_file = x }) (text_field v c.state_file)
    else if equal_fold key (codes "truenas")
    then map_some (λ x. record c { true_nas = x }) (section_field integer v c.true_nas)
    else none

unfoldable pub config_fields : (Text → Option ℤ) → Fields → Config → Option Config
config_fields integer close c = some c
config_fields integer (field key v fields) c =
    next (config_field integer key v c) (config_fields integer fields)

unfoldable pub decode_config : (Text → Option ℤ) → Value → Option Config
decode_config integer (object fields) = config_fields integer fields empty_config
decode_config integer null = some empty_config
decode_config integer _ = none

abbrev decoded : Option Config → Result Config
decoded none = err (message "decode provider config")
decoded (some c) = ok c

abbrev of_content : ConfigFiles → Option Text → Result Config
of_content files none = err (message "open provider config")
of_content files (some content) =
    decoded (next (files.first_value content) (decode_config files.integer))

unfoldable pub load_config : ConfigFiles → Text → Result Config
load_config files path = of_content files (files.opened path)
