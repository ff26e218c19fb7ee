-- ===== src/Tests/Stores.antt =====
-- internal/truenasstore over a TrueNAS that keeps custom apps under their names.
use garm_provider_truenas.Base.{
  In, ap, ◌≡◌, refl, Bool, true, false, Option, none, some, if◌then◌else◌, [], ◌∷◌, ok, done, All,
  inl, inr,
}
use garm_provider_truenas.Base.Json.{Json, Value, object, Fields, array, item, string}
use garm_provider_truenas.Base.Text.{
  Text, codes, text_eq, is_blank, trim_space, equal_fold, to_lower,
}
use garm_provider_truenas.Kit.{Kit}
use garm_provider_truenas.Provider.{App, AppSpec}
use garm_provider_truenas.Provider.Contract.{IsStore}
use garm_provider_truenas.Provider.Manager.{app_spec}
use garm_provider_truenas.Appstore.{
  map_state, runner_service, check_spec, plausible_managed_app_name, cut_dash,
}
use garm_provider_truenas.Appstore.Reading.{get_field, as_object, has_field}
use garm_provider_truenas.Appstore.Decode.{ManagedApp, decode_app}
use garm_provider_truenas.Appstore.Decode.RoundTrip.{kept, IsLabel}
use garm_provider_truenas.Appstore.Gateway.{
  Network, callback_host_gateway_entry, validate_callback_host_gateway_app_config,
}
use garm_provider_truenas.Appstore.Gateway.Policy.{gated, sent, is_accepted, validate-sent}
use garm_provider_truenas.Appstore.Store.{
  AppService, JobCaller, delete_arguments, client, list_apps, sort_names,
}
use garm_provider_truenas.Appstore.Store.Sent.{
  IsAdmitted, IsSendable, decode-sent, validates_sent, entry_of,
}
use garm_provider_truenas.Appstore.Store.Refine.{Keeps, linked, view, Healthy, linked-IsStore}
use garm_provider_truenas.Appstore.Store.Listing.{IsListed, list_apps-All}
use garm_provider_truenas.Appstore.Store.Complete.{list_apps-In}
use garm_provider_truenas.Tests.Configs.{read, reads}
use garm_provider_truenas.Tests.Data.{kit, input}

abbrev pub spec : AppSpec
spec = app_spec (codes "ctl") (codes "garm-ctl-r") input

-- A resolver for which every URL is one on the host `garm`.
abbrev pub net : Network
net = record {
  parse_url =
      λ t. some (record { scheme = codes "https"; host = codes "garm"; hostname = codes "garm" });
  is_ip = λ t. false;
}

abbrev pub entry : Text
entry = codes "garm:host-gateway"

pub entry_ok : callback_host_gateway_entry net spec.callback_url spec.metadata_url ≡ ok entry
unfolding callback_host_gateway_entry codes text_eq trim_space equal_fold to_lower
entry_ok = refl

validate-sent_example :
    is_accepted (
      validate_callback_host_gateway_app_config kit net
        (record {
          name = codes "garm-ctl-r";
          state = codes "RUNNING";
          config = some (sent kit true spec entry);
        })
        false)
    ≡ false
validate-sent_example =
    validate-sent kit net true false spec entry (codes "garm-ctl-r") (codes "RUNNING") entry_ok

-- The JSON library on the two documents that a creation of this app can send.
unfoldable pub with_hosts : Value → Bool
unfolding as_object get_field has_field
with_hosts (object doc) = with_services (as_object (get_field (codes "services") doc))
  where
    with_runner : Option Fields → Bool
    with_runner none = false
    with_runner (some runner) = has_field (codes "extra_hosts") runner

    with_services : Option Fields → Bool
    with_services none = false
    with_services (some services) = with_runner (as_object (get_field (codes "runner") services))
with_hosts v = false

abbrev pub documents : Json
documents = record {
  marshal = λ v. if with_hosts v then codes "on" else codes "off";
  unmarshal =
      λ t. some (object (if text_eq t (codes "on") then gated kit spec entry else kept kit spec));
}

abbrev pub two_kit : Kit
two_kit = record kit { json = documents }

abbrev pub Apps : Type 0
Apps = Text → Option ManagedApp

unfoldable pub fields_of : Option Value → Option Fields
fields_of (some (object fields)) = some fields
fields_of v = none

unfoldable pub first_text : Value → Text
first_text (array (item (string t) rest)) = t
first_text v = []

abbrev pub service : AppService Apps
service = record {
  create_app = λ name document s. done tt (λ k.
      if text_eq name k
      then some (record {
        name = name;
        state = codes "RUNNING";
        config = fields_of (documents.unmarshal document);
      })
      else s k);
  get_app_with_config = λ name s. done (s name) s;
  list_apps = λ s. done (codes "other" ∷ codes "garm-ctl-r" ∷ []) s;
}

abbrev pub jobs : JobCaller Apps
jobs = record {
  call_and_wait =
      λ method arguments s. done tt (λ k. if text_eq (first_text arguments) k then none else s k);
}

pub truenas : Keeps two_kit service jobs (λ s name. s name)
unfolding fields_of first_text delete_arguments
truenas = record {
  get-raw = λ name s. refl;
  create-raw = λ name document fields s reads fresh. (
    codes "RUNNING",
    _,
    refl,
    λ k.
        ap
          (λ v.
            if text_eq name k
            then some (record { name = name; state = codes "RUNNING"; config = fields_of v })
            else s k)
          reads,
  );
  delete-raw = λ name app s there. (_, refl, λ k. refl);
}

linked-IsStore_example :
    IsStore
      (client two_kit net read (linked two_kit net read true service jobs))
      (Healthy two_kit net read true service jobs (λ s name. s name) truenas)
      (IsAdmitted two_kit net read true)
      (view two_kit net read true service jobs (λ s name. s name) truenas)
linked-IsStore_example =
    linked-IsStore two_kit net read true service jobs (λ s name. s name) truenas reads.0 reads.1

pub not_blank :
    (is_blank spec.callback_url ≡ false)
    × (is_blank spec.metadata_url ≡ false)
    × (is_blank spec.bootstrap_token ≡ false)
unfolding is_blank codes app_spec
not_blank = (refl, refl, refl)

pub are_labels : IsLabel spec.controller_id × IsLabel spec.pool_id
unfolding codes trim_space text_eq app_spec
are_labels = ((refl, refl), (refl, refl))

pub reads_back :
    (documents.unmarshal (documents.marshal (object (kept two_kit spec)))
      ≡ some (object (kept two_kit spec)))
    × (documents.unmarshal (documents.marshal (object (gated two_kit spec entry)))
        ≡ some (object (gated two_kit spec entry)))
unfolding with_hosts gated runner_service codes text_eq
reads_back = (refl, refl)

fixed : check_spec spec ≡ ok tt
unfolding check_spec codes text_eq app_spec
fixed = refl

abbrev sendable : IsSendable two_kit net read true true spec
sendable = (entry, entry_ok, reads_back.1)

admitted : IsAdmitted two_kit net read true spec
admitted = record {
  fixed = fixed;
  controller = are_labels.0;
  pool = are_labels.1;
  callback = not_blank.0;
  metadata = not_blank.1;
  token = not_blank.2;
  reads_back = reads_back.0;
  sendable = sendable;
}

abbrev name : Text
name = codes "garm-ctl-r"

abbrev kept_app : ManagedApp
kept_app = record {
  name = name;
  state = codes "RUNNING";
  config = some (sent two_kit true spec entry);
}

abbrev app : App
app = record { spec = record spec { bootstrap_token = [] }; state = map_state (codes "RUNNING") }

decoded : decode_app two_kit read kept_app ≡ ok app
unfolding codes app_spec
decoded =
    decode-sent two_kit net read true reads.0 reads.1 true spec entry (codes "RUNNING") admitted

valid : validate_callback_host_gateway_app_config two_kit net kept_app true ≡ ok tt
unfolding entry_of codes
valid = validates_sent two_kit net read true true spec sendable name (codes "RUNNING")

abbrev one_app : Apps
one_app k = if text_eq k name then some kept_app else none

plausible : plausible_managed_app_name name ≡ true
unfolding plausible_managed_app_name cut_dash codes is_blank
plausible = refl

listed :
    list_apps two_kit net read (linked two_kit net read true service jobs) one_app
    ≡ done (app ∷ []) one_app
unfolding list_apps text_eq codes plausible_managed_app_name cut_dash is_blank sort_names app_spec
    map_state sent
listed = rw (decoded, valid) refl

there : one_app name ≡ some kept_app
unfolding text_eq codes
there = refl

list_apps-All_example :
    All (IsListed two_kit net read (linked two_kit net read true service jobs) service) (app ∷ [])
list_apps-All_example =
    list_apps-All two_kit net read (linked two_kit net read true service jobs) service one_app
      one_app (app ∷ []) refl listed

list_apps-In_example : In app (app ∷ [])
list_apps-In_example =
    list_apps-In two_kit net read service (linked two_kit net read true service jobs) (λ s k. s k)
      (codes "other" ∷ name ∷ []) name kept_app app one_app one_app (app ∷ []) refl (λ k t. refl)
      refl (inr (inl refl)) plausible there decoded listed
