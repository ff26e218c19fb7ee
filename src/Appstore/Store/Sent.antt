-- ===== src/Appstore/Store/Sent.antt =====
-- internal/truenasstore/store.go: what is sent for a specification, and how it is read back.
use garm_provider_truenas.Appstore.Gateway.Policy.{validate-kept, of_is_accepted}
use garm_provider_truenas.Base.{
  ◌≡◌, refl, sym, subst, Bool, true, false, Option, none, some, Result, ok, err, [],
}
use garm_provider_truenas.Base.Int.{pos, decimal}
use garm_provider_truenas.Base.Json.{object, ReadsBack}
use garm_provider_truenas.Base.Text.{Text, is_blank}
use garm_provider_truenas.Kit.{Kit}
use garm_provider_truenas.Provider.{App, AppSpec, general_cpu, general_memory_bytes}
use garm_provider_truenas.Appstore.{check_spec, compose_config, map_state}
use garm_provider_truenas.Appstore.Profile.{check_spec_iff, runner_of}
use garm_provider_truenas.Appstore.Decode.{ManagedApp, ReadInteger, decode_app}
use garm_provider_truenas.Appstore.Decode.RoundTrip.{kept, IsLabel, decode_app-kept}
use garm_provider_truenas.Appstore.Decode.Gated.{decode_app-gated}
use garm_provider_truenas.Appstore.Gateway.{
  Network, callback_host_gateway_entry, apply_callback_host_gateway,
  validate_callback_host_gateway_app_config,
}
use garm_provider_truenas.Appstore.Gateway.Policy.{sent, gated, validate-sent, add_gateway-kept}

module _ (kit : Kit) (net : Network) (read : ReadInteger) (gateway : Bool) where
  -- An app that the store takes for the manager's own.
  abbrev pub IsReadable : Option ManagedApp → Type 0
  IsReadable none = Unit {0}
  IsReadable (some app) =
      (a : App) × (decode_app kit read app ≡ ok a)
      × (validate_callback_host_gateway_app_config kit net app gateway ≡ ok tt)

  unfoldable pub seen_as : Result App → Option App
  seen_as (ok a) = some a
  seen_as (err e) = none

  -- What the store shows of an app.
  unfoldable pub shown : Option ManagedApp → Option App
  unfolding seen_as
  shown none = none
  shown (some app) = seen_as (decode_app kit read app)

  -- What the JSON library and the URLs must give for the document to be sent.
  abbrev pub IsSendable : Bool → AppSpec → Type 0
  IsSendable false spec = Unit {0}
  IsSendable true spec =
      (entry : Text) × (callback_host_gateway_entry net spec.callback_url spec.metadata_url
        ≡ ok entry)
      × ReadsBack kit.json (object (gated kit spec entry))

  -- A specification of the fixed profile, whose texts come back as they were sent.
  pub record IsAdmitted (spec : AppSpec) : Type 0 where
    pub fixed : check_spec spec ≡ ok tt
    pub controller : IsLabel spec.controller_id
    pub pool : IsLabel spec.pool_id
    pub callback : is_blank spec.callback_url ≡ false
    pub metadata : is_blank spec.metadata_url ≡ false
    pub token : is_blank spec.bootstrap_token ≡ false
    pub reads_back : ReadsBack kit.json (object (kept kit spec))
    pub sendable : IsSendable gateway spec

  -- The entry that is put in, if one is.
  unfoldable pub entry_of : (b : Bool) (spec : AppSpec) → IsSendable b spec → Text
  entry_of false spec h = []
  entry_of true spec h = h.0

  pub compose_config-kept :
      (spec : AppSpec)
      → check_spec spec ≡ ok tt
      → compose_config kit spec ≡ ok (kit.json.marshal (object (kept kit spec)))
  unfolding compose_config
  compose_config-kept spec h = rw h refl

  pub apply-sent :
      (b : Bool) (spec : AppSpec) (h : IsSendable b spec)
      → ReadsBack kit.json (object (kept kit spec))
      → apply_callback_host_gateway kit net (kit.json.marshal (object (kept kit spec))) spec b
        ≡ ok (kit.json.marshal (object (sent kit b spec (entry_of b spec h))))
  unfolding sent entry_of apply_callback_host_gateway
  apply-sent false spec h back = refl
  apply-sent true spec h back = rw (h.1, back, add_gateway-kept) refl

  pub reads_sent :
      (b : Bool) (spec : AppSpec) (h : IsSendable b spec)
      → ReadsBack kit.json (object (kept kit spec))
      → ReadsBack kit.json (object (sent kit b spec (entry_of b spec h)))
  unfolding sent entry_of
  reads_sent false spec h back = back
  reads_sent true spec h back = h.2

  pub validates_sent :
      (b : Bool) (spec : AppSpec) (h : IsSendable b spec) (name state : Text)
      → validate_callback_host_gateway_app_config kit net
          (record {
            name = name;
            state = state;
            config = some (sent kit b spec (entry_of b spec h));
          })
          b
        ≡ ok tt
  unfolding sent entry_of
  validates_sent false spec h name state = validate-kept kit net spec name state
  validates_sent true spec h name state =
      of_is_accepted
        (validate_callback_host_gateway_app_config kit net
          (record { name = name; state = state; config = some (gated kit spec h.0) }) true)
        (validate-sent kit net true true spec h.0 name state h.1)

module _ (kit : Kit) (net : Network) (read : ReadInteger) (gateway : Bool)
    (reads_cpu : read (decimal (pos general_cpu)) ≡ some (pos general_cpu))
    (reads_memory : read (decimal (pos general_memory_bytes))
      ≡ some (pos general_memory_bytes)) where
  pub decode-sent :
      (b : Bool) (spec : AppSpec) (entry state : Text)
      → IsAdmitted kit net read gateway spec
      → decode_app kit read
          (record { name = spec.name; state = state; config = some (sent kit b spec entry) })
        ≡ ok (record { spec = record spec { bootstrap_token = [] }; state = map_state state })
  unfolding sent runner_of
  decode-sent false spec entry state h =
      subst
        (λ z.
          decode_app kit read
            (record { name = spec.name; state = state; config = some (kept kit z) })
          ≡ ok (record { spec = record z { bootstrap_token = [] }; state = map_state state }))
        (sym ((check_spec_iff spec).0 h.fixed))
        (decode_app-kept kit read reads_cpu reads_memory spec.controller_id spec.name
          (runner_of spec) h.callback h.metadata h.token h.controller h.pool state)
  decode-sent true spec entry state h =
      subst
        (λ z.
          decode_app kit read
            (record { name = spec.name; state = state; config = some (gated kit z entry) })
          ≡ ok (record { spec = record z { bootstrap_token = [] }; state = map_state state }))
        (sym ((check_spec_iff spec).0 h.fixed))
        (decode_app-gated kit read reads_cpu reads_memory spec.controller_id spec.name
          (runner_of spec) entry state h.callback h.metadata h.token h.controller h.pool)
