-- ===== src/Command/Settings.antt =====
-- cmd/garm-provider-truenas/garm_provider.go: `validateConfig`.
use garm_provider_truenas.Base.{
  [], ◌∷◌, ◌≡◌, refl, ◌↔◌, Bool, true, false, not, ◌&&◌, ◌||◌, Option, none, some, Option-cases,
  inl, inr, arith, ltb, if◌then◌else◌, is_empty, errors_is, garm_bad_request, Error, Result, ok,
  err, and_then,
}
use garm_provider_truenas.Base.Int.{ℤ, pos, negsuc}
use garm_provider_truenas.Base.Text.{
  Text, codes, text_eq, text_eq_iff, text_eq_refl, to_lower, trim_space, is_blank,
}
use garm_provider_truenas.Command.{Config, TrueNasConfig, bad_request, bad_request_if}

unfoldable pub normalize_true_nas_backend : Text → Text
unfolding to_lower trim_space
normalize_true_nas_backend backend =
    let b = to_lower (trim_space backend) in if is_empty b then codes "apps" else b

-- `port < 0 || port > 65535`
unfoldable pub is_bad_port : ℤ → Bool
is_bad_port (pos n) = ltb 65535 n
is_bad_port (negsuc n) = true

validate_backend : Text → Result (Unit {0})
validate_backend backend =
    if text_eq backend (codes "apps")
    then ok tt
    else (if text_eq backend (codes "container") || text_eq backend (codes "vm")
        then err (bad_request "truenas backend is recognized but not yet implemented/qualified")
        else err (bad_request "truenas backend is not supported"))

validate_true_nas : Option TrueNasConfig → Result (Unit {0})
unfolding validate_backend is_bad_port
validate_true_nas none = err (bad_request "truenas configuration is required for truenas mode")
validate_true_nas (some c) =
    and_then
      (bad_request_if (is_blank c.host || is_blank c.username)
        "truenas host and username are required")
      λ _. and_then (bad_request_if (is_bad_port c.port) "truenas port is invalid") λ _.
        and_then
          (bad_request_if c.insecure_skip_verify
            "insecure TLS verification is not permitted for the provider live transport")
          λ _. validate_backend (normalize_true_nas_backend c.backend)

validate_mock : Config → Option TrueNasConfig → Result (Unit {0})
validate_mock cfg none = bad_request_if (is_blank cfg.state_file) "mock state_file is required"
validate_mock cfg (some c) =
    and_then (bad_request_if (is_blank cfg.state_file) "mock state_file is required")
      λ _. err (bad_request "mock mode cannot include truenas configuration")

unfoldable pub validate_config : Config → Result (Unit {0})
unfolding validate_mock validate_true_nas
validate_config cfg =
    if text_eq cfg.mode (codes "mock")
    then validate_mock cfg cfg.true_nas
    else (if text_eq cfg.mode (codes "truenas")
        then and_then
            (bad_request_if (not (is_blank cfg.state_file))
              "truenas mode cannot include mock state_file")
            (λ _. validate_true_nas cfg.true_nas)
        else err (bad_request "provider mode is not supported"))

-- A number of 16 bits.
unfoldable pub is_port : ℤ → Bool
is_port (pos n) = ltb n 65536
is_port (negsuc n) = false

-- No name, or `apps` in any case, with any blanks around it.
unfoldable pub is_apps : Text → Bool
unfolding to_lower trim_space
is_apps backend = is_blank backend || text_eq (to_lower (trim_space backend)) (codes "apps")

-- What a configuration must be, for either mode.
unfoldable pub is_usable_true_nas : TrueNasConfig → Bool
unfolding is_port is_apps
is_usable_true_nas c =
    not (is_blank c.host)
    && not (is_blank c.username)
    && is_port c.port
    && not c.insecure_skip_verify
    && is_apps c.backend

unfoldable pub is_usable : Config → Bool
unfolding is_usable_true_nas
is_usable cfg = elim cfg.true_nas [
  | none ↦ text_eq cfg.mode (codes "mock") && not (is_blank cfg.state_file)
  | some c ↦ text_eq cfg.mode (codes "truenas") && is_blank cfg.state_file && is_usable_true_nas c
]

mode_ne : text_eq (codes "mock") (codes "truenas") ≡ false
unfolding text_eq codes
mode_ne = refl

is_port_lem : (port : ℤ) → is_port port ≡ not (is_bad_port port)
unfolding is_port is_bad_port
is_port_lem (pos n) = ground arith
is_port_lem (negsuc n) = refl

is_apps_lem :
    (backend : Text) → is_apps backend ≡ text_eq (normalize_true_nas_backend backend) (codes "apps")
unfolding is_apps normalize_true_nas_backend is_blank to_lower
is_apps_lem backend = go (trim_space backend)
  where
    go :
        (t : Text)
        → (is_empty t || text_eq (to_lower t) (codes "apps"))
          ≡ text_eq (if is_empty (to_lower t) then codes "apps" else to_lower t) (codes "apps")
    go [] = ground (arith, text_eq_refl (codes "apps"))
    go (c ∷ t) = refl

usable_lem :
    (c : TrueNasConfig)
    → is_usable_true_nas c
      ≡ not (is_blank c.host)
        && not (is_blank c.username)
        && not (is_bad_port c.port)
        && not c.insecure_skip_verify
        && text_eq (normalize_true_nas_backend c.backend) (codes "apps")
unfolding is_usable_true_nas
usable_lem c = rw (is_port_lem c.port, is_apps_lem c.backend) refl

-- A configuration is accepted exactly if it names a state file in mock mode and no TrueNAS, or in
-- truenas mode a host, a user name, a port from 0 to 65535, verified TLS, no state file, and as the
-- backend nothing or `apps`, in any case and with any blanks around it.
pub validate_config_iff : (cfg : Config) → (validate_config cfg ≡ ok tt) ↔ (is_usable cfg ≡ true)
unfolding validate_config is_usable
validate_config_iff cfg = (
  λ h. elim (Option-cases cfg.true_nas) [
    | inl e ↦ ground (
      arith,
      e,
      mode_ne,
      text_eq_iff cfg.mode (codes "mock"),
      text_eq_iff cfg.mode (codes "truenas"),
    )
    | inr (c, e) ↦ ground (
      arith,
      e,
      mode_ne,
      text_eq_iff cfg.mode (codes "mock"),
      text_eq_iff cfg.mode (codes "truenas"),
      usable_lem c,
    )
  ],
  λ h. elim (Option-cases cfg.true_nas) [
    | inl e ↦ ground (
      arith,
      e,
      mode_ne,
      text_eq_iff cfg.mode (codes "mock"),
      text_eq_iff cfg.mode (codes "truenas"),
    )
    | inr (c, e) ↦ ground (
      arith,
      e,
      mode_ne,
      text_eq_iff cfg.mode (codes "mock"),
      text_eq_iff cfg.mode (codes "truenas"),
      usable_lem c,
    )
  ],
)

-- Whatever error `validateConfig` refuses a configuration with, it is a bad request to GARM.
pub validate_config_error :
    (cfg : Config) (e : Error) → validate_config cfg ≡ err e → errors_is e garm_bad_request ≡ true
unfolding validate_config errors_is
validate_config_error cfg e h = ground arith
