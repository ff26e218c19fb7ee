-- ===== src/Command/Environment/Scope.antt =====
-- cmd/garm-provider-truenas/scaleset_lifecycle_env.go: which variables the shim touches, and when.
use garm_provider_truenas.Base.{◌≡◌, ◌&&◌, arith, if◌then◌else◌}
use garm_provider_truenas.Base.Dict.{Dict, lookup-insert}
use garm_provider_truenas.Base.Text.{Text, codes, text_eq, is_blank}
use garm_provider_truenas.Command.Environment.{
  Commands, getenv, is_lifecycle, ensure_scale_set_lifecycle_pool_placeholder,
  scale_set_lifecycle_pool_placeholder,
}

-- The shim sets the pool's variable exactly if it is blank and the command is one of the four
-- lifecycle commands, and every other variable is as before.
pub getenv-ensure :
    (commands : Commands) (env : Dict Text) (key : Text)
    → getenv (ensure_scale_set_lifecycle_pool_placeholder commands env) key ≡ (
        if is_blank (getenv env (codes "GARM_POOL_ID"))
          && (is_lifecycle commands (getenv env (codes "GARM_COMMAND"))
              && text_eq (codes "GARM_POOL_ID") key)
        then scale_set_lifecycle_pool_placeholder
        else getenv env key)
unfolding ensure_scale_set_lifecycle_pool_placeholder getenv
getenv-ensure commands env key =
    ground
      (arith, lookup-insert (codes "GARM_POOL_ID") key scale_set_lifecycle_pool_placeholder env)
