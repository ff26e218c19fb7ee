-- ===== src/Command/Environment.antt =====
-- cmd/garm-provider-truenas/scaleset_lifecycle_env.go: the process environment.
pub mod Scope
use garm_provider_truenas.Base.{
  ℕ, Bool, true, false, ◌||◌, Option, none, some, [], if◌then◌else◌, ◌≡◌, refl, arith,
}
use garm_provider_truenas.Base.Dict.{Dict, lookup, insert, lookup-insert}
use garm_provider_truenas.Base.Text.{Text, codes, text_eq, is_blank, text_eq_iff}

abbrev pub scale_set_lifecycle_pool_placeholder : Text
scale_set_lifecycle_pool_placeholder = codes "garm-scaleset-lifecycle"

or_nothing : Option Text → Text
or_nothing none = []
or_nothing (some value) = value

-- `os.Getenv`
unfoldable pub getenv : Dict Text → Text → Text
unfolding lookup or_nothing
getenv env key = or_nothing (lookup key env)

-- `execution/common` of garm-provider-common names the commands.
pub record Commands : Type 0 where
  pub create_instance : Text
  pub delete_instance : Text
  pub get_instance : Text
  pub list_instances : Text
  pub start_instance : Text
  pub stop_instance : Text
  pub remove_all_instances : Text

unfoldable pub is_lifecycle : Commands → Text → Bool
is_lifecycle commands command =
    text_eq command commands.delete_instance
    || text_eq command commands.get_instance
    || text_eq command commands.start_instance
    || text_eq command commands.stop_instance

unfoldable pub ensure_scale_set_lifecycle_pool_placeholder : Commands → Dict Text → Dict Text
unfolding getenv is_lifecycle insert
ensure_scale_set_lifecycle_pool_placeholder commands env =
    if is_blank (getenv env (codes "GARM_POOL_ID"))
    then (if is_lifecycle commands (getenv env (codes "GARM_COMMAND"))
        then insert (codes "GARM_POOL_ID") scale_set_lifecycle_pool_placeholder env
        else env)
    else env
