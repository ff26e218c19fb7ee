-- ===== src/Appstore/Dollars.antt =====
-- internal/truenasstore/bootstrap.go: the dollars of `containerBootstrapCommand`.
use garm_provider_truenas.Base.{
  ℕ, ◌≡◌, refl, Bool, true, false, [], ◌∷◌, Option, none, some, arith, ◌==◌, if◌then◌else◌,
}
use garm_provider_truenas.Base.Text.{Text, codes, replace_from, replace_all, has_prefix}
use garm_provider_truenas.Kit.{Kit}
use garm_provider_truenas.Appstore.{container_bootstrap_command}

push : ℕ → Option Text → Option Text
push c none = none
push c (some t) = some (c ∷ t)

-- A text in which each dollar is followed by another, with one dollar for two; none if a dollar
-- stands alone. The flag says that a dollar has just been opened.
unfoldable pub single_from : Bool → Text → Option Text
unfolding push
single_from false [] = some []
single_from true [] = none
single_from false (c ∷ t) =
    let opened = single_from true t in
    let other = single_from false t in if c == b'$' then opened else push c other
single_from true (c ∷ t) = let rest = single_from false t in if c == b'$' then push c rest else none

unfoldable pub single_dollars : Text → Option Text
unfolding single_from
single_dollars t = single_from false t

single_from-replace :
    (t : Text) → single_from false (replace_from 0 (codes "$") (codes "$$") t) ≡ some t
unfolding single_from replace_from codes has_prefix push
single_from-replace [] = refl
single_from-replace (c ∷ t) = ground (arith, single_from-replace t)

-- In the command each dollar is followed by another, and with one dollar for two it is the script:
-- no dollar is left that Compose would take for a variable.
pub single_dollars-container_bootstrap_command :
    (kit : Kit)
    → single_dollars (container_bootstrap_command kit) ≡ some kit.container_bootstrap_script
unfolding single_dollars container_bootstrap_command replace_all
single_dollars-container_bootstrap_command kit = single_from-replace kit.container_bootstrap_script
