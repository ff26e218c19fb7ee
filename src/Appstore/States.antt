-- ===== src/Appstore/States.antt =====
-- internal/truenasstore/store.go and internal/provider/provider.go: which of TrueNAS's states keep an
-- app from being deleted.
use garm_provider_truenas.Base.{◌≡◌, refl, true, false, not, ◌||◌, arith}
use garm_provider_truenas.Base.Text.{Text, codes, text_eq, to_upper, trim_space, text_eq_iff}
use garm_provider_truenas.Provider.Manager.{is_active}
use garm_provider_truenas.Appstore.{map_state, named_state}

apart :
    (is_active (codes "RUNNING") ≡ true)
    × (is_active (codes "STOPPED") ≡ false)
    × (is_active (codes "CRASHED") ≡ false)
    × (is_active (codes "DEPLOYING") ≡ true)
    × (is_active (codes "STOPPING") ≡ true)
    × (text_eq (codes "RUNNING") (codes "STOPPED") ≡ false)
    × (text_eq (codes "RUNNING") (codes "CRASHED") ≡ false)
unfolding is_active codes text_eq
apart = (refl, refl, refl, refl, refl, refl, refl)

is_active-named_state :
    (s : Text)
    → is_active (named_state s) ≡ not (text_eq s (codes "STOPPED") || text_eq s (codes "CRASHED"))
unfolding named_state
is_active-named_state s = ground (arith, apart, text_eq_iff s (codes "RUNNING"))

-- Whatever state TrueNAS reports, the manager takes the app as active unless the report reads
-- `STOPPED` or `CRASHED`, apart from case and surrounding blanks.
pub is_active-map_state :
    (state : Text)
    → is_active (map_state state)
      ≡ not (
          text_eq (to_upper (trim_space state)) (codes "STOPPED")
          || text_eq (to_upper (trim_space state)) (codes "CRASHED"))
unfolding map_state
is_active-map_state state = is_active-named_state (to_upper (trim_space state))
