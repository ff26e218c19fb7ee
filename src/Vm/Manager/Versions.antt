-- ===== src/Vm/Manager/Versions.antt =====
-- internal/vmbackend/manager.go: the TrueNAS versions for which `New` makes a manager.
use garm_provider_truenas.Base.{
  ◌≡◌, refl, Bool, true, false, not, ◌&&◌, ◌||◌, some, arith, Result, ok, err,
}
use garm_provider_truenas.Base.Dict.{lookup}
use garm_provider_truenas.Base.Text.{
  Text, codes, text_eq, text_eq_refl, to_lower, trim_space, is_blank,
}
use garm_provider_truenas.Catalog.{
  embedded_matrix, target_version, resolve_runtime_backend, matrix_schema,
}
use garm_provider_truenas.Vm.{Client}
use garm_provider_truenas.Vm.Manager.{new_manager}

unfoldable pub is_made {ℓ} : {A : Type ℓ} → Result A → Bool
is_made (ok a) = true
is_made (err e) = false

vm_key : to_lower (trim_space (codes "vm")) ≡ codes "vm"
unfolding to_lower trim_space codes
vm_key = refl

keys_differ :
    (text_eq (codes "apps") (codes "vm") ≡ false)
    × (text_eq (codes "container") (codes "vm") ≡ false)
    × (text_eq (codes "NOT_ADMITTED") (codes "NOT_ADMITTED") ≡ true)
    × (text_eq (codes "OPEN") (codes "NOT_ADMITTED") ≡ false)
unfolding text_eq codes
keys_differ = (refl, refl, refl, refl)

-- With the embedded matrix a manager is made exactly for a controller ID that is not blank and the
-- versions 25.04.2.6, 25.10.7 and 26.0.0-BETA.3, with or without the prefix `TrueNAS-`. In
-- particular 25.04.1 is refused.
pub is_made-new_manager :
    {S : Type 0} (client : Client S) (controller_id system_version : Text)
    → is_made (new_manager embedded_matrix (some client) controller_id system_version) ≡ (
        not (is_blank controller_id)
        && not (text_eq (codes "25.04.1") (target_version (trim_space system_version)))
        && (text_eq (codes "25.04.2.6") (target_version (trim_space system_version))
            || text_eq (codes "25.10.7") (target_version (trim_space system_version))
            || text_eq (codes "26.0.0-BETA.3") (target_version (trim_space system_version))))
unfolding new_manager resolve_runtime_backend lookup is_made
is_made-new_manager client controller_id system_version = rw vm_key (
    ground (
      arith,
      keys_differ,
      text_eq_refl (codes "vm"),
      text_eq_refl matrix_schema,
      text_eq_refl (codes "vm-v1"),
      text_eq_refl (codes "vm.*"),
    ))
