-- ===== src/Vm/Manager/Creation.antt =====
-- internal/vmbackend/manager.go: `Create`, from a template to a VM that runs.
use garm_provider_truenas.Base.{
  false, not, ◌||◌, if◌then◌else◌, not_found, wrap, errors_is, Result, ok, err, Run, ◌>>=◌, ◌>>◌,
  return, raise, lift, attempt, labelled,
}
use garm_provider_truenas.Base.Int.{pos}
use garm_provider_truenas.Base.Text.{Text, codes, text_eq, is_blank, contains}
use garm_provider_truenas.Provider.{Bootstrap, Instance, general_cpu, general_memory_bytes}
use garm_provider_truenas.Kit.{Kit}
use garm_provider_truenas.Ownership.{Ownership, encode_ownership}
use garm_provider_truenas.Vm.{Vm, Template, CloneSpec, flavor_linux_general, template_family}
use garm_provider_truenas.Vm.Seed.{owned_name, validate_bootstrap, seed_for}
use garm_provider_truenas.Vm.Manager.Checks.{
  Manager, to_instance, is_stopped, is_running, drift_if, verify_template,
}
use garm_provider_truenas.Vm.Manager.Owned.{verify_ownership, verify_system_version}

module _ {S : Type 0} (kit : Kit) (m : Manager S) where
  open m use {client, controller_id, system_version}

  unfoldable pub new_owner : Bootstrap → Ownership
  new_owner input = record {
    schema = codes "semper-supra.garm-vm-owner/1";
    managed_by = codes "garm-provider-truenas";
    controller_id = controller_id;
    pool_id = input.pool_id;
    runner_name = input.name;
    profile = flavor_linux_general;
  }

  unfoldable pub clone_spec : Text → Bootstrap → CloneSpec
  unfolding new_owner
  clone_spec name input = record {
    name = name;
    description = encode_ownership kit.json (new_owner input);
    vcpus = pos general_cpu;
    memory_bytes = pos general_memory_bytes;
    autostart = false;
  }

  -- From a checked clone on: seed it, attach the seed, start it and look again.
  unfoldable pub boot : Text → Bootstrap → Vm → Run S Instance
  unfolding to_instance
  boot name input created = do
    seed_ref ←
        labelled "stage NoCloud seed" (client.stage_seed created.id (seed_for kit input name))
    lift (
        drift_if (is_blank seed_ref || contains seed_ref input.token)
          "unsafe NoCloud seed reference")
    labelled "attach NoCloud seed" (client.attach_seed created.id seed_ref)
    labelled "start VM" (client.start created.id)
    observed ← labelled "read back started VM" (client.get created.id)
    lift (verify_ownership kit m observed input.pool_id)
    lift (drift_if (not (is_running observed.state)) "VM did not reach RUNNING")
    lift (drift_if (not (text_eq observed.seed_ref seed_ref)) "NoCloud seed attachment drift")
    return (to_instance observed input.pool_id)

  unfoldable pub clone_and_boot : Text → Bootstrap → Template → Run S Instance
  clone_and_boot name input template = do
    created ← labelled "clone VM template" (client.clone template.id (clone_spec name input))
    lift (verify_ownership kit m created input.pool_id)
    lift (
        drift_if (not (is_stopped created.state))
          "new VM unexpectedly active before bootstrap admission")
    boot name input created

  unfoldable pub create_absent : Text → Bootstrap → Run S Instance
  create_absent name input = do
    template ← labelled "resolve exact VM template" (client.resolve_template template_family)
    labelled "template identity did not resolve exactly" (lift (verify_template template))
    clone_and_boot name input template

  unfoldable pub create_found : Text → Bootstrap → Result Vm → Run S Instance
  create_found name input (ok existing) = do
    lift (verify_ownership kit m existing input.pool_id)
    return (to_instance existing input.pool_id)
  create_found name input (err e) =
      if errors_is e not_found then create_absent name input else raise (wrap "query existing VM" e)

  unfoldable pub create : Bootstrap → Run S Instance
  unfolding verify_system_version create_found
  create input = do
    lift (validate_bootstrap input)
    verify_system_version kit m
    let name = owned_name kit.sha256 controller_id input.name
    found ← attempt (client.get_by_name name)
    create_found name input found
