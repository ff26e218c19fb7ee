-- ===== src/Container/Manager/Creation.antt =====
-- internal/containerbackend/manager.go: `Create`, with file staging and the clean-up of a failure.
use garm_provider_truenas.Base.{
  true, false, not, ◌||◌, List, [], ◌∷◌, if◌then◌else◌, not_found, active, sentinel, wrap,
  errors_is, Result, ok, err, Run, ◌>>=◌, ◌>>◌, return, raise, lift, attempt, labelled,
}
use garm_provider_truenas.Base.FilePath.{join_path}
use garm_provider_truenas.Base.Int.{ℤ}
use garm_provider_truenas.Base.Text.{Text, codes, text_eq, is_blank, trim_prefix}
use garm_provider_truenas.Provider.{Bootstrap, Instance}
use garm_provider_truenas.Kit.{Kit}
use garm_provider_truenas.Ownership.{Ownership, encode_ownership}
use garm_provider_truenas.Container.{
  Image, Container, CreateSpec, flavor_linux_general, image_family,
}
use garm_provider_truenas.Container.Plan.{
  StagedFile, BootstrapPlan, bootstrap_token_path, owned_name, validate_bootstrap,
  build_bootstrap_plan, container_rootfs_mountpoint,
}
use garm_provider_truenas.Container.Manager.Checks.{
  Manager, to_instance, is_stopped, is_running, drift_if, check_file, full_path, is_as_staged,
  or_clean, expect_absent,
}
use garm_provider_truenas.Container.Manager.Owned.{
  verify_ownership, verify_bootstrap_ownership, verify_system_version,
}

module _ {S : Type 0} (kit : Kit) (m : Manager S) where
  open m use {client, controller_id, system_version}

  -- Writes one file below the container's root and reads it back.
  unfoldable pub stage_file : Text → StagedFile → Run S (Unit {0})
  stage_file mountpoint file = do
    lift (check_file mountpoint file)
    labelled "stage bootstrap file"
        (client.put_file (full_path mountpoint file) file.content file.mode)
    stat ← labelled "read back bootstrap file" (client.stat_file (full_path mountpoint file))
    lift (drift_if (not (is_as_staged file stat)) "bootstrap file read-back drift")

  unfoldable pub stage_files : Text → List StagedFile → Run S (Unit {0})
  unfolding stage_file
  stage_files mountpoint [] = return tt
  stage_files mountpoint (file ∷ files) =
      let later = stage_files mountpoint files in do stage_file mountpoint file; later

  unfoldable pub stage_bootstrap_files : Container → BootstrapPlan → Run S Text
  unfolding container_rootfs_mountpoint
  stage_bootstrap_files item plan = do
    lift (drift_if (is_blank item.dataset) "container dataset missing from create read-back")
    mountpoint ← lift (container_rootfs_mountpoint item.dataset item.name)
    stage_files mountpoint plan.files
    return mountpoint

  -- The second look of `cleanupFailedCreate`.
  unfoldable pub remove_if_stopped : ℤ → Result Container → Run S (Unit {0})
  remove_if_stopped id (err e) = if errors_is e not_found then return tt else raise e
  remove_if_stopped id (ok item) =
      if is_stopped item.state then client.delete id else raise (sentinel active)

  unfoldable pub stop_forced : ℤ → Container → Run S (Unit {0})
  stop_forced id item = if is_running item.state then client.stop id true else return tt

  unfoldable pub cleanup_found : ℤ → Result Container → Run S (Unit {0})
  unfolding stop_forced remove_if_stopped
  cleanup_found id (err e) = if errors_is e not_found then return tt else raise e
  cleanup_found id (ok item) = do
    stop_forced id item
    again ← attempt (client.get id)
    remove_if_stopped id again

  unfoldable pub cleanup_failed_create : ℤ → Run S (Unit {0})
  unfolding cleanup_found
  cleanup_failed_create id = do found ← attempt (client.get id); cleanup_found id found

  -- The path at which the token was staged.
  unfoldable pub token_path : Text → Text
  unfolding join_path trim_prefix
  token_path mountpoint = join_path (mountpoint ∷ trim_prefix bootstrap_token_path (codes "/") ∷ [])

  -- From a checked creation on. Whatever fails here, `create` cleans up and keeps the error.
  unfoldable pub bring_up : Bootstrap → BootstrapPlan → Container → Run S Instance
  unfolding to_instance
  bring_up input plan created = do
    mountpoint ← stage_bootstrap_files created plan
    labelled "start container" (client.start created.id)
    labelled "scrub persisted bootstrap desired state"
        (client.update created.id (record { init = plan.final_init; init_env = plan.final_env }))
    observed ← labelled "read back scrubbed container" (client.get created.id)
    lift (verify_ownership kit m observed input.pool_id)
    lift (
        drift_if (not (is_running observed.state))
          "container did not remain running after bootstrap-state scrub")
    left ← attempt (client.stat_file (token_path mountpoint))
    expect_absent "bootstrap token file remains after init wrapper execution"
        "verify bootstrap token file absence" left
    return (to_instance observed input.pool_id)

  unfoldable pub new_owner : Bootstrap → Ownership
  new_owner input = record {
    schema = codes "semper-supra.garm-container-owner/1";
    managed_by = codes "garm-provider-truenas";
    controller_id = controller_id;
    pool_id = input.pool_id;
    runner_name = input.name;
    profile = flavor_linux_general;
  }

  unfoldable pub create_spec : Text → Bootstrap → BootstrapPlan → Image → CreateSpec
  unfolding new_owner
  create_spec name input plan image = record {
    name = name;
    description = encode_ownership kit.json (new_owner input);
    image = image;
    autostart = false;
    idmap_type = codes "DEFAULT";
    capabilities_policy = codes "DEFAULT";
    init = plan.init;
    init_env = plan.init_env;
  }

  unfoldable pub create_from : Text → Bootstrap → Image → Run S Instance
  create_from name input image = do
    let plan = build_bootstrap_plan kit input
    created ← labelled "create container" (client.create (create_spec name input plan image))
    lift (verify_bootstrap_ownership kit m created input.pool_id plan)
    lift (
        drift_if (not (is_stopped created.state))
          "new container unexpectedly active before bootstrap admission")
    or_clean (cleanup_failed_create created.id) (bring_up input plan created)

  unfoldable pub create_absent : Text → Bootstrap → Run S Instance
  create_absent name input = do
    image ← labelled "resolve exact container image" (client.resolve_image image_family)
    lift (
        drift_if (not (text_eq image.name image_family) || is_blank image.version)
          "image family/version did not resolve exactly")
    create_from name input image

  unfoldable pub create_found : Text → Bootstrap → Result Container → Run S Instance
  unfolding to_instance
  create_found name input (ok existing) = do
    lift (verify_ownership kit m existing input.pool_id)
    return (to_instance existing input.pool_id)
  create_found name input (err e) =
      if errors_is e not_found
      then create_absent name input
      else raise (wrap "query existing container" e)

  unfoldable pub create : Bootstrap → Run S Instance
  unfolding verify_system_version create_found
  create input = do
    lift (validate_bootstrap input)
    verify_system_version kit m
    let name = owned_name kit.sha256 controller_id input.name
    found ← attempt (client.get_by_name name)
    create_found name input found
