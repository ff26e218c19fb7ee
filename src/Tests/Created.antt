-- ===== src/Tests/Created.antt =====
-- internal/vmbackend and internal/containerbackend: creations that succeed.
use garm_provider_truenas.Base.{
  ◌≡◌, ◌⊎◌, refl, List, [], ◌∷◌, Option, none, some, Run, return, raise, sentinel, not_found, done,
}
use garm_provider_truenas.Base.Text.{codes}
use garm_provider_truenas.Provider.{Bootstrap}
use garm_provider_truenas.Container.{Container, FileStat}
use garm_provider_truenas.Base.{errors_is}
use garm_provider_truenas.Base.FilePath.{byte_length}
use garm_provider_truenas.Base.Int.{is_positive, int_eq}
use garm_provider_truenas.Base.Text.{is_blank, text_eq, trim_space, equal_fold, to_upper, contains}
use garm_provider_truenas.Ownership.{decode_ownership, ownership_value}
use garm_provider_truenas.Provider.Manager.{is_supported_arch}
use garm_provider_truenas.Vm.Seed.{validate_bootstrap}
use garm_provider_truenas.Vm.Manager.{owner, verify_runtime, verify_template, verify_ownership}
use garm_provider_truenas.Vm.{Vm}
use garm_provider_truenas.Vm
use garm_provider_truenas.Vm.Manager.Created.{create-shows}
use garm_provider_truenas.Container
use garm_provider_truenas.Container.Manager.Cleanup.{
  create_from-cleans, Uncreated, Unadmitted, Cleaned,
}
use garm_provider_truenas.Container.Plan.{BootstrapPlan, build_bootstrap_plan}
use garm_provider_truenas.Base.{message, wrap, failed}
use garm_provider_truenas.Container.Manager.Created.{create-shows_container}
use garm_provider_truenas.Tests.Data.{kit, input}
use garm_provider_truenas.Tests.Machines.{machine, only_vm, vms, boxed, box_kit}

first_box : List Container → Run (List Container × Option FileStat) Container
first_box [] = raise (sentinel not_found)
first_box (item ∷ items) = return item

last_file : Option FileStat → Run (List Container × Option FileStat) FileStat
last_file none = raise (sentinel not_found)
last_file (some stat) = return stat

abbrev vm_input : Bootstrap
vm_input = record input { flavor = Vm.flavor_linux_general }

abbrev started_vm : Vm
started_vm = record machine { state = codes "RUNNING"; seed_ref = codes "seed" }

abbrev vm_manager : Vm.Manager.Manager (List Vm)
vm_manager = record {
  client = record vms {
    system_version = return (codes "25.10.7");
    start = λ id s. done tt (started_vm ∷ []);
  };
  controller_id = codes "ctl";
  system_version = codes "25.10.7";
}

vm_created :
    Vm.Manager.create kit vm_manager vm_input []
    ≡ done (Vm.Manager.to_instance started_vm vm_input.pool_id) (started_vm ∷ [])
unfolding Vm.Manager.create validate_bootstrap is_blank codes text_eq is_supported_arch only_vm
    trim_space errors_is Vm.Manager.create_absent Vm.Manager.clone_and_boot Vm.Manager.boot
    verify_template verify_ownership decode_ownership ownership_value equal_fold owner
    verify_runtime is_positive int_eq to_upper contains
vm_created = refl

create-shows_example :
    (item : Vm) × Vm.Manager.Created.Stands kit vm_manager vm_input
      (Vm.Manager.to_instance started_vm vm_input.pool_id)
      item
    × Vm.Manager.Created.Belongs kit vm_manager vm_input item
    × (Vm.Manager.Created.Found kit vm_manager vm_input item (started_vm ∷ [])
        ⊎ Vm.Manager.Created.Started kit vm_manager vm_input item (started_vm ∷ []))
create-shows_example =
    create-shows kit vm_manager vm_input [] (started_vm ∷ [])
      (Vm.Manager.to_instance started_vm vm_input.pool_id) vm_created

abbrev box_input : Bootstrap
box_input = record input { flavor = Container.flavor_linux_general }

abbrev started_box : Container
started_box = record boxed { state = codes "RUNNING" }

-- A middleware that keeps its containers and what it knows of the file that was written last.
abbrev boxes : Container.Client (List Container × Option FileStat)
boxes = record {
  system_version = return (codes "25.10.7");
  resolve_image = λ family. return boxed.image;
  get_by_name = λ name s. first_box s.0 s;
  get = λ id s. first_box s.0 s;
  list = λ s. done s.0 s;
  create = λ spec s.
      done (record boxed { init = spec.init; init_env = spec.init_env }) (boxed ∷ [], none);
  update = λ id spec s. done started_box (started_box ∷ [], none);
  put_file = λ path content mode s.
      done tt (s.0, some (record { size = byte_length content; mode = mode }));
  stat_file = λ path s. last_file s.1 s;
  start = λ id s. done tt (started_box ∷ [], none);
  stop = λ id force s. done tt (boxed ∷ [], none);
  delete = λ id s. done tt ([], none);
}

abbrev box_manager : Container.Manager.Manager (List Container × Option FileStat)
box_manager = record {
  client = boxes;
  controller_id = codes "ctl";
  system_version = codes "25.10.7";
}

box_created :
    Container.Manager.create box_kit box_manager box_input ([], none)
    ≡ done (Container.Manager.to_instance started_box box_input.pool_id) (started_box ∷ [], none)
unfolding Container.Manager.create Container.Manager.create_absent Container.Manager.create_from
    Container.Manager.bring_up Container.Plan.validate_bootstrap is_blank codes text_eq
    is_supported_arch first_box trim_space errors_is Container.Manager.verify_ownership
    decode_ownership ownership_value equal_fold to_upper last_file
    Container.Manager.verify_bootstrap_ownership Container.Manager.verify_base_runtime
    Container.Manager.create_spec Container.Plan.build_bootstrap_plan
    Container.Manager.stage_bootstrap_files Container.Manager.stage_files
    Container.Manager.check_file Container.Manager.is_as_staged Container.Manager.owner
    Container.Manager.verify_steady_runtime
box_created = refl

create-shows_container_example :
    (item : Container) × Container.Manager.Created.Stands box_kit box_manager box_input
      (Container.Manager.to_instance started_box box_input.pool_id)
      item
    × Container.Manager.Created.Belongs box_kit box_manager box_input item
    × (Container.Manager.Created.Found box_kit box_manager box_input item (started_box ∷ [], none)
        ⊎ Container.Manager.Created.Started box_kit box_manager box_input item
            (started_box ∷ [], none))
create-shows_container_example =
    create-shows_container box_kit box_manager box_input ([], none) (started_box ∷ [], none)
      (Container.Manager.to_instance started_box box_input.pool_id) box_created

-- A middleware on which nothing starts.
abbrev stuck_manager : Container.Manager.Manager (List Container × Option FileStat)
stuck_manager = record box_manager {
  client = record boxes { start = λ id s. failed (message "no such pool") s };
}

box_failed :
    Container.Manager.create_from box_kit stuck_manager (codes "b") box_input boxed.image ([], none)
    ≡ failed (wrap "start container" (message "no such pool")) ([], none)
unfolding Container.Manager.create Container.Manager.create_absent Container.Manager.create_from
    Container.Manager.bring_up Container.Plan.validate_bootstrap is_blank codes text_eq
    is_supported_arch first_box trim_space errors_is Container.Manager.verify_ownership
    decode_ownership ownership_value equal_fold to_upper last_file
    Container.Manager.verify_bootstrap_ownership Container.Manager.verify_base_runtime
    Container.Manager.create_spec Container.Plan.build_bootstrap_plan
    Container.Manager.stage_bootstrap_files Container.Manager.stage_files
    Container.Manager.check_file Container.Manager.is_as_staged Container.Manager.owner
    Container.Manager.verify_steady_runtime Container.Manager.cleanup_failed_create
box_failed = refl

create_from-cleans_example :
    Uncreated box_kit stuck_manager box_input (codes "b") boxed.image ([], none) ([], none)
    ⊎ Unadmitted box_kit stuck_manager box_input (codes "b") boxed.image ([], none) ([], none)
    ⊎ Cleaned box_kit stuck_manager box_input
        (codes "b")
        boxed.image
        ([], none)
        (wrap "start container" (message "no such pool"))
        ([], none)
create_from-cleans_example =
    create_from-cleans box_kit stuck_manager box_input (codes "b") boxed.image
      (wrap "start container" (message "no such pool")) ([], none) ([], none) box_failed
