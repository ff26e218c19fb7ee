-- ===== src/Tests/Machines.antt =====
-- internal/vmbackend and internal/containerbackend over middleware that keeps its machines in a list.
use garm_provider_truenas.Base.{
  errors_is, ◌≡◌, refl, true, false, List, [], ◌∷◌, some, Run, return, raise, sentinel, foreign,
  not_found, ok, err, done, failed,
}
use garm_provider_truenas.Base.Int.{pos, int_eq, is_positive, decimal}
use garm_provider_truenas.Base.Text.{codes, text_eq}
use garm_provider_truenas.Base.Text.{is_blank, to_upper, equal_fold}
use garm_provider_truenas.Container.{Container, Image}
use garm_provider_truenas.Ownership.{Ownership, decode_ownership, encode_ownership, ownership_value}
use garm_provider_truenas.Ownership.RoundTrip.{decode-encode_ownership}
use garm_provider_truenas.Vm.{Vm, Template, CloneSpec}
use garm_provider_truenas.Vm.Manager.{
  list, get, remove_all, new_manager, provider_id_for, to_instance, is_owner, verify_runtime,
}
use garm_provider_truenas.Vm.Manager.Safety.{logged}
use garm_provider_truenas.Vm.Manager.Service.{
  create_request, delete_request, remove_all_request, serve_all, serve_all-is_justified_vm,
}
use garm_provider_truenas.Vm.Manager.Strangers.{remove_all_stuck}
use garm_provider_truenas.Vm.Manager.Trace.{is_justified}
use garm_provider_truenas.Kit.{Kit}
use garm_provider_truenas.Tests.Data.{kit, owner, input, json}
use garm_provider_truenas.Vm
use garm_provider_truenas.Container
use garm_provider_truenas.Container.Manager
use garm_provider_truenas.Container.Manager.Safety
use garm_provider_truenas.Container.Manager.Service
use garm_provider_truenas.Container.Manager.Trace
use garm_provider_truenas.Container.Manager.Absence.{delete-shows_absence, shows_absence}

abbrev template : Template
template = record {
  id = pos 7;
  name = Vm.template_family;
  runtime_name = Vm.template_runtime_name;
  version = Vm.template_version;
  source_url = Vm.template_source_url;
  source_sha256 = Vm.template_source_sha256;
}

abbrev pub machine : Vm
machine = record {
  id = pos 3;
  name = codes "garm_ctl_r";
  description = codes "owner";
  state = codes "STOPPED";
  autostart = false;
  vcpus = pos 4;
  memory_bytes = pos 8589934592;
  template = template;
  seed_ref = codes "";
}

unfoldable pub only_vm : List Vm → Run (List Vm) Vm
only_vm [] = raise (sentinel not_found)
only_vm (vm ∷ vms) = return vm

-- At most one machine, which every read finds.
abbrev pub vms : Vm.Client (List Vm)
vms = record {
  system_version = return (codes "TrueNAS-25.10.7");
  resolve_template = λ family. return template;
  get_by_name = λ name s. only_vm s s;
  get = λ id s. only_vm s s;
  list = λ s. done s s;
  clone = λ id spec s. done machine (machine ∷ []);
  stage_seed = λ id seed. return (codes "seed");
  attach_seed = λ id ref s. done tt (record machine { seed_ref = ref } ∷ []);
  detach_seed = λ id ref s. done tt (machine ∷ []);
  delete_seed = λ ref. return tt;
  bootstrap_consumed = λ id. return true;
  start = λ id s. done tt (record machine { state = codes "RUNNING" } ∷ []);
  stop = λ id force s. done tt (machine ∷ []);
  delete = λ id s. done tt [];
}

serve_all-is_justified_vm_example :
    is_justified kit
      (logged kit vms (codes "ctl") (codes "25.10.7"))
      (serve_all kit
        (logged kit vms (codes "ctl") (codes "25.10.7"))
        (create_request (record input { flavor = Vm.flavor_linux_general })
          ∷ remove_all_request
          ∷ delete_request (codes "vm:3")
          ∷ [])
        (machine ∷ [], [])).1
    ≡ true
unfolding is_justified
serve_all-is_justified_vm_example =
    serve_all-is_justified_vm kit vms (codes "ctl") (codes "25.10.7")
      (create_request (record input { flavor = Vm.flavor_linux_general })
        ∷ remove_all_request
        ∷ delete_request (codes "vm:3")
        ∷ [])
      (machine ∷ []) [] refl

abbrev stranger : Ownership
stranger = record owner { profile = codes "other" }

abbrev strange : Kit
strange = record kit {
  json = record { marshal = λ v. codes "owner"; unmarshal = λ t. some (ownership_value stranger) };
}

abbrev crowded : Vm.Client (List Vm)
crowded = record vms { list = λ s. done (machine ∷ []) s }

abbrev vm_manager : Vm.Manager.Manager (List Vm)
vm_manager = record {
  client = crowded;
  controller_id = codes "ctl";
  system_version = codes "25.10.7";
}

decoded : decode_ownership strange.json (codes "owner") ≡ some stranger
unfolding decode_ownership codes ownership_value equal_fold
decoded = refl

not_ours : is_owner (codes "ctl") stranger ≡ false
unfolding is_owner codes text_eq
not_ours = refl

is_ours :
    (text_eq (codes "garm-provider-truenas") (codes "garm-provider-truenas") ≡ true)
    × (text_eq (codes "ctl") (codes "ctl") ≡ true)
unfolding text_eq codes
is_ours = (refl, refl)

steady : verify_runtime machine ≡ ok tt
unfolding verify_runtime codes text_eq int_eq is_positive to_upper
steady = refl

remove_all_stuck_example :
    (list strange vm_manager (codes "") [] ≡ done (to_instance machine (codes "pool") ∷ []) [])
    × (get strange vm_manager (provider_id_for (pos 3)) [] ≡ failed (sentinel foreign) [])
    × (remove_all strange vm_manager [] ≡ failed (sentinel foreign) [])
remove_all_stuck_example =
    remove_all_stuck strange vm_manager machine stranger [] (λ t. refl) decoded is_ours.0 is_ours.1
      not_ours steady

decode-encode_ownership_example : decode_ownership json (encode_ownership json owner) ≡ some owner
decode-encode_ownership_example = decode-encode_ownership json owner refl

abbrev pub boxed : Container
boxed = record {
  id = pos 3;
  name = codes "garm-ctl-r";
  description = codes "owner";
  state = codes "STOPPED";
  dataset = codes "tank/.truenas_containers/containers/garm-ctl-r";
  image = record { name = Container.image_family; version = codes "20260926" };
  autostart = false;
  idmap_type = codes "DEFAULT";
  capabilities_policy = codes "DEFAULT";
  init = codes "/sbin/init";
  init_env = [];
}

only_container : List Container → Run (List Container) Container
only_container [] = raise (sentinel not_found)
only_container (item ∷ items) = return item

abbrev containers : Container.Client (List Container)
containers = record {
  system_version = return (codes "25.10.7");
  resolve_image = λ family. return boxed.image;
  get_by_name = λ name s. only_container s s;
  get = λ id s. only_container s s;
  list = λ s. done s s;
  create = λ spec s. done boxed (boxed ∷ []);
  update = λ id spec s. done boxed (boxed ∷ []);
  put_file = λ path content mode. return tt;
  stat_file = λ path. return (record { size = 4; mode = 0o755 });
  start = λ id s. done tt (record boxed { state = codes "RUNNING" } ∷ []);
  stop = λ id force s. done tt (boxed ∷ []);
  delete = λ id s. done tt [];
}

serve_all-is_justified_container_example :
    Container.Manager.Trace.is_justified kit
      (Container.Manager.Safety.logged kit containers (codes "ctl") (codes "25.10.7"))
      (Container.Manager.Service.serve_all kit
        (Container.Manager.Safety.logged kit containers (codes "ctl") (codes "25.10.7"))
        (Container.Manager.Service.create_request
            (record input { flavor = Container.flavor_linux_general })
          ∷ Container.Manager.Service.remove_all_request
          ∷ [])
        (boxed ∷ [], [])).1
    ≡ true
unfolding Container.Manager.Trace.is_justified
serve_all-is_justified_container_example =
    Container.Manager.Service.serve_all-is_justified_container kit containers (codes "ctl")
      (codes "25.10.7")
      (Container.Manager.Service.create_request
          (record input { flavor = Container.flavor_linux_general })
        ∷ Container.Manager.Service.remove_all_request
        ∷ [])
      (boxed ∷ []) [] refl

abbrev pub box_owner : Ownership
box_owner = record owner {
  schema = codes "semper-supra.garm-container-owner/1";
  profile = Container.flavor_linux_general;
}

abbrev pub box_kit : Kit
box_kit = record kit {
  json = record { marshal = λ v. codes "owner"; unmarshal = λ t. some (ownership_value box_owner) };
}

abbrev after_delete : Container.Manager.Trace.Log
after_delete =
    Container.Manager.Trace.got (pos 3) (err (sentinel not_found))
    ∷ Container.Manager.Trace.deleted (pos 3)
    ∷ Container.Manager.Trace.listed (ok (boxed ∷ []))
    ∷ []

was_deleted :
    Container.Manager.delete box_kit
      (Container.Manager.Safety.logged box_kit containers (codes "ctl") (codes "25.10.7"))
      (codes "container:3")
      (boxed ∷ [], [])
    ≡ done tt ([], after_delete)
unfolding Container.Manager.delete codes decimal decode_ownership text_eq
    Container.Manager.find_owned Container.Manager.Trace.traced Container.Manager.find_in
    Container.Manager.owner ownership_value equal_fold Container.Manager.verify_steady_runtime
    is_blank to_upper only_container errors_is
was_deleted = refl

delete-shows_absence_example : shows_absence (codes "container:3") after_delete ≡ true
delete-shows_absence_example =
    delete-shows_absence box_kit containers (codes "ctl") (codes "25.10.7") (codes "container:3")
      (boxed ∷ []) [] [] after_delete was_deleted
