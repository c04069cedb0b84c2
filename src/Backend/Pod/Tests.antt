-- ===== src/Backend/Pod/Tests.antt =====
-- A container with a folder, a file and the docker socket.
use kubedock.Model.Container.Volumes.{
  has_docker_sock_binding, get_volume_files, get_volumes, get_volume_folders,
}
use kubedock.Base.{
  any_of, keep, ℕ, ◌+◌, ◌≡◌, refl, true, false, [], ◌∷◌, ◌++◌, Option, none, some, Str, str_eq, map,
  if◌then◌else◌, replicate, str_eq_instance,
}
use kubedock.Base.GoMap
use kubedock.Base.Text.{split, codes}
use kubedock.Model.Container.{has_pre_archives, has_volumes, Container, blank}
use kubedock.Model.Container.Settings.{
  get_pod_security_context, get_active_deadline_seconds, get_node_selector,
  get_resource_requirements, get_image_pull_policy, if_not_present,
}
use kubedock.Backend.Names.{replace_value_with_patterns, to_kubernetes_name}
use kubedock.Backend.Pod.{PodContainer, PodSpec, ConfigMap, Instance, Libraries, built}
use kubedock.Backend.Pod.Steps.{
  with_sidecar, add_dind_sidecar, volumes_of, add_setup_init_container, add_volumes,
}
use kubedock.Backend.Pod.Build.{
  dind_step, archives_step, volumes_step, then_pod, configured_pod, build_pod,
}
use kubedock.Backend.Pod.Mounts.{ContainersFit, PodFit}
use kubedock.Backend.Pod.Volumes.{build_pod-PodFit}

abbrev container_template : PodContainer ℕ
container_template = record {
  name = [];
  image = [];
  command = [];
  args = [];
  env = [];
  ports = [];
  pull_policy = if_not_present;
  tty = false;
  stdin = false;
  resources = record { requests = []; limits = [] };
  volume_mounts = [];
}

abbrev pod_template : PodSpec ℕ
pod_template = record {
  name = [];
  labels = [];
  annotations = [];
  init_containers = [];
  containers = [];
  volumes = [];
  node_selector = [];
  hostname = [];
  service_account_name = [];
  never_restarts = false;
  active_deadline_seconds = none;
  security_context = none;
  image_pull_secrets = [];
}

abbrev pub inst : Instance ℕ
inst = record {
  pod_template = pod_template;
  container_template = container_template;
  init_image = codes "kubedock";
  dind_image = codes "kubedock";
  disable_dind = false;
  image_pull_secrets = [];
  kuburl = [];
  time_out = 3;
  disable_services = false;
  defaults = record { labels = []; system_labels = []; annotations = [] };
}

abbrev pub lib : Libraries ℕ
lib = record {
  parse_quantity = λ s. none;
  order = [];
  stat = λ s. if str_eq s (codes "/f") then some false else some true;
  read_file = λ s. some (codes "hi");
  md5 = λ s. codes "abc";
  base = λ s. s;
  join = λ a b. a ++ b'/' ∷ b;
  list = λ s. none;
}

-- a cluster that counts its config maps
unfoldable pub create : ConfigMap → ℕ → ℕ × Option Str
create cm k = (k + 1, some cm.name)

abbrev pub redis : Container
redis = record blank {
  short_id = replicate 12 b'a';
  name = codes "redis";
  binds = codes "/d:/data" ∷ codes "/f:/etc/conf" ∷ codes "/s:/var/run/docker.sock" ∷ [];
}

abbrev pod : PodSpec ℕ
pod = elim (build_pod lib inst create redis 0).1 [ built p ↦ p | _ ↦ pod_template ]

built_pod : build_pod lib inst create redis 0 ≡ (1, built pod)
unfolding build_pod configured_pod get_image_pull_policy GoMap.get_or get_resource_requirements
    get_node_selector get_active_deadline_seconds get_pod_security_context then_pod volumes_step
    has_volumes add_volumes add_setup_init_container get_volume_folders get_volumes split codes
    get_volume_files volumes_of GoMap.insert str_eq create archives_step has_pre_archives dind_step
    has_docker_sock_binding any_of add_dind_sidecar
built_pod = refl

build_pod-PodFit_example : PodFit pod
unfolding ContainersFit
build_pod-PodFit_example = build_pod-PodFit lib inst create redis 0 1 pod tt tt built_pod

volume_names :
    map (λ v. v.name) pod.volumes
    ≡ codes "data" ∷ codes "varrundockersock" ∷ codes "vfiles" ∷ codes "dind-socket" ∷ []
unfolding build_pod configured_pod get_image_pull_policy GoMap.get_or get_resource_requirements
    get_node_selector get_active_deadline_seconds get_pod_security_context then_pod volumes_step
    has_volumes add_volumes add_setup_init_container get_volume_folders get_volumes split codes
    get_volume_files volumes_of GoMap.insert str_eq create archives_step has_pre_archives dind_step
    has_docker_sock_binding any_of add_dind_sidecar with_sidecar replace_value_with_patterns keep
volume_names = refl

-- Two folders may have one name as volumes.
clash : to_kubernetes_name (codes "/data/x") ≡ to_kubernetes_name (codes "/datax")
unfolding codes to_kubernetes_name replace_value_with_patterns keep
clash = refl
