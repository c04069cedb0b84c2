-- ===== src/Backend/Pod.antt =====
-- The pod that internal/backend/deploy.go makes for a container: its volumes, its init container
-- and its sidecar.
pub mod Steps
pub mod Build
pub mod Mounts
pub mod Fits
pub mod Volumes
pub mod Tests
use kubedock.Base.{
  ℕ, ℤ, ◌+◌, Bool, true, false, ◌||◌, ◌&&◌, not, List, [], ◌∷◌, ◌++◌, Option, none, some, is_nil,
  if◌then◌else◌, Result, ok, err, Str, str_eq, str_eq_instance,
}
use kubedock.Base.GoMap
use kubedock.Base.GoMap.{GoMap}
use kubedock.Base.Text.{codes}
use kubedock.Util.Tar.Entries.{Listing}
use kubedock.Model.Container.{Container}
use kubedock.Model.Container.Settings.{
  PullPolicy, if_not_present, Resources, SecurityContext, get_image_pull_policy,
  get_resource_requirements,
}
use kubedock.Model.Container.Volumes.{get_volume_folders, get_volume_files}
use kubedock.Model.Container.PreArchives.{File, get_pre_archive_files}
use kubedock.Backend.Names.{to_kubernetes_name}
use kubedock.Backend.Deploy.{Defaults, get_labels, get_annotations}
use kubedock.Backend.Services.{ContainerPort}

pub record VolumeMount : Type 0 where
  pub name : Str
  pub mount_path : Str
  pub sub_path : Str

pub record KeyToPath : Type 0 where
  pub key : Str
  pub path : Str
  pub mode : ℕ

-- corev1.VolumeSource: an empty folder, or a config map by its name and the items of it
pub data VolumeSource : Type 0 where
  empty_dir : VolumeSource
  config_map : Str → List KeyToPath → VolumeSource

pub record Volume : Type 0 where
  pub name : Str
  pub source : VolumeSource

-- corev1.Container, over the quantities `Q` of kubernetes
pub record PodContainer (Q : Type 0) : Type 0 where
  pub name : Str
  pub image : Str
  pub command : List Str
  pub args : List Str
  pub env : List (Str × Str)
  pub ports : List ContainerPort
  pub pull_policy : PullPolicy
  pub tty : Bool
  pub stdin : Bool
  pub resources : Resources Q
  pub volume_mounts : List VolumeMount

-- corev1.Pod, with what the code writes to it; the restart policy is Never or that of the template
pub record PodSpec (Q : Type 0) : Type 0 where
  pub name : Str
  pub labels : GoMap Str Str
  pub annotations : GoMap Str Str
  pub init_containers : List (PodContainer Q)
  pub containers : List (PodContainer Q)
  pub volumes : List Volume
  pub node_selector : GoMap Str Str
  pub hostname : Str
  pub service_account_name : Str
  pub never_restarts : Bool
  pub active_deadline_seconds : Option ℤ
  pub security_context : Option SecurityContext
  pub image_pull_secrets : List Str

pub record ConfigMap : Type 0 where
  pub name : Str
  pub labels : GoMap Str Str
  pub annotations : GoMap Str Str
  pub binary_data : GoMap Str Str

-- The fields of `instance`.
pub record Instance (Q : Type 0) : Type 0 where
  pub pod_template : PodSpec Q
  pub container_template : PodContainer Q
  pub init_image : Str
  pub dind_image : Str
  pub disable_dind : Bool
  pub image_pull_secrets : List Str
  pub kuburl : Str
  pub time_out : ℕ
  pub disable_services : Bool
  pub defaults : Defaults

-- What the code uses of libraries and of the file system: resource.ParseQuantity, the order of the
-- loop over the two resources, os.Stat, readFile, the md5 sum as hex digits, filepath.Base,
-- filepath.Join and the reader of archives.
pub record Libraries (Q : Type 0) : Type 0 where
  pub parse_quantity : Str → Option Q
  pub order : List (Str × Str)
  pub stat : Str → Option Bool
  pub read_file : Str → Option Str
  pub md5 : Str → Str
  pub base : Str → Str
  pub join : Str → Str → Str
  pub list : Str → Option Listing

abbrev pub setup_name : Str
setup_name = codes "setup"

-- The outcome of a step that changes the pod: an error, or the panic of GetVolumes.
pub data Outcome (Q : Type 0) : Type 0 where
  built : PodSpec Q → Outcome Q
  failure : Outcome Q
  panic : Outcome Q
