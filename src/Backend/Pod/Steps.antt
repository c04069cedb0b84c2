-- ===== src/Backend/Pod/Steps.antt =====
-- The steps of internal/backend/deploy.go that add volumes, an init container and a sidecar to the
-- pod of a container.
use kubedock.Base.{
  List, [], ◌∷◌, ◌++◌, Option, none, some, is_nil, if◌then◌else◌, ok, err, Str, str_eq,
  str_eq_instance,
}
use kubedock.Base.GoMap
use kubedock.Base.GoMap.{GoMap}
use kubedock.Base.Text.{codes}
use kubedock.Model.Container.{Container}
use kubedock.Model.Container.Settings.{PullPolicy, get_image_pull_policy, get_resource_requirements}
use kubedock.Model.Container.Volumes.{get_volume_folders, get_volume_files}
use kubedock.Model.Container.PreArchives.{File, get_pre_archive_files}
use kubedock.Backend.Names.{to_kubernetes_name}
use kubedock.Backend.Deploy.{get_labels, get_annotations}
use kubedock.Backend.Pod.{
  VolumeMount, KeyToPath, Volume, empty_dir, config_map, PodContainer, PodSpec, ConfigMap, Instance,
  Libraries, setup_name, Outcome, built, failure, panic,
}

-- pod.Spec.Containers[0].VolumeMounts = append(..., mounts...)
unfoldable pub mount_first :
    {Q : Type 0} → List VolumeMount → List (PodContainer Q) → List (PodContainer Q)
mount_first mounts [] = []
mount_first mounts (c ∷ cs) = record c { volume_mounts = c.volume_mounts ++ mounts } ∷ cs

-- `create` is ConfigMaps(namespace).Create: the name of what it returns, or none for an error.
module _ {Q K : Type 0} (lib : Libraries Q) (inst : Instance Q)
    (create : ConfigMap → K → K × Option Str) where
  -- createSetupInitContainer; none is an error
  unfoldable pub create_setup_init_container : Container → Option (PodContainer Q)
  create_setup_init_container co = elim (get_image_pull_policy co) [
    | err e ↦ none
    | ok pulpol ↦
        elim (get_resource_requirements lib.parse_quantity co lib.order
          inst.container_template.resources) [
            | err e ↦ none
            | ok reqlimits ↦ some (record (inst.container_template) {
              name = setup_name;
              image = inst.init_image;
              pull_policy = pulpol;
              command =
                  codes "sh"
                  ∷ codes "-c"
                  ∷ codes "while [ ! -f /tmp/done ]; do sleep 0.1 ; done"
                  ∷ [];
              resources = reqlimits;
            })
          ]
  ]

  -- The loop of addSetupInitContainer.
  unfoldable pub find_setup : List (PodContainer Q) → Option (PodContainer Q)
  find_setup [] = none
  find_setup (c ∷ more) =
      let rest = find_setup more in if str_eq c.name setup_name then some c else rest

  -- addSetupInitContainer
  unfoldable pub add_setup_init_container : Container → PodSpec Q → Option (PodContainer Q)
  unfolding find_setup create_setup_init_container
  add_setup_init_container co pod = elim (find_setup pod.init_containers) [
    | some c ↦ some c
    | none ↦ create_setup_init_container co
  ]

  -- The end of addVolumes and of addPreArchives: the init container replaces all there are.
  unfoldable pub mount_all : PodContainer Q → List Volume → List VolumeMount → PodSpec Q → PodSpec Q
  unfolding mount_first
  mount_all init volumes mounts pod = record pod {
    init_containers = record init { volume_mounts = init.volume_mounts ++ mounts } ∷ [];
    volumes = pod.volumes ++ volumes;
    containers = mount_first mounts pod.containers;
  }

  -- The loop over the folders.
  unfoldable pub folder_volumes : GoMap Str Str → List Volume
  unfolding to_kubernetes_name
  folder_volumes [] = []
  folder_volumes ((dst, src) ∷ more) =
      record { name = to_kubernetes_name dst; source = empty_dir } ∷ folder_volumes more

  unfoldable pub folder_mounts : GoMap Str Str → List VolumeMount
  unfolding to_kubernetes_name
  folder_mounts [] = []
  folder_mounts ((dst, src) ∷ more) =
      record { name = to_kubernetes_name dst; mount_path = dst; sub_path = [] } ∷ folder_mounts more

  -- The loop over the files.
  unfoldable pub file_mounts : GoMap Str Str → List VolumeMount
  file_mounts [] = []
  file_mounts ((dst, src) ∷ more) =
      record { name = codes "vfiles"; mount_path = dst; sub_path = lib.md5 src } ∷ file_mounts more

  -- The loop of createConfigMapFromFiles; none is the error of readFile
  unfoldable pub read_files : GoMap Str Str → GoMap Str Str → Option (GoMap Str Str)
  read_files [] dat = some dat
  read_files ((dst, src) ∷ more) dat = elim (lib.read_file src) [
    | none ↦ none
    | some d ↦ read_files more (GoMap.insert (lib.md5 src) d dat)
  ]

  unfoldable pub new_config_map : Str → Container → GoMap Str Str → ConfigMap
  unfolding get_labels get_annotations
  new_config_map suffix co dat = record {
    name = co.short_id ++ suffix;
    labels = get_labels inst.defaults [] co;
    annotations = get_annotations inst.defaults [] co;
    binary_data = dat;
  }

  -- createConfigMapFromFiles
  unfoldable pub create_config_map_from_files : Container → GoMap Str Str → K → K × Option Str
  unfolding read_files new_config_map
  create_config_map_from_files co files k = elim (read_files files []) [
    | none ↦ (k, none)
    | some dat ↦ create (new_config_map (codes "-vf") co dat) k
  ]

  -- The loop of createConfigMapFromRaw.
  unfoldable pub raw_files : GoMap Str File → GoMap Str Str → GoMap Str Str
  raw_files [] dat = dat
  raw_files ((src, file) ∷ more) dat = raw_files more (GoMap.insert (lib.md5 src) file.content dat)

  -- createConfigMapFromRaw
  unfoldable pub create_config_map_from_raw : Container → GoMap Str File → K → K × Option Str
  unfolding raw_files new_config_map
  create_config_map_from_raw co files k =
      create (new_config_map (codes "-pf") co (raw_files files [])) k

  -- addVolumes from the volumes on
  unfoldable pub volumes_of :
      Container → PodContainer Q → PodSpec Q → GoMap Str Str → GoMap Str Str → K → K × Outcome Q
  unfolding mount_all folder_volumes folder_mounts file_mounts create_config_map_from_files
  volumes_of co init pod folders vfiles k =
      if is_nil vfiles
      then (k, built (mount_all init (folder_volumes folders) (folder_mounts folders) pod))
      else (let (k1, cm) = create_config_map_from_files co vfiles k in
          elim cm [
            | none ↦ (k1, failure)
            | some cm_name ↦
                let vfiles_volume : Volume = record {
                  name = codes "vfiles";
                  source = config_map cm_name [];
                } in
                (
                  k1,
                  built (
                      mount_all init (folder_volumes folders ++ vfiles_volume ∷ [])
                        (folder_mounts folders ++ file_mounts vfiles) pod),
                )
          ])

  -- addVolumes
  unfoldable pub add_volumes : Container → PodSpec Q → K → K × Outcome Q
  add_volumes co pod k = elim (add_setup_init_container co pod) [
    | none ↦ (k, failure)
    | some init ↦ elim (get_volume_folders lib.stat co) [
      | none ↦ (k, panic)
      | some folders ↦ elim (get_volume_files lib.stat co) [
        | none ↦ (k, panic)
        | some vfiles ↦ volumes_of co init pod folders vfiles k
      ]
    ]
  ]

  -- The loop over the files for the volume "pfiles".
  unfoldable pub pre_archive_items : GoMap Str File → List KeyToPath
  pre_archive_items [] = []
  pre_archive_items ((file, info) ∷ more) =
      record { key = lib.md5 file; path = lib.base file; mode = info.file_mode }
      ∷ pre_archive_items more

  unfoldable pub pre_archive_mounts : GoMap Str File → List VolumeMount
  pre_archive_mounts [] = []
  pre_archive_mounts ((dst, info) ∷ more) =
      record { name = codes "pfiles"; mount_path = dst; sub_path = lib.base dst }
      ∷ pre_archive_mounts more

  -- addPreArchives
  unfoldable pub add_pre_archives : Container → PodSpec Q → K → K × Outcome Q
  add_pre_archives co pod k = elim (add_setup_init_container co pod) [
    | none ↦ (k, failure)
    | some init ↦
        let pfiles = get_pre_archive_files lib.list lib.join co in
        if is_nil pfiles
        then (k, built (mount_all init [] [] pod))
        else (let (k1, cm) = create_config_map_from_raw co pfiles k in
            elim cm [
              | none ↦ (k1, failure)
              | some cm_name ↦
                  let volume : Volume = record {
                    name = codes "pfiles";
                    source = config_map cm_name (pre_archive_items pfiles);
                  } in
                  (k1, built (mount_all init (volume ∷ []) (pre_archive_mounts pfiles) pod))
            ])
  ]

  -- The sidecar, its volume and the mount of that in the sidecar and in the main container.
  unfoldable pub with_sidecar : PullPolicy → PodSpec Q → PodSpec Q
  unfolding mount_first
  with_sidecar pulpol pod =
      let mount : VolumeMount = record {
        name = codes "dind-socket";
        mount_path = codes "/var/run";
        sub_path = [];
      } in
      let sidecar : PodContainer Q = record (inst.container_template) {
        name = codes "dind-sidecar";
        image = inst.dind_image;
        pull_policy = pulpol;
        command = codes "kubedock" ∷ codes "dind" ∷ codes "--kubedock-url" ∷ inst.kuburl ∷ [];
        volume_mounts = inst.container_template.volume_mounts ++ mount ∷ [];
      } in
      record pod {
        volumes = pod.volumes ++ record { name = codes "dind-socket"; source = empty_dir } ∷ [];
        containers = sidecar ∷ mount_first (mount ∷ []) pod.containers;
      }

  -- addDindSidecar
  unfoldable pub add_dind_sidecar : Container → PodSpec Q → Outcome Q
  add_dind_sidecar co pod = elim (get_image_pull_policy co) [
    | err e ↦ failure
    | ok pulpol ↦ built (with_sidecar pulpol pod)
  ]
