-- ===== src/Backend/Pod/Fits.antt =====
-- The steps that add volumes to a pod add a volume for each mount.
use kubedock.Base.{
  ◌≡◌, refl, subst, sym, Bool, true, false, List, [], ◌∷◌, ◌++◌, Option, none, some, is_nil, All,
  arith, Str, str_eq_instance,
}
use kubedock.Base.GoMap.{GoMap}
use kubedock.Base.Text.{codes}
use kubedock.Model.Container.{Container}
use kubedock.Model.Container.Volumes.{get_volume_folders, get_volume_files}
use kubedock.Model.Container.PreArchives.{get_pre_archive_files}
use kubedock.Backend.Pod.{
  VolumeMount, Volume, config_map, PodContainer, PodSpec, ConfigMap, Instance, Libraries, Outcome,
  built, failure, panic,
}
use kubedock.Backend.Pod.Steps.{
  add_setup_init_container, create_config_map_from_files, create_config_map_from_raw, mount_all,
  folder_volumes, folder_mounts, file_mounts, volumes_of, add_volumes, pre_archive_items,
  pre_archive_mounts, add_pre_archives,
}
use kubedock.Backend.Pod.Mounts.{
  Fit, PodFit, Fit-left, Fit-right, Fit-append, one-Fit, setup-Fit, mount_all-Fit, folders-Fit,
  named_vfiles, named_pfiles,
}

module _ {Q K : Type 0} (lib : Libraries Q) (inst : Instance Q)
    (create : ConfigMap → K → K × Option Str) where
  -- What every step keeps: the mounts fit, those of the template too.
  unfoldable pub Fitting : PodSpec Q → Type 0
  Fitting pod = PodFit pod × Fit pod.volumes inst.container_template.volume_mounts

  unfoldable pub OutcomeFit : Outcome Q → Type 0
  unfolding Fitting
  OutcomeFit (built pod) = Fitting pod
  OutcomeFit failure = Unit
  OutcomeFit panic = Unit

  mounted-Fitting :
      (init : PodContainer Q) (vs : List Volume) (ms : List VolumeMount) (pod : PodSpec Q)
      → Fit pod.volumes init.volume_mounts
      → Fit (pod.volumes ++ vs) ms
      → Fitting pod
      → Fitting (mount_all lib inst create init vs ms pod)
  unfolding Fitting mount_all
  mounted-Fitting init vs ms pod hi hm fit = (
    mount_all-Fit lib inst create init vs ms pod hi hm fit.0,
    Fit-left pod.volumes vs inst.container_template.volume_mounts fit.1,
  )

  none_mounted : (pod : PodSpec Q) → Fit (pod.volumes ++ []) []
  unfolding Fit
  none_mounted pod = tt

  folder_step :
      (folders : GoMap Str Str) (pod : PodSpec Q)
      → Fit
          (pod.volumes ++ folder_volumes lib inst create folders)
          (folder_mounts lib inst create folders)
  folder_step folders pod =
      Fit-right pod.volumes (folder_volumes lib inst create folders)
        (folder_mounts lib inst create folders) (folders-Fit lib inst create folders)

  files_step :
      (folders vfiles : GoMap Str Str) (v : Volume) (pod : PodSpec Q)
      → v.name ≡ codes "vfiles"
      → Fit
          (pod.volumes ++ (folder_volumes lib inst create folders ++ v ∷ []))
          (folder_mounts lib inst create folders ++ file_mounts lib inst create vfiles)
  files_step folders vfiles v pod e =
      let vs = folder_volumes lib inst create folders in
      Fit-right pod.volumes (vs ++ v ∷ [])
        (folder_mounts lib inst create folders ++ file_mounts lib inst create vfiles)
        (Fit-append (vs ++ v ∷ []) (folder_mounts lib inst create folders)
          (file_mounts lib inst create vfiles)
          (Fit-left vs (v ∷ []) (folder_mounts lib inst create folders)
            (folders-Fit lib inst create folders))
          (one-Fit vs v (file_mounts lib inst create vfiles) (
            subst (λ n. All (λ m. m.name ≡ n) (file_mounts lib inst create vfiles)) (sym e)
              (named_vfiles lib inst create vfiles))))

  volumes_of-Fit :
      (co : Container) (init : PodContainer Q) (pod : PodSpec Q) (folders vfiles : GoMap Str Str)
      (k : K) (b : Bool) (o : Option Str)
      → is_nil vfiles ≡ b
      → (create_config_map_from_files lib inst create co vfiles k).1 ≡ o
      → Fit pod.volumes init.volume_mounts
      → Fitting pod
      → OutcomeFit (volumes_of lib inst create co init pod folders vfiles k).1
  unfolding volumes_of OutcomeFit
  volumes_of-Fit co init pod folders vfiles k true o e e' hi fit = rw e (
      mounted-Fitting init (folder_volumes lib inst create folders)
        (folder_mounts lib inst create folders) pod hi (folder_step folders pod) fit)
  volumes_of-Fit co init pod folders vfiles k false none e e' hi fit = rw (e, e') tt
  volumes_of-Fit co init pod folders vfiles k false (some n) e e' hi fit =
      let v : Volume = record { name = codes "vfiles"; source = config_map n [] } in
      rw (e, e')
        (mounted-Fitting init (folder_volumes lib inst create folders ++ v ∷ [])
          (folder_mounts lib inst create folders ++ file_mounts lib inst create vfiles) pod hi
          (files_step folders vfiles v pod refl) fit)

  pub OutcomeFit-at : (r r' : K × Outcome Q) → r ≡ r' → OutcomeFit r'.1 → OutcomeFit r.1
  OutcomeFit-at r r' e h = subst (λ x. OutcomeFit x.1) (sym e) h

  pub failure-Fit : (r : K × Outcome Q) (k : K) → r ≡ (k, failure) → OutcomeFit r.1
  unfolding OutcomeFit
  failure-Fit r k e = OutcomeFit-at r (k, failure) e tt

  pub panic-Fit : (r : K × Outcome Q) (k : K) → r ≡ (k, panic) → OutcomeFit r.1
  unfolding OutcomeFit
  panic-Fit r k e = OutcomeFit-at r (k, panic) e tt

  pub built-Fit :
      (r : K × Outcome Q) (k : K) (pod : PodSpec Q)
      → r ≡ (k, built pod)
      → Fitting pod
      → OutcomeFit r.1
  unfolding OutcomeFit
  built-Fit r k pod e h = OutcomeFit-at r (k, built pod) e h

  pub add_volumes-Fit :
      (co : Container) (pod : PodSpec Q) (k : K) (i : Option (PodContainer Q))
      (folders vfiles : Option (GoMap Str Str))
      → add_setup_init_container lib inst create co pod ≡ i
      → get_volume_folders lib.stat co ≡ folders
      → get_volume_files lib.stat co ≡ vfiles
      → Fitting pod
      → OutcomeFit (add_volumes lib inst create co pod k).1
  unfolding add_volumes Fitting
  add_volumes-Fit co pod k none fo vf e e' e'' fit =
      failure-Fit (add_volumes lib inst create co pod k) k (ground arith)
  add_volumes-Fit co pod k (some init) none vf e e' e'' fit =
      panic-Fit (add_volumes lib inst create co pod k) k (ground arith)
  add_volumes-Fit co pod k (some init) (some fo) none e e' e'' fit =
      panic-Fit (add_volumes lib inst create co pod k) k (ground arith)
  add_volumes-Fit co pod k (some init) (some fo) (some vf) e e' e'' fit =
      OutcomeFit-at (add_volumes lib inst create co pod k)
        (volumes_of lib inst create co init pod fo vf k) (ground arith)
        (volumes_of-Fit co init pod fo vf k (is_nil vf)
          (create_config_map_from_files lib inst create co vf k).1 refl refl
          (setup-Fit lib inst create co pod init e fit.1 fit.0) fit)

  pub add_pre_archives-Fit :
      (co : Container) (pod : PodSpec Q) (k : K) (i : Option (PodContainer Q)) (b : Bool)
      (o : Option Str)
      → add_setup_init_container lib inst create co pod ≡ i
      → is_nil (get_pre_archive_files lib.list lib.join co) ≡ b
      → (create_config_map_from_raw lib inst create co
          (get_pre_archive_files lib.list lib.join co)
          k).1
        ≡ o
      → Fitting pod
      → OutcomeFit (add_pre_archives lib inst create co pod k).1
  unfolding add_pre_archives Fitting
  add_pre_archives-Fit co pod k none b o e e' e'' fit =
      failure-Fit (add_pre_archives lib inst create co pod k) k (ground arith)
  add_pre_archives-Fit co pod k (some init) true o e e' e'' fit =
      built-Fit (add_pre_archives lib inst create co pod k) k
        (mount_all lib inst create init [] [] pod) (ground arith)
        (mounted-Fitting init [] [] pod (setup-Fit lib inst create co pod init e fit.1 fit.0)
          (none_mounted pod) fit)
  add_pre_archives-Fit co pod k (some init) false none e e' e'' fit =
      failure-Fit (add_pre_archives lib inst create co pod k)
        (create_config_map_from_raw lib inst create co (get_pre_archive_files lib.list lib.join co)
          k).0
        (ground arith)
  add_pre_archives-Fit co pod k (some init) false (some n) e e' e'' fit =
      let files = get_pre_archive_files lib.list lib.join co in
      let v : Volume = record {
        name = codes "pfiles";
        source = config_map n (pre_archive_items lib inst create files);
      } in
      let ms = pre_archive_mounts lib inst create files in
      built-Fit (add_pre_archives lib inst create co pod k)
        (create_config_map_from_raw lib inst create co files k).0
        (mount_all lib inst create init (v ∷ []) ms pod) (ground arith)
        (mounted-Fitting init (v ∷ []) ms pod (setup-Fit lib inst create co pod init e fit.1 fit.0)
          (one-Fit pod.volumes v ms (named_pfiles lib inst create files)) fit)
