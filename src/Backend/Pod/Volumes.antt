-- ===== src/Backend/Pod/Volumes.antt =====
-- The pod that startContainer creates has a volume for each of its mounts.
use kubedock.Base.{
  ℕ, ◌≡◌, refl, subst, sym, inl, inr, Bool, true, false, List, [], ◌∷◌, ◌++◌, Option, none, some,
  is_nil, map, Bool-cases, Option-cases, Result, ok, err, arith, Str, str_eq_instance, ◌&&◌, not,
}
use kubedock.Base.Text.{codes}
use kubedock.Model.Error.{Error}
use kubedock.Model.Container.{Container, has_volumes, has_pre_archives}
use kubedock.Model.Container.Settings.{PullPolicy, get_image_pull_policy}
use kubedock.Model.Container.Volumes.{get_volume_folders, get_volume_files, has_docker_sock_binding}
use kubedock.Model.Container.PreArchives.{get_pre_archive_files}
use kubedock.Backend.Pod.{
  VolumeMount, Volume, empty_dir, PodContainer, PodSpec, ConfigMap, Instance, Libraries, Outcome,
  built, failure, panic,
}
use kubedock.Backend.Pod.Steps.{
  add_setup_init_container, create_config_map_from_raw, add_dind_sidecar, with_sidecar,
}
use kubedock.Backend.Pod.Build.{
  configured_pod, plain_pod, main_container, then_pod, volumes_step, archives_step, dind_step,
  build_pod,
}
use kubedock.Backend.Pod.Mounts.{
  Fit, ContainersFit, PodFit, Fit-left, Fit-append, first-Fit, one-Fit, containers-left,
}
use kubedock.Backend.Pod.Fits.{
  Fitting, OutcomeFit, OutcomeFit-at, failure-Fit, panic-Fit, built-Fit, add_volumes-Fit,
  add_pre_archives-Fit,
}

module _ {Q K : Type 0} (lib : Libraries Q) (inst : Instance Q)
    (create : ConfigMap → K → K × Option Str) where
  sidecar-Fitting :
      (pulpol : PullPolicy) (pod : PodSpec Q)
      → Fitting lib inst create pod
      → Fitting lib inst create (with_sidecar lib inst create pulpol pod)
  unfolding with_sidecar Fitting PodFit ContainersFit
  sidecar-Fitting pulpol pod fit =
      let tmpl = inst.container_template in
      let mount : VolumeMount = record {
        name = codes "dind-socket";
        mount_path = codes "/var/run";
        sub_path = [];
      } in
      let v : Volume = record { name = codes "dind-socket"; source = empty_dir } in
      let new = one-Fit pod.volumes v (mount ∷ []) (refl, tt) in
      let old = Fit-left pod.volumes (v ∷ []) tmpl.volume_mounts fit.1 in
      (
        (
          containers-left pod.volumes (v ∷ []) pod.init_containers fit.0.0,
          (
            Fit-append (pod.volumes ++ v ∷ []) tmpl.volume_mounts (mount ∷ []) old new,
            first-Fit (pod.volumes ++ v ∷ []) (mount ∷ []) pod.containers new
                (containers-left pod.volumes (v ∷ []) pod.containers fit.0.1),
          ),
        ),
        old,
      )

  dind_pod-Fit :
      (co : Container) (pod : PodSpec Q) (k : K) (r : Result Error PullPolicy)
      → get_image_pull_policy co ≡ r
      → Fitting lib inst create pod
      → OutcomeFit lib inst create (add_dind_sidecar lib inst create co pod)
  unfolding add_dind_sidecar
  dind_pod-Fit co pod k (err e) b fit =
      failure-Fit lib inst create (k, add_dind_sidecar lib inst create co pod) k (ground arith)
  dind_pod-Fit co pod k (ok pulpol) b fit =
      built-Fit lib inst create (k, add_dind_sidecar lib inst create co pod) k
        (with_sidecar lib inst create pulpol pod) (ground arith) (sidecar-Fitting pulpol pod fit)

  volumes_step-Fit :
      (co : Container) (pod : PodSpec Q) (k : K) (b : Bool)
      → has_volumes co ≡ b
      → Fitting lib inst create pod
      → OutcomeFit lib inst create (volumes_step lib inst create co pod k).1
  unfolding volumes_step OutcomeFit
  volumes_step-Fit co pod k true e fit = rw e (
      add_volumes-Fit lib inst create co pod k (add_setup_init_container lib inst create co pod)
        (get_volume_folders lib.stat co) (get_volume_files lib.stat co) refl refl refl fit)
  volumes_step-Fit co pod k false e fit = rw e fit

  archives_step-Fit :
      (co : Container) (pod : PodSpec Q) (k : K) (b : Bool)
      → has_pre_archives co ≡ b
      → Fitting lib inst create pod
      → OutcomeFit lib inst create (archives_step lib inst create co pod k).1
  unfolding archives_step OutcomeFit
  archives_step-Fit co pod k true e fit =
      let files = get_pre_archive_files lib.list lib.join co in
      rw e (
        add_pre_archives-Fit lib inst create co pod k
          (add_setup_init_container lib inst create co pod) (is_nil files)
          (create_config_map_from_raw lib inst create co files k).1 refl refl refl fit)
  archives_step-Fit co pod k false e fit = rw e fit

  dind_step-Fit :
      (co : Container) (pod : PodSpec Q) (k : K) (binds : Option Bool)
      → has_docker_sock_binding co ≡ binds
      → Fitting lib inst create pod
      → OutcomeFit lib inst create (dind_step lib inst create co pod k).1
  unfolding dind_step
  dind_step-Fit co pod k none e fit =
      panic-Fit lib inst create (dind_step lib inst create co pod k) k (ground arith)
  dind_step-Fit co pod k (some binds) e fit = elim (Bool-cases (binds && not inst.disable_dind)) [
    | inl b ↦
        OutcomeFit-at lib inst create (dind_step lib inst create co pod k)
          (k, add_dind_sidecar lib inst create co pod) (ground arith)
          (dind_pod-Fit co pod k (get_image_pull_policy co) refl fit)
    | inr b ↦
        built-Fit lib inst create (dind_step lib inst create co pod k) k pod (ground arith) fit
  ]

  then_pod-Fit :
      (r : K × Outcome Q) (f : PodSpec Q → K → K × Outcome Q)
      → ((pod : PodSpec Q) (k : K)
          → Fitting lib inst create pod
          → OutcomeFit lib inst create (f pod k).1)
      → OutcomeFit lib inst create r.1
      → OutcomeFit lib inst create (then_pod lib inst create r f).1
  unfolding then_pod OutcomeFit
  then_pod-Fit (k, built pod) f h fit = h pod k fit
  then_pod-Fit (k, failure) f h fit = tt
  then_pod-Fit (k, panic) f h fit = tt

  abbrev mounts_of : List (PodContainer Q) → List (List VolumeMount)
  mounts_of cs = map (λ c. c.volume_mounts) cs

  configured_parts :
      (co : Container) (pod : PodSpec Q)
      → configured_pod lib inst create co ≡ some pod
      → (pod.volumes ≡ inst.pod_template.volumes)
        × (pod.init_containers ≡ inst.pod_template.init_containers)
        × (mounts_of pod.containers ≡ inst.container_template.volume_mounts ∷ [])
  unfolding configured_pod plain_pod main_container
  configured_parts co pod e = (ground arith, ground arith, ground arith)

  main-ContainersFit :
      (vs : List Volume) (cs : List (PodContainer Q)) (ms : List VolumeMount)
      → mounts_of cs ≡ ms ∷ []
      → Fit vs ms
      → ContainersFit vs cs
  unfolding ContainersFit
  main-ContainersFit vs [] ms e h = tt
  main-ContainersFit vs (c ∷ []) ms e h =
      let same : c.volume_mounts ≡ ms = cc in (subst (Fit vs) (sym same) h, tt)
  main-ContainersFit vs (c ∷ d ∷ cs) ms e h = absurd (ground arith)

  steps-Fit :
      (co : Container) (k : K) (p : PodSpec Q)
      → configured_pod lib inst create co ≡ some p
      → Fitting lib inst create p
      → OutcomeFit lib inst create (build_pod lib inst create co k).1
  unfolding build_pod
  steps-Fit co k p e fit =
      OutcomeFit-at lib inst create (build_pod lib inst create co k)
        (then_pod lib inst create
          (then_pod lib inst create (volumes_step lib inst create co p k)
            (λ q k1. archives_step lib inst create co q k1))
          (λ q k1. dind_step lib inst create co q k1))
        (ground arith)
        (then_pod-Fit
          (then_pod lib inst create (volumes_step lib inst create co p k)
            (λ q k1. archives_step lib inst create co q k1))
          (λ q k1. dind_step lib inst create co q k1)
          (λ q k1 f. dind_step-Fit co q k1 (has_docker_sock_binding co) refl f)
          (then_pod-Fit (volumes_step lib inst create co p k)
            (λ q k1. archives_step lib inst create co q k1)
            (λ q k1 f. archives_step-Fit co q k1 (has_pre_archives co) refl f)
            (volumes_step-Fit co p k (has_volumes co) refl fit)))

  no_pod :
      (co : Container) (k k' : K) (pod : PodSpec Q)
      → configured_pod lib inst create co ≡ none
      → build_pod lib inst create co k ≡ (k', built pod)
      → ◌≡◌ {A = ℕ} 0 1
  unfolding build_pod
  no_pod co k k' pod e h = ground arith

  configured-Fit :
      (co : Container) (pod : PodSpec Q)
      → configured_pod lib inst create co ≡ some pod
      → ContainersFit inst.pod_template.volumes inst.pod_template.init_containers
      → Fit inst.pod_template.volumes inst.container_template.volume_mounts
      → Fitting lib inst create pod
  unfolding Fitting PodFit
  configured-Fit co pod e hi hc =
      let (ev, ei, em) = configured_parts co pod e in
      (
        (
          rw (ev, ei) hi,
          main-ContainersFit pod.volumes pod.containers inst.container_template.volume_mounts em
              (rw ev hc),
        ),
        rw ev hc,
      )

  -- Whatever volumes, archives and socket a container has: if the mounts of the template's first
  -- container and of its init containers are of volumes of the template, then every mount of every
  -- container of the pod that is created is of a volume of that pod.
  pub build_pod-PodFit :
      (co : Container) (k k' : K) (pod : PodSpec Q)
      → ContainersFit inst.pod_template.volumes inst.pod_template.init_containers
      → Fit inst.pod_template.volumes inst.container_template.volume_mounts
      → build_pod lib inst create co k ≡ (k', built pod)
      → PodFit pod
  unfolding OutcomeFit Fitting
  build_pod-PodFit co k k' pod hi hc e = elim (Option-cases (configured_pod lib inst create co)) [
    | inl b ↦ absurd (omega (arith, no_pod co k k' pod b e))
    | inr (p, b) ↦
        let fit : OutcomeFit lib inst create (build_pod lib inst create co k).1 =
          steps-Fit co k p b (configured-Fit co p b hi hc) in
        (subst (λ x. OutcomeFit lib inst create x.1) e fit).0
  ]
