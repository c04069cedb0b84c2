-- ===== src/Backend/Start.antt =====
-- StartContainer of internal/backend/deploy.go, over a kubernetes client that is a parameter.
pub mod Answers
pub mod Outcomes
pub mod Same
pub mod Served
pub mod Tests
use kubedock.Base.{
  ℕ, zero, suc, ◌+◌, Bool, true, false, ◌||◌, ◌&&◌, not, List, [], ◌∷◌, ◌++◌, Option, none, some,
  any_of, if◌then◌else◌, Str, str_eq, str_eq_instance,
}
use kubedock.Base.GoMap.{GoMap}
use kubedock.Base.Int.{pos, int_eq}
use kubedock.Base.Text.{codes}
use kubedock.Model.Container.{Container, has_volumes, has_pre_archives}
use kubedock.Model.Container.PodName.{get_pod_name}
use kubedock.Model.Container.Volumes.{get_volume_folders, has_docker_sock_binding}
use kubedock.Backend.Interface.{DeployState, pending, failed, running, completed}
use kubedock.Backend.Deploy.{Pod, ContainerStatus, Terminated, wait_ready_state}
use kubedock.Backend.Services.{Service, CreateError, already_exists, other_error, create_services}
use kubedock.Backend.HostPorts.{map_container_tcp_ports}
use kubedock.Backend.Pod.{
  ConfigMap, PodSpec, Instance, Libraries, Outcome, built, failure, panic, setup_name,
}
use kubedock.Backend.Pod.Build.{build_pod}

-- The client of a namespace over the state `K` of the cluster: the creates, the delete of a pod by
-- its name, what a pod looks like when it is looked at for the n-th time while nothing is written,
-- a command in a container of a pod, and the watch on the pods of a container. The flags are
-- errors. `listen n` is the port of the n-th listener of MapContainerTCPPorts.
pub record Kube (Q K : Type 0) : Type 0 where
  pub create_config_map : ConfigMap → K → K × Option Str
  pub create_pod : PodSpec Q → K → K × Option CreateError
  pub create_service : Service → K → K × Option CreateError
  pub delete_pod : Str → K → K
  pub pod_at : Str → K → ℕ → Option Pod
  pub remote_cmd : Str → Str → List Str → K → K × Bool
  pub watch : Str → K → Bool
  pub listen : ℕ → Option ℕ

unfoldable pub exited_well : Option Terminated → Bool
exited_well none = false
exited_well (some t) = int_eq t.exit_code (pos 0)

-- The loop over the init containers of waitInitContainerRunning.
unfoldable pub init_ready : Str → List ContainerStatus → Bool
unfolding exited_well
init_ready name [] = false
init_ready name (s ∷ more) =
    let rest = init_ready name more in
    if not (str_eq s.name name)
    then rest
    else if s.is_running
    then true
    else if exited_well s.terminated
    then true
    else rest

-- waitInitContainerRunning: the pods that the rounds get, and the number of rounds left; the result
-- is the error.
unfoldable pub wait_init_container_running : (ℕ → Option Pod) → Str → ℕ → ℕ → Bool
unfolding init_ready
wait_init_container_running poll name n zero = true
wait_init_container_running poll name n (suc wait) =
    let again = wait_init_container_running poll name (suc n) wait in
    elim (poll n) [
      | none ↦ true
      | some pod ↦
          if pod.has_failed
          then true
          else if init_ready name pod.init_statuses
          then false
          else again
    ]

-- The test whether the init container is done already.
unfoldable pub is_done : List ContainerStatus → Bool
unfolding exited_well
is_done statuses = any_of (λ s. str_eq s.name setup_name && exited_well s.terminated) statuses

-- What startContainer gives: the cluster, the container, the state and whether there is an error;
-- or the panic of GetVolumes.
pub data Started (K : Type 0) : Type 0 where
  returned : K → Container → DeployState → Bool → Started K
  panicked : K → Started K

module _ {Q K : Type 0} (lib : Libraries Q) (inst : Instance Q) (kube : Kube Q K) where
  -- touchFileInContainer; `n` numbers the look at the pod
  unfoldable pub touch_file_in_container : ℕ → Container → Str → Str → K → K × Bool
  touch_file_in_container n co container filename k = elim (kube.pod_at (get_pod_name co) k n) [
    | none ↦ (k, true)
    | some pod ↦ kube.remote_cmd (get_pod_name co) container (codes "touch" ∷ filename ∷ []) k
  ]

  -- The loop over the folders; a command that fails is only logged.
  unfoldable pub copy_each : Str → GoMap Str Str → K → K
  copy_each pod [] k = k
  copy_each pod ((dst, src) ∷ more) k =
      let cmd = codes "tar" ∷ codes "-xf" ∷ codes "-" ∷ codes "-C" ∷ dst ∷ [] in
      copy_each pod more (kube.remote_cmd pod setup_name cmd k).0

  -- copyVolumeFolders, whose looks at the pod come after those of the wait. GetVolumeFolders does not
  -- panic here: it would have in the build of the pod.
  unfoldable pub copy_volume_folders : Container → K → K × Bool
  unfolding copy_each touch_file_in_container
  copy_volume_folders co k =
      let name = get_pod_name co in
      if wait_init_container_running (kube.pod_at name k) setup_name 0 inst.time_out
      then (k, true)
      else (elim (kube.pod_at name k inst.time_out) [
        | none ↦ (k, true)
        | some pod ↦
            if is_done pod.init_statuses
            then (k, false)
            else (elim (get_volume_folders lib.stat co) [
              | none ↦ (k, true)
              | some folders ↦
                  touch_file_in_container (suc inst.time_out) co setup_name (codes "/tmp/done")
                    (copy_each name folders k)
            ])
      ])

  unfoldable pub copy_step : Container → K → K × Bool
  copy_step co k =
      if has_volumes co || has_pre_archives co then copy_volume_folders co k else (k, false)

  -- handleDindCompleted up to the goroutine; the result is the error
  unfoldable pub handle_dind_completed : Container → K → Bool
  handle_dind_completed co k = kube.watch co.short_id k

  -- `duplicateRequest && errors.IsAlreadyExists(err)`
  unfoldable pub is_dropped : Bool → CreateError → Bool
  is_dropped duplicate_request already_exists = duplicate_request
  is_dropped duplicate_request other_error = false

  -- The end of startContainer.
  unfoldable pub dind_end : DeployState → Container → K → Started K
  dind_end state co k = elim (has_docker_sock_binding co) [
    | none ↦ panicked k
    | some binds ↦
        if binds && handle_dind_completed co k
        then returned k co failed true
        else returned k co state false
  ]

  -- createServices and what is after it
  unfoldable pub services_end : Bool → DeployState → Container → K → Started K
  unfolding is_dropped
  services_end duplicate_request state co k =
      let (k1, e) = create_services kube.create_service inst.disable_services inst.defaults co k in
      elim e [
        | none ↦ dind_end state co k1
        | some x ↦
            if is_dropped duplicate_request x
            then dind_end state co k1
            else returned k1 co state true
      ]

  -- waitReadyState and what is after it
  unfoldable pub ready_end : Bool → Container → K → Started K
  ready_end duplicate_request co k =
      let (state, bad) = wait_ready_state (kube.pod_at (get_pod_name co) k) 0 inst.time_out in
      if bad
      then returned k co state true
      else (let (co1, lost) = map_container_tcp_ports kube.listen co in
          if lost then returned k co1 failed true else services_end duplicate_request state co1 k)

  -- copyVolumeFolders and what is after it
  unfoldable pub created_end : Bool → Container → K → Started K
  created_end duplicate_request co k =
      let (k1, bad) = copy_step co k in
      if bad then returned k1 co failed true else ready_end duplicate_request co k1

  -- The create of the pod and what is after it.
  unfoldable pub pod_end : PodSpec Q → Container → K → Started K
  pod_end pod co k =
      let (k1, e) = kube.create_pod pod k in
      elim e [
        | none ↦ created_end false co k1
        | some already_exists ↦ created_end true co k1
        | some other_error ↦ returned k1 co failed true
      ]

  -- startContainer
  unfoldable pub start_steps : Container → K → Started K
  start_steps co k =
      let (k1, r) = build_pod lib inst kube.create_config_map co k in
      elim r [
        | built pod ↦ pod_end pod co k1
        | failure ↦ returned k1 co failed true
        | panic ↦ panicked k1
      ]

  -- The end of StartContainer: what is deleted where the state is DeployFailed.
  unfoldable pub clean_up : Started K → Started K
  clean_up (panicked k) = panicked k
  clean_up (returned k co failed bad) = returned (kube.delete_pod (get_pod_name co) k) co failed bad
  clean_up (returned k co pending bad) = returned k co pending bad
  clean_up (returned k co running bad) = returned k co running bad
  clean_up (returned k co completed bad) = returned k co completed bad

  -- StartContainer
  unfoldable pub start_container : Container → K → Started K
  unfolding start_steps clean_up
  start_container co k = clean_up (start_steps co k)
