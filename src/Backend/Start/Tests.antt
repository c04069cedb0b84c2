-- ===== src/Backend/Start/Tests.antt =====
-- A container whose service the cluster refuses.
use kubedock.Model.Container.Ports.{get_image_tcp_ports, get_service_ports, get_container_tcp_ports}
use kubedock.Backend.HostPorts.{map_container_tcp_ports}
use kubedock.Model.Container.Volumes.{get_volumes, has_docker_sock_binding}
use kubedock.Model.Container.Settings.{
  get_pod_security_context, get_active_deadline_seconds, get_node_selector,
  get_resource_requirements, get_image_pull_policy,
}
use kubedock.Backend.Pod.Build.{
  dind_step, archives_step, volumes_step, then_pod, configured_pod, build_pod,
}
use kubedock.Base.{
  str_eq, any_of, ℕ, ◌+◌, ◌≡◌, refl, Bool, true, false, [], ◌∷◌, none, some, replicate,
  str_eq_instance, int_eq_instance,
}
use kubedock.Base.GoMap
use kubedock.Base.Text.{to_lower, parse_int64, split, codes}
use kubedock.Model.Container.{map_port, has_pre_archives, has_volumes, Container, blank}
use kubedock.Backend.Interface.{DeployState, running, failed}
use kubedock.Backend.Deploy.{wait_ready_state, Pod}
use kubedock.Backend.Services.{get_services, create_services, other_error}
use kubedock.Backend.Pod.Tests.{lib, inst, create}
use kubedock.Backend.Start.{
  services_end, ready_end, copy_step, created_end, pod_end, Kube, Started, returned,
  start_container,
}
use kubedock.Backend.Start.Outcomes.{Outcomes, start_container-Outcomes}

abbrev pod : Pod
pod = record {
  statuses =
      record {
        name = codes "main";
        terminated = none;
        last_terminated = none;
        restart_count = 0;
        waiting = none;
        is_running = true;
      }
      ∷ [];
  init_statuses = [];
  has_failed = false;
}

-- The cluster counts what it creates and takes no service.
abbrev pub kube : Kube ℕ ℕ
kube = record {
  create_config_map = create;
  create_pod = λ p k. (k + 1, none);
  create_service = λ s k. (k, some other_error);
  delete_pod = λ n k. 0;
  pod_at = λ n k i. some pod;
  remote_cmd = λ p c cmd k. (k, false);
  watch = λ i k. false;
  listen = λ n. some (40000 + n);
}

abbrev web : Container
web = record blank {
  short_id = replicate 12 b'a';
  name = codes "web";
  hostname = codes "web";
  exposed_ports = (codes "80/tcp", tt) ∷ [];
}

start_container-Outcomes_example : Outcomes lib inst kube (start_container lib inst kube web 0)
start_container-Outcomes_example = start_container-Outcomes lib inst kube web 0

-- the cluster, the state and the error of a start
abbrev ended : Started ℕ → ℕ × DeployState × Bool
ended r = elim r [ returned k co state bad ↦ (k, state, bad) | _ ↦ (0, failed, false) ]

-- The start has an error, and the pod that is running is left.
left : ended (start_container lib inst kube web 0) ≡ (1, running, true)
unfolding start_container build_pod configured_pod get_image_pull_policy GoMap.get_or
    get_resource_requirements get_node_selector get_active_deadline_seconds get_pod_security_context
    then_pod volumes_step has_volumes archives_step has_pre_archives dind_step
    has_docker_sock_binding get_volumes any_of pod_end created_end copy_step ready_end
    wait_ready_state str_eq codes map_container_tcp_ports get_container_tcp_ports split parse_int64
    services_end create_services get_services get_service_ports map_port GoMap.insert
    get_image_tcp_ports to_lower
left = refl
