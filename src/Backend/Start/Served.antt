-- ===== src/Backend/Start/Served.antt =====
-- The interface of internal/backend/main.go as StartContainer, CreatePortForwards and
-- CreateReverseProxies of internal/backend/deploy.go fill it, and its laws.
use kubedock.Base.{
  ℕ, ◌+◌, length, ℤ, ◌≡◌, refl, inl, inr, Bool, true, false, Bool-cases, Option, none, some,
  int_eq_instance, ◌&&◌,
}
use kubedock.Base.GoMap.{GoMap}
use kubedock.Model.Container.{Container}
use kubedock.Model.Container.PodName.{get_pod_name}
use kubedock.Model.Container.Volumes.{has_docker_sock_binding}
use kubedock.Backend.Interface.{
  DeployState, pending, failed, running, completed, Backend, SameState, IsBackend,
}
use kubedock.Backend.Deploy.{Pod, wait_ready_state}
use kubedock.Backend.Services.{CreateError, already_exists, other_error, create_services}
use kubedock.Backend.HostPorts.{map_container_tcp_ports, forward_each}
use kubedock.Backend.Pod.{PodSpec, Instance, Libraries, Outcome, built, failure, panic}
use kubedock.Backend.Pod.Build.{build_pod}
use kubedock.Backend.Start
use kubedock.Backend.Start.{
  Kube, Started, returned, panicked, copy_step, handle_dind_completed, is_dropped, dind_end,
  services_end, ready_end, created_end, pod_end, start_steps, clean_up,
}
use kubedock.Backend.Start.Same.{same_itself, same_again, mapped_same, forwarded_same}

-- portForward, where the pod is found or not; `stop` numbers its first channel, and the second result
-- the next one.
unfoldable port_forward : Option Pod → GoMap ℤ ℤ → ℕ → Container → Container × ℕ
unfolding forward_each
port_forward none ports stop co = (co, stop)
port_forward (some pod) ports stop co =
    let (co', started) = forward_each ports stop co in (co', stop + length started)

-- CreatePortForwards; each loop looks at the pod first
unfoldable create_port_forwards : {Q K : Type 0} → Kube Q K → ℕ → Container → K → Container
unfolding port_forward
create_port_forwards kube stop co k =
    let found : ℕ → Option Pod = λ i. kube.pod_at (get_pod_name co) k i in
    let (co1, stop1) = port_forward (found 0) co.host_ports stop co in
    (port_forward (found 1) co1.mapped_ports stop1 co1).0

-- CreateReverseProxies
unfoldable create_reverse_proxies : ℕ → Container → Container
unfolding forward_each
create_reverse_proxies stop co =
    let (co1, started) = forward_each co.host_ports stop co in
    (forward_each co1.mapped_ports (stop + length started) co1).0

-- How an answer of the interface is read off the end of a start: a panic, which the HTTP framework
-- answers with 500 as it does a start that fails, is one that leaves the container.
abbrev pub answer_of : {K : Type 0} → Container → Started K → K × Container × DeployState × Bool
answer_of co (returned k co' state bad) = (k, co', state, bad)
answer_of co (panicked k) = (k, co, failed, true)

-- The backend of the modelled operations, where `rest` gives the others; `stop` numbers the channels
-- that are made.
unfoldable pub served :
    {Q K : Type 0}
    → Libraries Q
    → Instance Q
    → Kube Q K
    → (Container → K → ℕ)
    → Backend K
    → Backend K
unfolding create_port_forwards create_reverse_proxies
served lib inst kube stop rest = record rest {
  start_container = λ co k. answer_of co (Start.start_container lib inst kube co k);
  create_port_forwards = λ co k. (k, create_port_forwards kube (stop co k) co k);
  create_reverse_proxies = λ co k. (k, create_reverse_proxies (stop co k) co);
}

port_forward_same :
    (found : Option Pod) (ports : GoMap ℤ ℤ) (stop : ℕ) (co : Container)
    → SameState co (port_forward found ports stop co).0
unfolding port_forward
port_forward_same (some pod) ports stop co = forwarded_same ports stop co
port_forward_same none ports stop co = same_itself co

port_forwards_same :
    {Q K : Type 0} (kube : Kube Q K) (stop : ℕ) (co : Container) (k : K)
    → SameState co (create_port_forwards kube stop co k)
unfolding create_port_forwards
port_forwards_same kube stop co k =
    let found : ℕ → Option Pod = λ i. kube.pod_at (get_pod_name co) k i in
    let (co1, stop1) = port_forward (found 0) co.host_ports stop co in
    same_again co co1 (port_forward (found 1) co1.mapped_ports stop1 co1).0
      (port_forward_same (found 0) co.host_ports stop co)
      (port_forward_same (found 1) co1.mapped_ports stop1 co1)

reverse_proxies_same : (stop : ℕ) (co : Container) → SameState co (create_reverse_proxies stop co)
unfolding create_reverse_proxies
reverse_proxies_same stop co =
    let (co1, started) = forward_each co.host_ports stop co in
    same_again co co1 (forward_each co1.mapped_ports (stop + length started) co1).0
      (forwarded_same co.host_ports stop co)
      (forwarded_same co1.mapped_ports (stop + length started) co1)

-- the container of a start, `d` where it panicked
abbrev container_of : {K : Type 0} → Container → Started K → Container
container_of d (returned k co state bad) = co
container_of d (panicked k) = d

module _ {Q K : Type 0} (lib : Libraries Q) (inst : Instance Q) (kube : Kube Q K)
    (d : Container) where
  -- what a part of startContainer returns has the state that `d` has
  abbrev Carries : Started K → Type 0
  Carries r = SameState d (container_of d r)

  dind_end-Carries :
      (state : DeployState) (co : Container) (k : K) (binds : Option Bool)
      → has_docker_sock_binding co ≡ binds
      → SameState d co
      → Carries (dind_end lib inst kube state co k)
  unfolding dind_end
  dind_end-Carries state co k none e same = rw (dind_end, e) (same_itself d)
  dind_end-Carries state co k (some binds) e same =
      elim (Bool-cases (binds && handle_dind_completed lib inst kube co k)) [
        | inl b ↦ rw (dind_end, e, b) same
        | inr b ↦ rw (dind_end, e, b) same
      ]

  services_end-Carries :
      (dup : Bool) (state : DeployState) (co : Container) (k : K) (e : Option CreateError)
      → (create_services kube.create_service inst.disable_services inst.defaults co k).1 ≡ e
      → SameState d co
      → Carries (services_end lib inst kube dup state co k)
  unfolding services_end
  services_end-Carries dup state co k none b same =
      let k1 = (create_services kube.create_service inst.disable_services inst.defaults co k).0 in
      rw (services_end, b) (dind_end-Carries state co k1 (has_docker_sock_binding co) refl same)
  services_end-Carries dup state co k (some x) b same =
      let k1 = (create_services kube.create_service inst.disable_services inst.defaults co k).0 in
      elim (Bool-cases (is_dropped lib inst kube dup x)) [
        | inl dropped ↦
            rw (services_end, b, dropped)
              (dind_end-Carries state co k1 (has_docker_sock_binding co) refl same)
        | inr kept ↦ rw (services_end, b, kept) same
      ]

  ready_end-Carries :
      (dup : Bool) (co : Container) (k : K)
      → SameState d co
      → Carries (ready_end lib inst kube dup co k)
  unfolding ready_end
  ready_end-Carries dup co k same =
      let waited = wait_ready_state (kube.pod_at (get_pod_name co) k) 0 inst.time_out in
      let (co1, lost) = map_container_tcp_ports kube.listen co in
      let same1 = same_again d co co1 same (mapped_same kube.listen co) in
      elim (Bool-cases waited.1) [
        | inl bad ↦ rw (ready_end, bad) same
        | inr good ↦ elim (Bool-cases lost) [
          | inl b ↦ rw (ready_end, good, b) same1
          | inr b ↦ rw (ready_end, good, b) (services_end-Carries dup waited.0 co1 k _ refl same1)
        ]
      ]

  created_end-Carries :
      (dup : Bool) (co : Container) (k : K)
      → SameState d co
      → Carries (created_end lib inst kube dup co k)
  unfolding created_end
  created_end-Carries dup co k same = elim (Bool-cases (copy_step lib inst kube co k).1) [
    | inl bad ↦ rw (created_end, bad) same
    | inr good ↦
        rw (created_end, good) (ready_end-Carries dup co (copy_step lib inst kube co k).0 same)
  ]

  pod_end-Carries :
      (pod : PodSpec Q) (co : Container) (k : K) (e : Option CreateError)
      → (kube.create_pod pod k).1 ≡ e
      → SameState d co
      → Carries (pod_end lib inst kube pod co k)
  unfolding pod_end
  pod_end-Carries pod co k none b same =
      rw (pod_end, b) (created_end-Carries false co (kube.create_pod pod k).0 same)
  pod_end-Carries pod co k (some already_exists) b same =
      rw (pod_end, b) (created_end-Carries true co (kube.create_pod pod k).0 same)
  pod_end-Carries pod co k (some other_error) b same = rw (pod_end, b) same

  start_steps-Carries :
      (co : Container) (k : K) (r : Outcome Q)
      → (build_pod lib inst kube.create_config_map co k).1 ≡ r
      → SameState d co
      → Carries (start_steps lib inst kube co k)
  unfolding start_steps
  start_steps-Carries co k (built pod) e same =
      let k1 = (build_pod lib inst kube.create_config_map co k).0 in
      rw (start_steps, e) (pod_end-Carries pod co k1 (kube.create_pod pod k1).1 refl same)
  start_steps-Carries co k failure e same = rw (start_steps, e) same
  start_steps-Carries co k panic e same = rw (start_steps, e) (same_itself d)

  clean_up-Carries : (r : Started K) → Carries r → Carries (clean_up lib inst kube r)
  unfolding clean_up
  clean_up-Carries (panicked k) h = h
  clean_up-Carries (returned k co pending bad) h = h
  clean_up-Carries (returned k co failed bad) h = h
  clean_up-Carries (returned k co running bad) h = h
  clean_up-Carries (returned k co completed bad) h = h

module _ {Q K : Type 0} (lib : Libraries Q) (inst : Instance Q) (kube : Kube Q K)
    (stop : Container → K → ℕ) (rest : Backend K) where
  answered :
      (co : Container) (r : Started K)
      → SameState co (container_of co r)
      → SameState co (answer_of co r).1
  answered co (returned k co' state bad) h = h
  answered co (panicked k) h = h

  -- The functions of internal/backend/deploy.go that are given a container write its ports and its
  -- stop channels only, whatever the cluster answers.
  pub served-IsBackend : IsBackend (served lib inst kube stop rest)
  unfolding served Start.start_container
  served-IsBackend = record {
    start_same = λ co k. answered co (Start.start_container lib inst kube co k) (
        clean_up-Carries lib inst kube co (start_steps lib inst kube co k) (
          start_steps-Carries lib inst kube co co k
            (build_pod lib inst kube.create_config_map co k).1 refl (same_itself co)));
    forward_same = λ co k. port_forwards_same kube (stop co k) co k;
    proxy_same = λ co k. reverse_proxies_same (stop co k) co;
  }
