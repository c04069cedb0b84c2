-- ===== src/Backend/Start/Outcomes.antt =====
-- The ways in which a start ends.
use kubedock.Base.{
  ◌≡◌, inl, inr, refl, sym, subst, ap, Bool, true, false, ◌&&◌, Option, none, some, Bool-cases,
  arith, str_eq_instance,
}
use kubedock.Model.Container.{Container}
use kubedock.Model.Container.PodName.{get_pod_name}
use kubedock.Model.Container.Volumes.{has_docker_sock_binding}
use kubedock.Backend.Interface.{DeployState, pending, failed, running, completed}
use kubedock.Backend.Deploy.{wait_ready_state}
use kubedock.Backend.Services.{CreateError, already_exists, other_error, create_services}
use kubedock.Backend.HostPorts.{map_container_tcp_ports}
use kubedock.Backend.Pod.{PodSpec, Instance, Libraries, Outcome, built, failure, panic}
use kubedock.Backend.Pod.Build.{build_pod}
use kubedock.Backend.Start.Answers.{IsUp, is_end, wait-is_end, end-IsUp, end_failed}
use kubedock.Backend.Start.{
  Kube, Started, returned, panicked, copy_step, handle_dind_completed, is_dropped, dind_end,
  services_end, ready_end, created_end, pod_end, start_steps, clean_up, start_container,
}

module _ {Q K : Type 0} (lib : Libraries Q) (inst : Instance Q) (kube : Kube Q K) where
  -- How startContainer ends: up; failed; or up, but with an error, since a service was refused.
  data Ends : Started K → Type 0 where
    up :
        (k : K) (co : Container) (state : DeployState)
        → IsUp state
        → Ends (returned k co state false)
    down : (k : K) (co : Container) → Ends (returned k co failed true)
    refused :
        (k k1 : K) (co : Container) (state : DeployState) (e : CreateError)
        → IsUp state
        → create_services kube.create_service inst.disable_services inst.defaults co k
          ≡ (k1, some e)
        → Ends (returned k1 co state true)
    crash : (k : K) → Ends (panicked k)

  -- How StartContainer ends. The pod is deleted last.
  pub data Outcomes : Started K → Type 0 where
    is_up :
        (k : K) (co : Container) (state : DeployState)
        → IsUp state
        → Outcomes (returned k co state false)
    is_gone :
        (k : K) (co : Container)
        → Outcomes (returned (kube.delete_pod (get_pod_name co) k) co failed true)
    is_left :
        (k k1 : K) (co : Container) (state : DeployState) (e : CreateError)
        → IsUp state
        → create_services kube.create_service inst.disable_services inst.defaults co k
          ≡ (k1, some e)
        → Outcomes (returned k1 co state true)
    is_crash : (k : K) → Outcomes (panicked k)

  Ends-at : (r r' : Started K) → r ≡ r' → Ends r' → Ends r
  Ends-at r r' e h = subst Ends (sym e) h

  dind_end-Ends :
      (state : DeployState) (co : Container) (k : K) (binds : Option Bool)
      → has_docker_sock_binding co ≡ binds
      → IsUp state
      → Ends (dind_end lib inst kube state co k)
  unfolding dind_end
  dind_end-Ends state co k none e h =
      Ends-at (dind_end lib inst kube state co k) (panicked k) (ground arith) (crash k)
  dind_end-Ends state co k (some binds) e h =
      let r = dind_end lib inst kube state co k in
      elim (Bool-cases (binds && handle_dind_completed lib inst kube co k)) [
        | inl b ↦ Ends-at r (returned k co failed true) (ground arith) (down k co)
        | inr b ↦ Ends-at r (returned k co state false) (ground arith) (up k co state h)
      ]

  services_end-Ends :
      (dup : Bool) (state : DeployState) (co : Container) (k : K) (e : Option CreateError)
      → (create_services kube.create_service inst.disable_services inst.defaults co k).1 ≡ e
      → IsUp state
      → Ends (services_end lib inst kube dup state co k)
  unfolding services_end
  services_end-Ends dup state co k none b h =
      let k1 = (create_services kube.create_service inst.disable_services inst.defaults co k).0 in
      Ends-at (services_end lib inst kube dup state co k) (dind_end lib inst kube state co k1)
        (ground arith) (dind_end-Ends state co k1 (has_docker_sock_binding co) refl h)
  services_end-Ends dup state co k (some x) b h =
      let k1 = (create_services kube.create_service inst.disable_services inst.defaults co k).0 in
      let r = services_end lib inst kube dup state co k in
      elim (Bool-cases (is_dropped lib inst kube dup x)) [
        | inl d ↦
            Ends-at r (dind_end lib inst kube state co k1) (ground arith)
              (dind_end-Ends state co k1 (has_docker_sock_binding co) refl h)
        | inr d ↦
            Ends-at r (returned k1 co state true) (ground arith)
              (refused k k1 co state x h (ap (λ o. (k1, o)) b))
      ]

  ready_end-Ends :
      (dup : Bool) (co : Container) (k : K) (state : DeployState) (bad : Bool)
      → wait_ready_state (kube.pod_at (get_pod_name co) k) 0 inst.time_out ≡ (state, bad)
      → Ends (ready_end lib inst kube dup co k)
  unfolding ready_end
  ready_end-Ends dup co k state true e =
      let h =
        subst (λ r. is_end r ≡ true) e
          (wait-is_end (kube.pod_at (get_pod_name co) k) 0 inst.time_out) in
      Ends-at (ready_end lib inst kube dup co k) (returned k co failed true)
        (ground (arith, end_failed state h)) (down k co)
  ready_end-Ends dup co k state false e =
      let h = end-IsUp state (
        subst (λ r. is_end r ≡ true) e
          (wait-is_end (kube.pod_at (get_pod_name co) k) 0 inst.time_out)) in
      let r = ready_end lib inst kube dup co k in
      let co1 = (map_container_tcp_ports kube.listen co).0 in
      elim (Bool-cases (map_container_tcp_ports kube.listen co).1) [
        | inl b ↦ Ends-at r (returned k co1 failed true) (ground arith) (down k co1)
        | inr b ↦ Ends-at r (services_end lib inst kube dup state co1 k) (ground arith) (
            services_end-Ends dup state co1 k
              (create_services kube.create_service inst.disable_services inst.defaults co1 k).1 refl
              h)
      ]

  created_end-Ends :
      (dup : Bool) (co : Container) (k : K) → Ends (created_end lib inst kube dup co k)
  unfolding created_end
  created_end-Ends dup co k =
      let r = created_end lib inst kube dup co k in
      let k1 = (copy_step lib inst kube co k).0 in
      let w = wait_ready_state (kube.pod_at (get_pod_name co) k1) 0 inst.time_out in
      elim (Bool-cases (copy_step lib inst kube co k).1) [
        | inl b ↦ Ends-at r (returned k1 co failed true) (ground arith) (down k1 co)
        | inr b ↦
            Ends-at r (ready_end lib inst kube dup co k1) (ground arith)
              (ready_end-Ends dup co k1 w.0 w.1 refl)
      ]

  pod_end-Ends :
      (pod : PodSpec Q) (co : Container) (k : K) (e : Option CreateError)
      → (kube.create_pod pod k).1 ≡ e
      → Ends (pod_end lib inst kube pod co k)
  unfolding pod_end
  pod_end-Ends pod co k none e =
      let k1 = (kube.create_pod pod k).0 in
      Ends-at (pod_end lib inst kube pod co k) (created_end lib inst kube false co k1)
        (ground arith) (created_end-Ends false co k1)
  pod_end-Ends pod co k (some already_exists) e =
      let k1 = (kube.create_pod pod k).0 in
      Ends-at (pod_end lib inst kube pod co k) (created_end lib inst kube true co k1) (ground arith)
        (created_end-Ends true co k1)
  pod_end-Ends pod co k (some other_error) e =
      let k1 = (kube.create_pod pod k).0 in
      Ends-at (pod_end lib inst kube pod co k) (returned k1 co failed true) (ground arith)
        (down k1 co)

  steps-Ends :
      (co : Container) (k : K) (r : Outcome Q)
      → (build_pod lib inst kube.create_config_map co k).1 ≡ r
      → Ends (start_steps lib inst kube co k)
  unfolding start_steps
  steps-Ends co k (built pod) e =
      let k1 = (build_pod lib inst kube.create_config_map co k).0 in
      Ends-at (start_steps lib inst kube co k) (pod_end lib inst kube pod co k1) (ground arith)
        (pod_end-Ends pod co k1 (kube.create_pod pod k1).1 refl)
  steps-Ends co k failure e =
      let k1 = (build_pod lib inst kube.create_config_map co k).0 in
      Ends-at (start_steps lib inst kube co k) (returned k1 co failed true) (ground arith)
        (down k1 co)
  steps-Ends co k panic e =
      let k1 = (build_pod lib inst kube.create_config_map co k).0 in
      Ends-at (start_steps lib inst kube co k) (panicked k1) (ground arith) (crash k1)

  kept_up :
      (k : K) (co : Container) (state : DeployState) (bad : Bool)
      → IsUp state
      → clean_up lib inst kube (returned k co state bad) ≡ returned k co state bad
  unfolding clean_up IsUp
  kept_up k co running bad h = refl
  kept_up k co completed bad h = refl
  kept_up k co failed bad h = absurd (ground arith)
  kept_up k co pending bad h = absurd (ground arith)

  cleaned : (r : Started K) → Ends r → Outcomes (clean_up lib inst kube r)
  unfolding clean_up
  cleaned _ (up k co state h) =
      subst Outcomes (sym (kept_up k co state false h)) (is_up k co state h)
  cleaned _ (down k co) = is_gone k co
  cleaned _ (refused k k1 co state e h c) =
      subst Outcomes (sym (kept_up k1 co state true h)) (is_left k k1 co state e h c)
  cleaned _ (crash k) = is_crash k

  -- StartContainer ends in one of four ways: without an error and with a container that is running
  -- or completed; with an error and the state failed, and then the pod of the container is deleted
  -- last; with an error because a service was refused, and then the container is running or
  -- completed and its pod is left; or in a panic.
  pub start_container-Outcomes :
      (co : Container) (k : K) → Outcomes (start_container lib inst kube co k)
  unfolding start_container
  start_container-Outcomes co k =
      cleaned (start_steps lib inst kube co k)
        (steps-Ends co k (build_pod lib inst kube.create_config_map co k).1 refl)
