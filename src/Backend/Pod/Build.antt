-- ===== src/Backend/Pod/Build.antt =====
-- startContainer of internal/backend/deploy.go up to the create of the pod.
use kubedock.Base.{
  ℕ, ℤ, suc, true, ◌&&◌, not, List, [], ◌∷◌, ◌++◌, Option, none, some, is_nil, if◌then◌else◌, ok,
  err, Str, str_eq_instance,
}
use kubedock.Base.GoMap
use kubedock.Base.GoMap.{GoMap}
use kubedock.Base.Int.{pos}
use kubedock.Base.Text.{codes}
use kubedock.Base.Text.Decimal.{sprint}
use kubedock.Model.Container.{Container, has_volumes, has_pre_archives}
use kubedock.Model.Container.Settings.{
  PullPolicy, Resources, SecurityContext, get_env_var, get_image_pull_policy,
  get_resource_requirements, get_node_selector, get_service_account_name,
  get_active_deadline_seconds, get_pod_security_context,
}
use kubedock.Model.Container.PodName.{get_pod_name}
use kubedock.Model.Container.Volumes.{has_docker_sock_binding}
use kubedock.Backend.Deploy.{get_labels, get_annotations}
use kubedock.Backend.Services.{get_container_ports}
use kubedock.Backend.Pod.{
  PodContainer, PodSpec, ConfigMap, Instance, Libraries, Outcome, built, failure, panic,
}
use kubedock.Backend.Pod.Steps.{add_volumes, add_pre_archives, add_dind_sidecar}

-- annotations[fmt.Sprintf(prefix+"%d", i)] = text for each text
unfoldable pub number_each : Str → ℕ → List Str → GoMap Str Str → GoMap Str Str
number_each prefix i [] annotations = annotations
number_each prefix i (text ∷ more) annotations =
    number_each prefix (suc i) more (GoMap.insert (prefix ++ sprint (pos i)) text annotations)

unfoldable pub network_ids : GoMap Str (Unit {0}) → List Str
network_ids [] = []
network_ids ((id, u) ∷ more) = id ∷ network_ids more

-- The annotations of the pod.
unfoldable pub pod_annotations : Container → GoMap Str Str → GoMap Str Str
unfolding number_each network_ids
pod_annotations co annotations =
    let alias = codes "kubedock.hostalias/" in
    let first = if is_nil co.hostname then get_pod_name co else co.hostname in
    number_each (codes "kubedock.network/") 0 (network_ids co.networks)
      (number_each alias 1 co.network_aliases (GoMap.insert (alias ++ b'0' ∷ []) first annotations))

module _ {Q K : Type 0} (lib : Libraries Q) (inst : Instance Q)
    (create : ConfigMap → K → K × Option Str) where
  -- The container "main"; its mounts are those of the template.
  unfoldable pub main_container : Container → PullPolicy → Resources Q → PodContainer Q
  main_container co pulpol reqlimits = record (inst.container_template) {
    image = co.image;
    name = codes "main";
    command = co.entrypoint;
    args = co.cmd;
    env = get_env_var co;
    ports = get_container_ports co;
    pull_policy = pulpol;
    tty = co.tty;
    stdin = co.open_stdin;
    resources = reqlimits;
  }

  -- The pod before its volumes.
  unfoldable pub plain_pod :
      Container → PodContainer Q → GoMap Str Str → Option ℤ → Option SecurityContext → PodSpec Q
  unfolding pod_annotations
  plain_pod co main node_sel ads seccontext =
      let tmpl = inst.pod_template in
      record tmpl {
        name = get_pod_name co;
        labels = get_labels inst.defaults tmpl.labels co;
        annotations = pod_annotations co (get_annotations inst.defaults tmpl.annotations co);
        node_selector = node_sel;
        containers = main ∷ [];
        hostname = if is_nil co.hostname then tmpl.hostname else co.hostname;
        service_account_name = get_service_account_name co tmpl.service_account_name;
        never_restarts = true;
        active_deadline_seconds = elim ads [
          | none ↦ tmpl.active_deadline_seconds
          | some n ↦ some n
        ];
        security_context = seccontext;
        image_pull_secrets = tmpl.image_pull_secrets ++ inst.image_pull_secrets;
      }

  -- The settings, in the order in which they are read; none is the first error.
  unfoldable pub configured_pod : Container → Option (PodSpec Q)
  unfolding main_container plain_pod
  configured_pod co = elim (get_image_pull_policy co) [
    | err e ↦ none
    | ok pulpol ↦
        elim (get_resource_requirements lib.parse_quantity co lib.order
          inst.container_template.resources) [
            | err e ↦ none
            | ok reqlimits ↦ elim (get_node_selector co inst.pod_template.node_selector) [
              | err e ↦ none
              | ok node_sel ↦ elim (get_active_deadline_seconds co) [
                | err e ↦ none
                | ok ads ↦ elim (get_pod_security_context co inst.pod_template.security_context) [
                  | err e ↦ none
                  | ok seccontext ↦
                      some
                        (plain_pod co (main_container co pulpol reqlimits) node_sel ads seccontext)
                ]
              ]
            ]
          ]
  ]

  -- One of the three steps that change the pod.
  unfoldable pub then_pod : K × Outcome Q → (PodSpec Q → K → K × Outcome Q) → K × Outcome Q
  then_pod (k, built pod) f = f pod k
  then_pod (k, failure) f = (k, failure)
  then_pod (k, panic) f = (k, panic)

  unfoldable pub volumes_step : Container → PodSpec Q → K → K × Outcome Q
  volumes_step co pod k =
      if has_volumes co then add_volumes lib inst create co pod k else (k, built pod)

  unfoldable pub archives_step : Container → PodSpec Q → K → K × Outcome Q
  archives_step co pod k =
      if has_pre_archives co then add_pre_archives lib inst create co pod k else (k, built pod)

  unfoldable pub dind_step : Container → PodSpec Q → K → K × Outcome Q
  dind_step co pod k = elim (has_docker_sock_binding co) [
    | none ↦ (k, panic)
    | some binds ↦
        if binds && not inst.disable_dind
        then (k, add_dind_sidecar lib inst create co pod)
        else (k, built pod)
  ]

  -- The pod that is created.
  unfoldable pub build_pod : Container → K → K × Outcome Q
  build_pod co k = elim (configured_pod co) [
    | none ↦ (k, failure)
    | some pod ↦
        then_pod (then_pod (volumes_step co pod k) (λ p k1. archives_step co p k1))
          (λ p k1. dind_step co p k1)
  ]
