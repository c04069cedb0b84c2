-- ===== src/Backend/Deploy.antt =====
-- internal/backend/deploy.go: the labels and annotations of what is deployed, and the state that a
-- pod is in. Pods come from the kubernetes client.
pub mod Labels
pub mod Ready
pub mod Tests
use kubedock.Base.{
  ℕ, ℤ, zero, suc, ◌≡◌, Bool, true, false, ◌&&◌, ◌||◌, not, List, [], ◌∷◌, Option, none, some,
  is_nil, ltb, if◌then◌else◌, Str, str_eq, str_eq_instance,
}
use kubedock.Base.GoMap
use kubedock.Base.GoMap.{GoMap}
use kubedock.Base.Int.{pos, int_eq}
use kubedock.Base.Text.{codes}
use kubedock.Model.Container.{Container}
use kubedock.Backend.Interface.{DeployState, pending, failed, running, completed}
use kubedock.Backend.Names.{to_kubernetes_key, to_kubernetes_value}

-- The loops `labels[k] = v`.
unfoldable pub add_each : GoMap Str Str → GoMap Str Str → GoMap Str Str
add_each [] labels = labels
add_each ((k, v) ∷ more) labels = add_each more (GoMap.insert k v labels)

-- The loop over the container's labels.
unfoldable pub add_container_labels : GoMap Str Str → GoMap Str Str → GoMap Str Str
add_container_labels [] labels = labels
add_container_labels ((k, v) ∷ more) labels =
    let kk = to_kubernetes_key k in
    let kv = to_kubernetes_value v in
    let skipped = add_container_labels more labels in
    let added = add_container_labels more (GoMap.insert kk kv labels) in
    if is_nil kk && not (is_nil k)
    then skipped
    else if is_nil kv && not (is_nil v)
    then skipped
    else added

-- config.DefaultLabels, config.SystemLabels and config.DefaultAnnotations
pub record Defaults : Type 0 where
  pub labels : GoMap Str Str
  pub system_labels : GoMap Str Str
  pub annotations : GoMap Str Str

-- getLabels
unfoldable pub get_labels : Defaults → GoMap Str Str → Container → GoMap Str Str
unfolding add_each add_container_labels
get_labels defaults labels co = GoMap.insert (codes "kubedock.containerid") co.short_id (
    add_each defaults.system_labels
      (add_container_labels co.labels (add_each defaults.labels labels)))

-- getAnnotations
unfoldable pub get_annotations : Defaults → GoMap Str Str → Container → GoMap Str Str
unfolding add_each
get_annotations defaults annotations co =
    GoMap.insert (codes "kubedock.containername") co.name
      (add_each co.labels (add_each defaults.annotations annotations))

-- getPodMatchLabels
unfoldable pub get_pod_match_labels : Container → GoMap Str Str
get_pod_match_labels co = (codes "kubedock.containerid", co.short_id) ∷ []

-- A terminated state of corev1: its reason and its exit code.
pub record Terminated : Type 0 where
  pub reason : Str
  pub exit_code : ℤ

pub record ContainerStatus : Type 0 where
  pub name : Str
  pub terminated : Option Terminated
  pub last_terminated : Option Terminated
  pub restart_count : ℕ
  pub waiting : Option Str
  pub is_running : Bool

pub record Pod : Type 0 where
  pub statuses : List ContainerStatus
  pub init_statuses : List ContainerStatus
  pub has_failed : Bool

unfoldable pub is_completed : Option Terminated → Bool
is_completed none = false
is_completed (some t) = str_eq t.reason (codes "Completed")

unfoldable pub has_exit_code : Option Terminated → Bool
has_exit_code none = false
has_exit_code (some t) = not (int_eq t.exit_code (pos 0))

unfoldable pub cannot_pull : Option Str → Bool
cannot_pull none = false
cannot_pull (some reason) = str_eq reason (codes "ImagePullBackOff")

-- The loop of GetContainerStatus; `none` is its end. The flag is the error.
unfoldable pub main_status : List ContainerStatus → Option (DeployState × Bool)
unfolding is_completed has_exit_code cannot_pull
main_status [] = none
main_status (s ∷ more) =
    let rest = main_status more in
    if not (str_eq s.name (codes "main"))
    then rest
    else if is_completed s.last_terminated || is_completed s.terminated
    then some (completed, false)
    else if has_exit_code s.terminated
    then some (failed, true)
    else if ltb 0 s.restart_count
    then some (failed, true)
    else if cannot_pull s.waiting
    then some (failed, true)
    else if s.is_running
    then some (running, false)
    else rest

-- GetContainerStatus of what Get returned; `none` is its error
unfoldable pub get_container_status : Option Pod → DeployState × Bool
unfolding main_status
get_container_status none = (failed, true)
get_container_status (some pod) = elim (main_status pod.statuses) [
  | some r ↦ r
  | none ↦ if pod.has_failed then (failed, true) else (pending, false)
]

-- status != DeployPending || err != nil, negated
unfoldable pub is_pending : DeployState × Bool → Bool
is_pending (pending, bad) = not bad
is_pending (failed, bad) = false
is_pending (running, bad) = false
is_pending (completed, bad) = false

-- waitReadyState: `poll n` is the pod that round n gets, `wait` is the number of rounds left.
unfoldable pub wait_ready_state : (ℕ → Option Pod) → ℕ → ℕ → DeployState × Bool
unfolding get_container_status is_pending
wait_ready_state poll n zero = (failed, true)
wait_ready_state poll n (suc wait) =
    let r = get_container_status (poll n) in
    let again = wait_ready_state poll (suc n) wait in if is_pending r then again else r
