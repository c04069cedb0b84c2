-- ===== src/Backend/Interface.antt =====
-- internal/backend/main.go: the interface that the API and the reaper use, over the state `K` of the
-- cluster. An operation that is given a container writes to it: it comes back beside the state.
use kubedock.Base.{ℕ, ◌≡◌, Bool, Option, Str}
use kubedock.Model.Container.{Container}

-- DeployState of internal/backend/deploy.go.
pub data DeployState : Type 0 where
  pending failed running completed : DeployState

-- A flag is the error of the call.
pub record Backend (K : Type 0) : Type 0 where
  pub start_container : Container → K → K × Container × DeployState × Bool
  pub create_port_forwards : Container → K → K × Container
  pub create_reverse_proxies : Container → K → K × Container
  pub get_pod_ip : Container → K → Option Str
  pub delete_container : Container → K → K × Bool
  pub delete_older_than : ℕ → K → K × Bool
  pub get_container_status : Container → K → DeployState × Bool
  -- false for an error, and then the channel is nil
  pub watch_delete_container : Container → K → Bool

-- The fields of a container that no operation of the backend writes.
pub record SameState (co co' : Container) : Type 0 where
  pub same_id : co'.id ≡ co.id
  pub same_short_id : co'.short_id ≡ co.short_id
  pub same_name : co'.name ≡ co.name
  pub same_running : co'.running ≡ co.running
  pub same_completed : co'.completed ≡ co.completed
  pub same_stopped : co'.stopped ≡ co.stopped
  pub same_killed : co'.killed ≡ co.killed

-- Starting, forwarding and proxying write ports and stop channels, and no state.
pub record IsBackend {K : Type 0} (be : Backend K) : Type 0 where
  pub start_same : (co : Container) (k : K) → SameState co (be.start_container co k).1
  pub forward_same : (co : Container) (k : K) → SameState co (be.create_port_forwards co k).1
  pub proxy_same : (co : Container) (k : K) → SameState co (be.create_reverse_proxies co k).1
