-- ===== src/Backend/HostPorts.antt =====
-- MapContainerTCPPorts of internal/backend/util.go, and portForward and reverseProxy of
-- internal/backend/deploy.go: the ports of the host that lead to a container.
pub mod Mapped
pub mod Tests
use kubedock.Base.{
  ℕ, ℤ, suc, Bool, true, false, ◌||◌, ◌&&◌, List, [], ◌∷◌, ◌++◌, Option, none, some, any_of,
  if◌then◌else◌,
}
use kubedock.Base.GoMap.{GoMap}
use kubedock.Base.Int.{pos, is_pos, is_neg, int_eq}
use kubedock.Model.Container.{Container, map_port, add_stop_channel}
use kubedock.Model.Container.Ports.{get_container_tcp_ports}

-- The two inner loops: the port is bound explicitly, or mapped already.
unfoldable pub is_bound : ℤ → Container → Bool
is_bound pp co =
    any_of (λ e. is_pos e.0 && int_eq e.1 pp) co.host_ports
    || any_of (λ e. int_eq e.1 pp) co.mapped_ports

-- `listen n` is the port that the n-th call of ListenTCP takes on the host, or none for an error;
-- the listeners are open until the end. The flag is the error.
unfoldable pub map_each : (ℕ → Option ℕ) → ℕ → List ℤ → Container → Container × Bool
unfolding is_bound
map_each listen n [] co = (co, false)
map_each listen n (pp ∷ more) co =
    let skipped = map_each listen n more co in
    if is_bound pp co then skipped else (elim (listen n) [
      | none ↦ (co, true)
      | some port ↦ map_each listen (suc n) more (map_port co (pos port) pp)
    ])

-- MapContainerTCPPorts
unfoldable pub map_container_tcp_ports : (ℕ → Option ℕ) → Container → Container × Bool
unfolding map_each
map_container_tcp_ports listen co = map_each listen 0 (get_container_tcp_ports co) co

-- The loops of portForward and of reverseProxy: a stop channel, numbered from `stop` on, for each
-- port that is started.
unfoldable pub forward_each : GoMap ℤ ℤ → ℕ → Container → Container × List (ℤ × ℤ)
unfolding add_stop_channel
forward_each [] stop co = (co, [])
forward_each ((src, dst) ∷ more) stop co =
    let skipped = forward_each more stop co in
    let (co', started) = forward_each more (suc stop) (add_stop_channel co stop) in
    if is_neg src then skipped else (co', (src, dst) ∷ started)
