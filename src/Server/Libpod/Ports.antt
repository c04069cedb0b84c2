-- ===== src/Server/Libpod/Ports.antt =====
-- The ports that internal/server/routes/libpod/containers.go shows of a container.
pub mod Same
use kubedock.Base.{
  ℤ, Bool, ◌||◌, List, [], ◌∷◌, ◌++◌, is_nil, any_of, if◌then◌else◌, Str, int_eq_instance,
}
use kubedock.Base.Int.{is_neg, int_eq}
use kubedock.Base.GoMap
use kubedock.Base.GoMap.{GoMap}
use kubedock.Model.Container.{Container}
use kubedock.Model.Container.Ports.{get_service_ports}
use kubedock.Server.World.{Config}

-- The closure `add` of getAvailablePorts: a negative source is a port that has none yet.
unfoldable pub add_available : GoMap ℤ ℤ → GoMap ℤ (List ℤ) → GoMap ℤ (List ℤ)
add_available [] ports = ports
add_available ((src, dst) ∷ prts) ports =
    let skipped = add_available prts ports in
    let added =
      add_available prts (GoMap.insert dst (GoMap.get_or dst [] ports ++ src ∷ []) ports) in
    if is_neg src then skipped else added

-- getAvailablePorts
unfoldable pub get_available_ports : Config → Container → GoMap ℤ (List ℤ)
unfolding add_available
get_available_ports cfg co =
    if cfg.port_forward || cfg.reverse_proxy
    then add_available co.mapped_ports (add_available co.host_ports [])
    else add_available (get_service_ports co) []

-- The inner loop of getNetworkSettingsPorts; `seen` is the map `done`.
unfoldable pub settings_sources : List ℤ → List ℤ → List ℤ
settings_sources seen [] = []
settings_sources seen (src ∷ prts) =
    let skipped = settings_sources seen prts in
    let kept = settings_sources (src ∷ seen) prts in
    if any_of (int_eq src) seen then skipped else src ∷ kept

unfoldable pub settings_each : GoMap ℤ (List ℤ) → GoMap ℤ (List ℤ)
unfolding settings_sources
settings_each [] = []
settings_each ((dst, prts) ∷ ports) = (dst, settings_sources [] prts) ∷ settings_each ports

-- getNetworkSettingsPorts: for each port of the container the host ports, at its host address
unfoldable pub get_network_settings_ports : Config → Container → GoMap ℤ (List ℤ)
unfolding get_available_ports settings_each
get_network_settings_ports cfg co =
    if is_nil co.host_ip then [] else settings_each (get_available_ports cfg co)

-- An entry of getContainerInfoPorts; its protocol is "TCP".
pub record InfoEntry : Type 0 where
  pub host_ip : Str
  pub host_port : ℤ
  pub container_port : ℤ

unfoldable pub info_entry : Str → ℤ → ℤ → InfoEntry
info_entry ip dst src = record { host_ip = ip; host_port = src; container_port = dst }

-- The inner loop of getContainerInfoPorts.
unfoldable pub info_sources : Str → ℤ → List ℤ → List ℤ → List InfoEntry
unfolding info_entry
info_sources ip dst seen [] = []
info_sources ip dst seen (src ∷ prts) =
    let skipped = info_sources ip dst seen prts in
    let kept = info_sources ip dst (src ∷ seen) prts in
    if any_of (int_eq src) seen then skipped else info_entry ip dst src ∷ kept

unfoldable pub info_each : Str → GoMap ℤ (List ℤ) → List InfoEntry
unfolding info_sources
info_each ip [] = []
info_each ip ((dst, prts) ∷ ports) = info_sources ip dst [] prts ++ info_each ip ports

-- getContainerInfoPorts
unfoldable pub get_container_info_ports : Config → Container → List InfoEntry
unfolding get_available_ports info_each
get_container_info_ports cfg co =
    if is_nil co.host_ip then [] else info_each co.host_ip (get_available_ports cfg co)
