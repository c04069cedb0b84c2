-- ===== src/Server/Ports.antt =====
-- The ports and names that internal/server/routes/docker/containers.go shows of a container.
pub mod Available
pub mod Entries
pub mod Shown
pub mod Tests
use kubedock.Base.{
  ℤ, Bool, true, false, ◌||◌, List, [], ◌∷◌, ◌++◌, Option, none, some, is_nil, any_of,
  if◌then◌else◌, map, Str, str_eq, int_eq_instance,
}
use kubedock.Base.Int.{is_neg, is_pos, int_eq}
use kubedock.Base.GoMap
use kubedock.Base.GoMap.{GoMap}
use kubedock.Model.Container.{Container}
use kubedock.Model.Container.Ports.{get_service_ports}
use kubedock.Server.World.{Config}

-- The closure `add` of getAvailablePorts: a negative source is a port that has none yet.
unfoldable pub add_available : GoMap ℤ ℤ → GoMap ℤ (List ℤ) → GoMap ℤ (List ℤ)
add_available [] ports = ports
add_available ((src, dst) ∷ prts) ports =
    let skipped = add_available prts ports in
    let added =
      add_available prts (GoMap.insert dst (GoMap.get_or dst [] ports ++ src ∷ []) ports) in
    if is_neg src then skipped else added

-- getAvailablePorts
unfoldable pub get_available_ports : Config → Container → GoMap ℤ (List ℤ)
unfolding add_available
get_available_ports cfg co =
    if cfg.port_forward || cfg.reverse_proxy
    then add_available co.mapped_ports (add_available co.host_ports [])
    else add_available (get_service_ports co) []

-- The map `done` of getNetworkSettingsPorts and getContainerPorts: each source once.
unfoldable pub once : List ℤ → List ℤ → List ℤ
once seen [] = []
once seen (src ∷ prts) =
    let skipped = once seen prts in
    let kept = once (src ∷ seen) prts in if any_of (int_eq src) seen then skipped else src ∷ kept

unfoldable pub once_each : GoMap ℤ (List ℤ) → GoMap ℤ (List ℤ)
unfolding once
once_each [] = []
once_each ((dst, prts) ∷ ports) = (dst, once [] prts) ∷ once_each ports

-- getNetworkSettingsPorts: for each port of the container the host ports, at its host address
unfoldable pub get_network_settings_ports : Config → Container → GoMap ℤ (List ℤ)
unfolding get_available_ports once_each
get_network_settings_ports cfg co =
    if is_nil co.host_ip then [] else once_each (get_available_ports cfg co)

-- The two loops of getContainerPorts: an entry for each source and port.
unfoldable pub entries : {E : Type 0} → (ℤ → E) → List ℤ → List E
entries entry [] = []
entries entry (src ∷ prts) = entry src ∷ entries entry prts

unfoldable pub list_each : {E : Type 0} → (ℤ → ℤ → E) → GoMap ℤ (List ℤ) → List E
unfolding once entries
list_each entry [] = []
list_each entry ((dst, prts) ∷ ports) = entries (entry dst) (once [] prts) ++ list_each entry ports

-- An entry of getContainerPorts; its type is "tcp".
pub record PortEntry : Type 0 where
  pub ip : Str
  pub private_port : ℤ
  pub public_port : Option ℤ

unfoldable pub port_entry : Str → ℤ → ℤ → PortEntry
port_entry ip dst src = record {
  ip = ip;
  private_port = dst;
  public_port = if is_pos src then some src else none;
}

-- getContainerPorts
unfoldable pub get_container_ports : Config → Container → List PortEntry
unfolding get_available_ports list_each port_entry
get_container_ports cfg co =
    if is_nil co.host_ip then [] else list_each (port_entry co.host_ip) (get_available_ports cfg co)

-- The keys of getConfigExposedPorts.
unfoldable pub get_config_exposed_ports : Config → Container → List ℤ
unfolding get_available_ports
get_config_exposed_ports cfg co =
    if is_nil co.host_ip then [] else map (λ e. e.0) (get_available_ports cfg co)

-- The aliases that getContainerNames adds.
unfoldable pub other_aliases : Str → List Str → List Str
other_aliases name [] = []
other_aliases name (alias ∷ more) =
    let rest = other_aliases name more in if str_eq alias name then rest else (b'/' ∷ alias) ∷ rest

-- getContainerNames
unfoldable pub get_container_names : Container → List Str
unfolding other_aliases
get_container_names co =
    let more = (b'/' ∷ co.id) ∷ (b'/' ∷ co.short_id) ∷ other_aliases co.name co.network_aliases in
    if is_nil co.name then more else (b'/' ∷ co.name) ∷ more
