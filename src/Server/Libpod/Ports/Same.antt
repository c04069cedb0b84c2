-- ===== src/Server/Libpod/Ports/Same.antt =====
-- podman's loops over the ports give what docker's give.
use kubedock.Base.{ℤ, ◌≡◌, refl, List, [], ◌∷◌, ◌++◌, arith, Str, int_eq_instance}
use kubedock.Base.GoMap
use kubedock.Base.GoMap.{GoMap}
use kubedock.Model.Container.{Container}
use kubedock.Model.Container.Ports.{get_service_ports}
use kubedock.Server.World.{Config}
use kubedock.Server.Ports
use kubedock.Server.Libpod.Ports.{
  add_available, get_available_ports, settings_sources, settings_each, get_network_settings_ports,
  info_entry, info_sources, info_each,
}

add_same :
    (prts : GoMap ℤ ℤ) (ports : GoMap ℤ (List ℤ))
    → add_available prts ports ≡ Ports.add_available prts ports
unfolding add_available Ports.add_available
add_same [] ports = refl
add_same ((src, dst) ∷ prts) ports = ground (
  arith,
  add_same prts ports,
  add_same prts (GoMap.insert dst (GoMap.get_or dst [] ports ++ src ∷ []) ports),
)

pub available_same :
    (cfg : Config) (co : Container) → get_available_ports cfg co ≡ Ports.get_available_ports cfg co
unfolding get_available_ports Ports.get_available_ports
available_same cfg co = ground (
  arith,
  add_same co.host_ports [],
  add_same co.mapped_ports (Ports.add_available co.host_ports []),
  add_same (get_service_ports co) [],
)

sources_same : (seen prts : List ℤ) → settings_sources seen prts ≡ Ports.once seen prts
unfolding settings_sources Ports.once
sources_same seen [] = refl
sources_same seen (src ∷ prts) =
    ground (arith, sources_same seen prts, sources_same (src ∷ seen) prts)

settings_each_same : (ports : GoMap ℤ (List ℤ)) → settings_each ports ≡ Ports.once_each ports
unfolding settings_each Ports.once_each
settings_each_same [] = refl
settings_each_same ((dst, prts) ∷ ports) =
    ground (arith, sources_same [] prts, settings_each_same ports)

pub settings_same :
    (cfg : Config) (co : Container)
    → get_network_settings_ports cfg co ≡ Ports.get_network_settings_ports cfg co
unfolding get_network_settings_ports Ports.get_network_settings_ports
settings_same cfg co =
    ground (arith, available_same cfg co, settings_each_same (Ports.get_available_ports cfg co))

info_sources_same :
    (ip : Str) (dst : ℤ) (seen prts : List ℤ)
    → info_sources ip dst seen prts ≡ Ports.entries (info_entry ip dst) (Ports.once seen prts)
unfolding info_sources Ports.entries Ports.once
info_sources_same ip dst seen [] = refl
info_sources_same ip dst seen (src ∷ prts) =
    ground (arith, info_sources_same ip dst seen prts, info_sources_same ip dst (src ∷ seen) prts)

pub info_each_same :
    (ip : Str) (ports : GoMap ℤ (List ℤ))
    → info_each ip ports ≡ Ports.list_each (info_entry ip) ports
unfolding info_each Ports.list_each
info_each_same ip [] = refl
info_each_same ip ((dst, prts) ∷ ports) =
    ground (arith, info_sources_same ip dst [] prts, info_each_same ip ports)
