-- ===== src/Server/Ports/Tests.antt =====
-- A container with a random and a mapped port.
use kubedock.Base.{◌≡◌, refl, true, false, ◌||◌, [], ◌∷◌, is_nil, any_of, int_eq_instance}
use kubedock.Base.Int.{pos, negsuc}
use kubedock.Base.Text.{codes}
use kubedock.Model.Container.{Container, blank}
use kubedock.Server.World.{Config}
use kubedock.Server.Ports.{get_network_settings_ports, get_container_ports}
use kubedock.Server.Ports.Available.{lists, sends, get_network_settings_ports_lem}
use kubedock.Server.Libpod.Ports.{get_container_info_ports}
use kubedock.Server.Ports.Shown.{shows, shows_info, get_container_ports_lem}

abbrev config : Config
config = record {
  inspector = false;
  port_forward = true;
  reverse_proxy = false;
  request_cpu = [];
  request_memory = [];
  runas_user = [];
  pull_policy = codes "ifnotpresent";
  pre_archive = false;
  service_account = codes "default";
  active_deadline_seconds = pos 60;
  name_prefix = codes "kubedock";
  node_selector = [];
  ignore_container_memory = false;
}

abbrev redis : Container
redis = record blank {
  host_ip = codes "0.0.0.0";
  host_ports = (negsuc 6378, pos 6379) ∷ [];
  mapped_ports = (pos 33333, pos 6379) ∷ [];
}

has_address : is_nil redis.host_ip ≡ false
unfolding codes
has_address = refl

get_network_settings_ports_lem_example :
    lists (pos 33333) (pos 6379) (get_network_settings_ports config redis) ≡ (
      sends (pos 33333) (pos 6379) redis.host_ports
      || sends (pos 33333) (pos 6379) redis.mapped_ports)
get_network_settings_ports_lem_example =
    get_network_settings_ports_lem config redis (pos 33333) (pos 6379) has_address

get_container_ports_lem_example :
    (any_of (shows (pos 33333) (pos 6379)) (get_container_ports config redis)
      ≡ lists (pos 33333) (pos 6379) (get_network_settings_ports config redis))
    × (any_of (shows_info (pos 33333) (pos 6379)) (get_container_info_ports config redis)
        ≡ lists (pos 33333) (pos 6379) (get_network_settings_ports config redis))
get_container_ports_lem_example = get_container_ports_lem config redis (pos 33333) (pos 6379)
