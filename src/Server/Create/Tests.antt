-- ===== src/Server/Create/Tests.antt =====
-- A request for a container, with a network called "bridge".
use kubedock.Model.Container.Ports.{get_tcp_port, add_host_port}
use kubedock.Base.{
  str_eq_instance, all_of, ℕ, ◌≡◌, refl, true, false, [], ◌∷◌, some, ok, Str, replicate, str_eq,
}
use kubedock.Base.Int.{pos}
use kubedock.Base.Text.{parse_int64, split, codes}
use kubedock.Base.GoMap
use kubedock.Util.StringId.{validate_id, is_short_id, truncate_id}
use kubedock.Model.Label
use kubedock.Model.Container.{Container}
use kubedock.Model.Records.{Network, Image, blank_network}
use kubedock.Model.Database.{
  get_network_by_name, get_image_by_name, id_index, get_image, get_image_by_name_or_id,
}
use kubedock.Model.Database.Lookup.{image_keys, network_key, container_keys, network_keys}
use kubedock.Model.Database.Indexes.{Indexes, indexes}
use kubedock.Server.World.{Config, World, Response, status}
use kubedock.Server.Create.{ContainerCreateRequest, container_create}

abbrev pub config : Config
config = record {
  inspector = false;
  port_forward = false;
  reverse_proxy = false;
  request_cpu = [];
  request_memory = [];
  runas_user = codes "1000";
  pull_policy = codes "ifnotpresent";
  pre_archive = false;
  service_account = codes "default";
  active_deadline_seconds = pos 60;
  name_prefix = codes "kubedock";
  node_selector = [];
  ignore_container_memory = false;
}

abbrev pub request : ContainerCreateRequest
request = record {
  name = codes "redis";
  hostname = [];
  image = codes "redis";
  exposed_ports = (codes "6379/tcp", tt) ∷ [];
  labels = (Label.service_account, codes "admin") ∷ [];
  entrypoint = [];
  cmd = [];
  env = [];
  user = [];
  host_config = record {
    binds = [];
    mounts = [];
    port_bindings = (codes "6379/tcp", codes "0" ∷ []) ∷ [];
    memory = pos 0;
    nano_cpus = pos 0;
    network_mode = [];
  };
  endpoints_config = [];
  tty = false;
  open_stdin = false;
}

abbrev pub bridge : Network
bridge = record blank_network {
  id = replicate 64 b'e';
  short_id = replicate 12 b'e';
  name = codes "bridge";
}

abbrev pub network_table : Indexes Network
network_table = record {
  ids = (bridge.id, bridge) ∷ [];
  short_ids = (bridge.short_id, bridge) ∷ [];
  names = (bridge.name, bridge) ∷ [];
}

abbrev pub no_images : Indexes Image
no_images = record { ids = []; short_ids = []; names = [] }

abbrev pub no_containers : Indexes Container
no_containers = record { ids = []; short_ids = []; names = [] }

abbrev pub world : World (Indexes Container) ℕ
world = record { table = no_containers; cluster = 0; events = []; signalled = [] }

abbrev pub fresh_id : Str
fresh_id = replicate 64 b'a'

pub fresh_valid : validate_id fresh_id ≡ ok tt
unfolding validate_id all_of
fresh_valid = refl

pub fresh_short : is_short_id (truncate_id fresh_id) ≡ true
unfolding is_short_id truncate_id all_of
fresh_short = refl

abbrev pub after : Response × World (Indexes Container) ℕ
after =
    container_create (indexes container_keys) (indexes network_keys) (indexes image_keys)
      network_table no_images config fresh_id 7 (some request) [] world

pub create_answer : after.0 ≡ status 201
unfolding container_create add_host_port get_tcp_port split codes parse_int64 str_eq
    get_image_by_name_or_id get_image GoMap.lookup id_index is_short_id get_image_by_name
    get_network_by_name network_key
create_answer = refl
