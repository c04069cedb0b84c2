-- ===== src/Server/Networks/Tests.antt =====
-- One container and one network.
use kubedock.Base.{
  any_of, ◌≡◌, refl, str_eq_instance, true, false, [], ◌∷◌, some, ok, Str, replicate, str_eq,
}
use kubedock.Base.Text.{codes}
use kubedock.Base.GoMap
use kubedock.Util.StringId.{is_short_id}
use kubedock.Model.Container.{Container, blank}
use kubedock.Model.Records.{Network, blank_network}
use kubedock.Model.Database.{
  get_container, get_network_by_name, id_index, get_network, get_network_by_name_or_id,
  get_containers,
}
use kubedock.Model.Database.Tables.{MemDb}
use kubedock.Model.Database.Lookup.{container_key, network_key, container_keys, network_keys}
use kubedock.Model.Database.Indexes.{Indexes, indexes, indexes-IsMemDb}
use kubedock.Server.Networks.{Tables, networks_connect, networks_delete, networks_prune}
use kubedock.Server.Networks.Attached.{is_attached, networks_keep_attached}
use kubedock.Server.Networks.Inspect.{NetworkInfo, networks_info}
use kubedock.Server.Networks.Connected.{networks_connect-info}

abbrev network_id : Str
network_id = replicate 64 b'e'

abbrev container_id : Str
container_id = replicate 64 b'a'

abbrev tests : Network
tests = record blank_network { id = network_id; short_id = replicate 12 b'e'; name = codes "tests" }

abbrev redis : Container
redis = record blank { id = container_id; short_id = replicate 12 b'a'; name = codes "redis" }

abbrev attached : Container
attached = record redis { networks = (network_id, tt) ∷ [] }

abbrev containers : MemDb Container
containers = indexes container_keys

abbrev networks : MemDb Network
networks = indexes network_keys

abbrev network_table : Indexes Network
network_table = record {
  ids = (tests.id, tests) ∷ [];
  short_ids = (tests.short_id, tests) ∷ [];
  names = (tests.name, tests) ∷ [];
}

abbrev holding : Container → Tables (Indexes Container) (Indexes Network)
holding co = record {
  containers = record {
    ids = (co.id, co) ∷ [];
    short_ids = (co.short_id, co) ∷ [];
    names = (co.name, co) ∷ [];
  };
  networks = network_table;
}

full : is_short_id network_id ≡ false
unfolding is_short_id
full = refl

in_use : is_attached network_id (get_containers containers (holding attached).containers) ≡ true
unfolding is_attached any_of get_containers GoMap.has str_eq
in_use = refl

tests_found : get_network_by_name_or_id networks (codes "tests") network_table ≡ ok tests
unfolding get_network_by_name_or_id get_network GoMap.lookup id_index is_short_id codes str_eq
    get_network_by_name network_key
tests_found = refl

redis_found : get_container containers container_id (holding redis).containers ≡ ok redis
unfolding get_container GoMap.lookup id_index is_short_id str_eq container_key
redis_found = refl

connect_answer :
    (networks_connect containers networks [] 0
      (some (container_id, codes "db" ∷ []))
      (codes "tests")
      (holding redis)).0
    ≡ 201
unfolding networks_connect get_network_by_name_or_id get_network GoMap.lookup id_index is_short_id
    codes str_eq get_network_by_name network_key get_container container_key
connect_answer = refl

networks_keep_attached_example :
    (get_network networks network_id
        (networks_delete containers networks [] 0 (codes "tests") (holding attached)).1.networks
      ≡ get_network networks network_id network_table)
    × (get_network networks network_id
          (networks_prune containers networks [] 0 (holding attached)).2.networks
        ≡ get_network networks network_id network_table)
networks_keep_attached_example =
    networks_keep_attached containers networks [] 0 (indexes-IsMemDb network_keys) network_id
      (codes "tests") (holding attached) full in_use

abbrev connected_state : Tables (Indexes Container) (Indexes Network)
connected_state =
    (networks_connect containers networks [] 0 (some (container_id, codes "db" ∷ []))
      (codes "tests") (holding redis)).1

networks_connect-info_example :
    (info : NetworkInfo) × (networks_info containers networks (codes "tests") connected_state
      ≡ (200, some info))
    × (info.name ≡ codes "tests")
    × (GoMap.has container_id info.containers ≡ true)
networks_connect-info_example =
    networks_connect-info containers networks [] 0 (indexes-IsMemDb network_keys)
      (indexes-IsMemDb container_keys) tests redis (codes "tests") container_id (codes "db" ∷ [])
      (holding redis) tests_found redis_found refl connect_answer
