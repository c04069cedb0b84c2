-- ===== src/Server/Containers/Tests.antt =====
-- A server with one container, on a cluster that counts what it starts and deletes.
use kubedock.Base.{
  ℕ, ◌+◌, ◌≡◌, ◌≢◌, refl, Bool, true, false, [], ◌∷◌, some, ok, Str, replicate, arith, str_eq,
  all_of, any_of,
}
use kubedock.Base.Text.{codes, to_lower, parse_int64, split}
use kubedock.Base.GoMap
use kubedock.Base.Int.{pos}
use kubedock.Base.GoMap.{GoMap}
use kubedock.Util.StringId.{validate_id, is_short_id}
use kubedock.Model.Container.{Container, blank, has_volumes, has_pre_archives, map_port}
use kubedock.Model.Container.Ports.{get_image_tcp_ports, get_container_tcp_ports, get_service_ports}
use kubedock.Model.Database.{
  get_container, get_container_by_name, get_container_by_name_or_id, save_container,
  delete_container, with_id, id_index,
}
use kubedock.Model.Database.Tables.{by_id, by_short_id, by_name, MemDb, IsMemDb}
use kubedock.Model.Database.Lookup.{network_keys, image_keys, container_key, container_keys}
use kubedock.Model.Database.Indexes.{Indexes, indexes, indexes-IsMemDb}
use kubedock.Backend.Interface.{running, Backend}
use kubedock.Server.World.{
  Config, World, status, publish, save, signal_all, set_started, start_container,
}
use kubedock.Server.Containers.{
  container_start, container_stop, container_rename, container_delete, or_404, stop_found,
  save_and_die, delete_if_live, set_stopped,
}
use kubedock.Server.Containers.Coherent.{
  IsCoherent, AllCoherent, idle-IsCoherent, insert-AllCoherent,
}
use kubedock.Backend.Start
use kubedock.Backend.Start.{pod_end, created_end, copy_step, ready_end, services_end}
use kubedock.Model.Container.Volumes.{get_volumes, has_docker_sock_binding}
use kubedock.Model.Container.Settings.{
  get_pod_security_context, get_active_deadline_seconds, get_node_selector,
  get_resource_requirements, get_image_pull_policy,
}
use kubedock.Backend.Pod.Build.{
  dind_step, archives_step, volumes_step, then_pod, configured_pod, build_pod,
}
use kubedock.Backend.Deploy.{wait_ready_state}
use kubedock.Backend.Services.{get_services, create_services}
use kubedock.Backend.HostPorts.{map_container_tcp_ports}
use kubedock.Backend.Pod.Tests.{lib, inst}
use kubedock.Backend.Start.Tests.{kube}
use kubedock.Backend.Start.Served.{served, served-IsBackend}
use kubedock.Server.Containers.Requests.{starts, done, then_step}
use kubedock.Server.Containers.Steps.{Steps-IsCoherent}

-- The cluster is the number of its changes; its watches succeed or fail.
abbrev pub counting : Bool → Backend ℕ
counting watches = record {
  start_container = λ co k. (k + 1, co, running, false);
  create_port_forwards = λ co k. (k, co);
  create_reverse_proxies = λ co k. (k, co);
  get_pod_ip = λ co k. some (codes "10.0.0.1");
  delete_container = λ co k. (k + 1, false);
  delete_older_than = λ t k. (k, false);
  get_container_status = λ co k. (running, false);
  watch_delete_container = λ co k. watches;
}

abbrev pub config : Config
config = record {
  inspector = false;
  port_forward = false;
  reverse_proxy = false;
  request_cpu = [];
  request_memory = [];
  runas_user = [];
  pull_policy = codes "ifnotpresent";
  pre_archive = false;
  service_account = codes "default";
  active_deadline_seconds = pos 3600;
  name_prefix = codes "kubedock";
  node_selector = [];
  ignore_container_memory = false;
}

abbrev pub full_id : Str
full_id = replicate 64 b'a'

pub full_id-valid : validate_id full_id ≡ ok tt
unfolding validate_id all_of
full_id-valid = refl

abbrev pub redis : Container
redis = record blank {
  id = full_id;
  short_id = replicate 12 b'a';
  name = codes "redis";
  image = codes "redis:7";
}

abbrev empty : Indexes Container
empty = record { ids = []; short_ids = []; names = [] }

abbrev pub tables : MemDb Container
tables = indexes container_keys

abbrev pub laws : IsMemDb container_keys tables
laws = indexes-IsMemDb container_keys

abbrev holding : Container → Indexes Container
holding co = record {
  ids = (co.id, co) ∷ [];
  short_ids = (co.short_id, co) ∷ [];
  names = (co.name, co) ∷ [];
}

-- the server with a container
abbrev pub world : Container → World (Indexes Container) ℕ
world co = record { table = holding co; cluster = 0; events = []; signalled = [] }

redis_found : get_container tables full_id (world redis).table ≡ ok redis
unfolding get_container GoMap.lookup id_index is_short_id str_eq container_key
redis_found = refl

redis_found_too : get_container_by_name_or_id tables full_id (world redis).table ≡ ok redis
unfolding get_container_by_name_or_id get_container GoMap.lookup id_index is_short_id str_eq
    container_key
redis_found_too = refl

started_answer :
    (container_start tables (counting true) config full_id 7 full_id (world redis)).0 ≡ status 204
unfolding container_start get_container GoMap.lookup id_index is_short_id str_eq container_key
    start_container get_service_ports get_container_tcp_ports get_image_tcp_ports
started_answer = refl

abbrev running_redis : Container
running_redis = set_started running (record redis { host_ip = codes "0.0.0.0" })

running_is_running : running_redis.running ≡ true
unfolding set_started
running_is_running = refl

empty-AllCoherent : AllCoherent tables empty
unfolding AllCoherent IsCoherent GoMap.lookup
empty-AllCoherent by_id k co h = absurd (ground arith)
empty-AllCoherent by_short_id k co h = absurd (ground arith)
empty-AllCoherent by_name k co h = absurd (ground arith)

inserted : tables.insert redis empty ≡ ok (holding redis)
unfolding GoMap.insert container_key codes
inserted = refl

world-AllCoherent : AllCoherent tables (world redis).table
world-AllCoherent =
    insert-AllCoherent tables laws redis empty (holding redis) (idle-IsCoherent redis refl)
      empty-AllCoherent inserted

-- the backend whose StartContainer is the modelled one
abbrev deploying : Backend ℕ
deploying = served lib inst kube (λ co k. k) (counting true)

abbrev deployed_world : World (Indexes Container) ℕ
deployed_world = (container_start tables deploying config full_id 7 full_id (world redis)).1

deployed_found : get_container_by_name_or_id tables full_id deployed_world.table ≡ ok running_redis
unfolding get_container_by_name_or_id get_container GoMap.lookup id_index is_short_id
    container_start str_eq container_key start_container get_service_ports get_container_tcp_ports
    get_image_tcp_ports publish GoMap.insert served Start.start_container build_pod configured_pod
    get_image_pull_policy GoMap.get_or get_resource_requirements get_node_selector
    get_active_deadline_seconds get_pod_security_context then_pod volumes_step has_volumes
    archives_step has_pre_archives dind_step has_docker_sock_binding get_volumes any_of pod_end
    created_end copy_step ready_end wait_ready_state codes map_container_tcp_ports split parse_int64
    services_end create_services get_services map_port to_lower Start.dind_end
deployed_found = refl

Steps-IsCoherent_example :
    (running_redis.completed ≡ false)
    × (running_redis.stopped ≡ false)
    × (running_redis.killed ≡ false)
Steps-IsCoherent_example =
    Steps-IsCoherent tables deploying config (indexes network_keys) (indexes image_keys) laws
      (served-IsBackend lib inst kube (λ co k. k) (counting true)) (world redis) deployed_world
      full_id running_redis
      (then_step (world redis) deployed_world deployed_world
        (starts full_id 7 full_id (world redis)) (done deployed_world))
      world-AllCoherent deployed_found running_is_running

stopped_answer :
    (container_stop tables (counting true) config full_id 7 full_id (world redis)).0 ≡ status 204
unfolding container_stop or_404 stop_found save_and_die save save_container with_id delete_if_live
    signal_all set_stopped publish get_container GoMap.lookup id_index is_short_id str_eq
    container_key
stopped_answer = refl

abbrev stopped_world : World (Indexes Container) ℕ
stopped_world = (container_stop tables (counting true) config full_id 7 full_id (world redis)).1

stopped_saved :
    (save tables
      (counting false)
      config
      full_id
      7
      (set_stopped (signal_all redis (world redis)).0)
      (world redis)).1
    ≡ false
unfolding save
stopped_saved = refl

delete_answer :
    (container_delete tables (counting true) config full_id 7 full_id (world redis)).0 ≡ status 204
unfolding container_delete get_container_by_name_or_id get_container GoMap.lookup id_index
    is_short_id str_eq container_key delete_container
delete_answer = refl

abbrev deleted_world : World (Indexes Container) ℕ
deleted_world = (container_delete tables (counting true) config full_id 7 full_id (world redis)).1

rename_answer :
    (container_rename tables
      (counting true)
      config
      full_id
      7
      full_id
      (codes "cache")
      (world redis)).0
    ≡ status 204
unfolding container_rename get_container_by_name_or_id get_container GoMap.lookup id_index
    is_short_id str_eq container_key get_container_by_name codes any_of save
rename_answer = refl

cache_named : codes "cache" ≢ []
unfolding codes
cache_named h = cc

abbrev renamed_world : World (Indexes Container) ℕ
renamed_world =
    (container_rename tables (counting true) config full_id 7 full_id (codes "cache")
      (world redis)).1
