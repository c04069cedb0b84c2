-- ===== src/Server/Libpod/Tests.antt =====
-- A container that podman's API creates, finds and deletes.
use kubedock.Util.StringId.{is_short_id}
use kubedock.Model.Container.Ports.{get_tcp_port, add_host_port}
use kubedock.Base.{
  ℕ, ◌≡◌, ◌⊎◌, refl, true, false, [], ◌∷◌, some, ok, str_eq_instance, str_eq, all_of, any_of,
}
use kubedock.Base.Int.{pos}
use kubedock.Base.Text.{codes, parse_int64, split}
use kubedock.Base.GoMap
use kubedock.Model.Container.{connect_network, Container}
use kubedock.Model.Database.{
  get_image_by_name, get_image, get_image_by_name_or_id, first_or_error, with_id, save_container,
  delete_container, id_index, get_container_by_name_or_id, get_network_by_name, get_container,
}
use kubedock.Model.Database.Lookup.{
  container_key, network_key, container_keys, network_keys, image_keys,
}
use kubedock.Model.Database.Indexes.{Indexes, indexes, indexes-IsMemDb, indexes-Indexed}
use kubedock.Model.Database.Tables.{MemDb}
use kubedock.Server.World.{World, Response, status}
use kubedock.Server.Create.Tests.{
  config, network_table, no_images, world, fresh_id, fresh_valid, fresh_short,
}
use kubedock.Server.Containers.Tests.{counting}
use kubedock.Server.Libpod.{container_delete, container_exists}
use kubedock.Server.Libpod.Create.{
  save_and_create, new_container, ContainerCreateRequest, container_create,
}
use kubedock.Server.Libpod.Life.{create-exists-delete}

abbrev request : ContainerCreateRequest
request = record {
  name = codes "db";
  image = codes "postgres";
  labels = [];
  entrypoint = [];
  command = [];
  env = (codes "A", codes "1") ∷ [];
  user = [];
  port_mappings = record { container_port = pos 5432; host_port = pos 0 } ∷ [];
  network = (codes "bridge", record { aliases = codes "DB" ∷ codes "db" ∷ [] }) ∷ [];
  mounts = record { source = codes "/a"; destination = codes "/b" } ∷ [];
  terminal = false;
  stdin = false;
}

abbrev tables : MemDb Container
tables = indexes container_keys

abbrev after : Response × World (Indexes Container) ℕ
after =
    container_create tables (indexes network_keys) (indexes image_keys) network_table no_images
      config fresh_id 7 (some request) [] world

create_answer : after.0 ≡ status 201
unfolding container_create new_container add_host_port get_tcp_port split parse_int64 str_eq codes
    get_network_by_name GoMap.lookup network_key save_and_create
create_answer = refl

abbrev gone : Response × World (Indexes Container) ℕ
gone = container_delete tables (counting true) config fresh_id 7 fresh_id after.1

delete_answer : gone.0 ≡ status 200
unfolding container_delete get_container_by_name_or_id get_container GoMap.lookup id_index
    is_short_id container_create new_container add_host_port get_tcp_port split parse_int64 str_eq
    codes get_network_by_name network_key save_and_create GoMap.has GoMap.insert all_of any_of
    delete_container save_container with_id container_key first_or_error connect_network
    get_image_by_name_or_id get_image get_image_by_name
delete_answer = refl

create-exists-delete_example :
    ((container_exists tables (counting true) config fresh_id 7 fresh_id after.1).0 ≡ status 204)
    × (((container_exists tables (counting true) config fresh_id 7 fresh_id gone.1).0 ≡ status 404)
        ⊎ ((other : Container) × (get_container tables fresh_id gone.1.table ≡ ok other)
            × (other.name ≡ fresh_id)))
create-exists-delete_example =
    create-exists-delete tables (indexes network_keys) (indexes image_keys) network_table no_images
      config fresh_id 7 (indexes-IsMemDb container_keys) (counting true) request [] world
      fresh_valid fresh_short create_answer (indexes-Indexed container_keys after.1.table)
      delete_answer
