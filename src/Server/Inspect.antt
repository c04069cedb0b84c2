-- ===== src/Server/Inspect.antt =====
-- internal/server/routes/docker/containers.go: what ContainerInfo and ContainerList show. The
-- addresses "127.0.0.1" and the constants of the JSON are left out.
pub mod Listed
pub mod Tests
use kubedock.Base.{
  ℕ, ℤ, Bool, true, false, List, [], ◌∷◌, Option, none, some, if◌then◌else◌, Result, ok, err, Str,
  str_eq_instance,
}
use kubedock.Base.GoMap
use kubedock.Base.GoMap.{GoMap}
use kubedock.Model.Error.{Error}
use kubedock.Model.Container.{Container, Mount, state_string, status_string}
use kubedock.Model.Container.Match
use kubedock.Model.Records.{Network}
use kubedock.Model.Database.{get_container_by_name_or_id, get_containers, get_networks_by_ids}
use kubedock.Model.Database.Tables.{MemDb}
use kubedock.Backend.Interface.{Backend}
use kubedock.Server.World.{Config, World, Response, status, update_container_status}
use kubedock.Server.Filter
use kubedock.Server.Filter.{Json}
use kubedock.Server.Ports.{
  PortEntry, get_network_settings_ports, get_config_exposed_ports, get_container_ports,
  get_container_names,
}

pub record NetworkDetail : Type 0 where
  pub network_id : Str
  pub aliases : List Str

-- "State" and "Config" of the details; times are not formatted
pub record State : Type 0 where
  pub health : Str
  pub running : Bool
  pub status : Str
  pub dead : Bool
  pub started_at : ℕ
  pub finished_at : ℕ

pub record ContainerConfig : Type 0 where
  pub image : Str
  pub labels : GoMap Str Str
  pub env : List Str
  pub cmd : List Str
  pub exposed_ports : List ℤ

-- What is shown only with the details, and what only without them.
pub data Detail : Type 0 where
  detail : State → ContainerConfig → Detail
  summary : (labels : GoMap Str Str) (state status : Str) (ports : List PortEntry) → Detail

-- The name is the first of the names: where there is none, the index panics.
pub record Info : Type 0 where
  pub id : Str
  pub name : Option Str
  pub image : Str
  pub names : List Str
  pub networks : GoMap Str NetworkDetail
  pub host_ip : Str
  pub ports : GoMap ℤ (List ℤ)
  pub mounts : List Mount
  pub created : ℕ
  pub rest : Detail

-- The map `netdtl`.
unfoldable pub network_details :
    List Str → List Network → GoMap Str NetworkDetail → GoMap Str NetworkDetail
network_details aliases [] details = details
network_details aliases (nw ∷ nws) details =
    network_details aliases nws
      (GoMap.insert nw.name (record { network_id = nw.id; aliases = aliases }) details)

unfoldable pub first_name : List Str → Option Str
first_name [] = none
first_name (name ∷ names) = some name

unfoldable pub get_state : Container → State
get_state co = record {
  health = status_string co;
  running = co.running;
  status = state_string co;
  dead = co.failed;
  started_at = co.created;
  finished_at = co.finished;
}

unfoldable pub get_config : Config → Container → ContainerConfig
get_config cfg co = record {
  image = co.image;
  labels = co.labels;
  env = co.env;
  cmd = co.cmd;
  exposed_ports = get_config_exposed_ports cfg co;
}

-- How a list of JSON is answered: the status, what is written, and the state.
abbrev pub Answer : Type 0 → Type 0 → Type 0
Answer A W = Response × Option A × W

module _ {K : Type 0} (db : MemDb Container) (nws : MemDb Network) (be : Backend K)
    (networks : nws.Table) (cfg : Config) (fresh : Str) (now : ℕ) where
  -- getContainerInfo: the part that both have
  unfoldable pub get_container_info : Container → Detail → Info
  unfolding network_details first_name
  get_container_info co rest =
      let names = get_container_names co in
      record {
        id = co.id;
        name = first_name names;
        image = co.image;
        names = names;
        networks =
            network_details co.network_aliases (get_networks_by_ids nws co.networks networks) [];
        host_ip = co.host_ip;
        ports = get_network_settings_ports cfg co;
        mounts = co.mounts;
        created = co.created;
        rest = rest;
      }

  -- getContainerInfo with the details, for which the state is updated first
  unfoldable pub inspect : Bool → Container → World db.Table K → Info × World db.Table K
  unfolding get_container_info get_state get_config
  inspect allowed co w =
      let (co', w') = update_container_status db be cfg fresh now allowed co w in
      (get_container_info co (detail (get_state co') (get_config cfg co')), w')

  -- getContainerInfo without the details
  unfoldable pub summarise : Container → Info
  unfolding get_container_info
  summarise co =
      get_container_info co
        (summary co.labels (status_string co) (state_string co) (get_container_ports cfg co))

  -- ContainerInfo; `allowed` is what the rate limiter says
  unfoldable pub container_info : Bool → Str → World db.Table K → Answer Info (World db.Table K)
  unfolding inspect
  container_info allowed id w = elim (get_container_by_name_or_id db id w.table) [
    | err e ↦ (status 404, none, w)
    | ok co ↦ let (info, w') = inspect allowed co w in (status 200, some info, w')
  ]

  -- The loop of ContainerList.
  unfoldable pub list_matching :
      (Str → Str → Result Error Bool) → Filter.Filter → List Container → List Info
  unfolding summarise
  list_matching regexp_match filtr [] = []
  list_matching regexp_match filtr (co ∷ cos) =
      let others = list_matching regexp_match filtr cos in
      if Filter.matches (Match.matches regexp_match co) filtr then summarise co ∷ others else others

  -- ContainerList; the error of a filter that is not read is only logged
  unfoldable pub container_list :
      Json
      → (Str → Str → Result Error Bool)
      → Str
      → World db.Table K
      → Answer (List Info) (World db.Table K)
  unfolding list_matching
  container_list json regexp_match filters w =
      let (filtr, fine) = Filter.create json filters in
      (status 200, some (list_matching regexp_match filtr (get_containers db w.table)), w)
