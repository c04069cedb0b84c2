-- ===== src/Server/Libpod/Inspect.antt =====
-- internal/server/routes/libpod/containers.go: what podman's ContainerInfo and ContainerList show.
-- The addresses "127.0.0.1" and the constants of the JSON are left out.
pub mod Agree
pub mod Tests
use kubedock.Base.{
  str_eq_instance, ℕ, ℤ, Bool, true, false, List, [], ◌∷◌, Option, none, some, is_nil,
  if◌then◌else◌, Result, ok, err, Str, str_eq,
}
use kubedock.Base.GoMap
use kubedock.Base.GoMap.{GoMap}
use kubedock.Model.Error.{Error}
use kubedock.Model.Container.{Container, state_string, status_string}
use kubedock.Model.Container.Match
use kubedock.Model.Records.{Network}
use kubedock.Model.Database.{get_container_by_name_or_id, get_containers, get_networks_by_ids}
use kubedock.Model.Database.Tables.{MemDb}
use kubedock.Backend.Interface.{Backend}
use kubedock.Server.World.{Config, World, status, update_container_status}
use kubedock.Server.Filter
use kubedock.Server.Filter.{Json}
use kubedock.Server.Libpod.Ports.{InfoEntry, get_network_settings_ports, get_container_info_ports}
use kubedock.Server.Inspect.{NetworkDetail, State, first_name, get_state, Answer}

-- "Config" of the details
pub record ContainerConfig : Type 0 where
  pub image : Str
  pub labels : GoMap Str Str
  pub env : List Str
  pub cmd : List Str

pub data Detail : Type 0 where
  detail : State → ContainerConfig → Detail
  summary : (created : ℕ) (labels : GoMap Str Str) (state status : Str) → Detail

-- `ports` are those of the network settings, which are also the port bindings of "HostConfig".
pub record Info : Type 0 where
  pub id : Str
  pub name : Option Str
  pub image : Str
  pub names : List Str
  pub networks : GoMap Str NetworkDetail
  pub host_ip : Str
  pub ports : GoMap ℤ (List ℤ)
  pub info_ports : List InfoEntry
  pub rest : Detail

-- The map `netdtl`.
unfoldable pub network_details :
    List Str → List Network → GoMap Str NetworkDetail → GoMap Str NetworkDetail
network_details aliases [] details = details
network_details aliases (nw ∷ nws) details =
    network_details aliases nws
      (GoMap.insert nw.name (record { network_id = nw.id; aliases = aliases }) details)

-- The aliases that getContainerNames adds.
unfoldable pub other_aliases : Str → List Str → List Str
other_aliases name [] = []
other_aliases name (alias ∷ more) =
    let rest = other_aliases name more in if str_eq alias name then rest else alias ∷ rest

-- getContainerNames
unfoldable pub get_container_names : Container → List Str
unfolding other_aliases
get_container_names co =
    let more = co.id ∷ co.short_id ∷ other_aliases co.name co.network_aliases in
    if is_nil co.name then more else co.name ∷ more

-- The last part of getContainerInfo, of the container with its new state.
unfoldable pub get_detail : Bool → Container → Detail
unfolding get_state
get_detail full co =
    if full
    then detail (get_state co)
        (record { image = co.image; labels = co.labels; env = co.env; cmd = co.cmd })
    else summary co.created co.labels (status_string co) (state_string co)

module _ {K : Type 0} (db : MemDb Container) (nws : MemDb Network) (be : Backend K)
    (networks : nws.Table) (cfg : Config) (fresh : Str) (now : ℕ) where
  -- getContainerInfo; `allowed` is what the rate limiter says
  unfoldable pub get_container_info :
      Bool → Bool → Container → World db.Table K → Info × World db.Table K
  unfolding get_detail network_details first_name
  get_container_info full allowed co w =
      let names = get_container_names co in
      let (co', w') = update_container_status db be cfg fresh now allowed co w in
      (
        record {
          id = co.id;
          name = first_name names;
          image = co.image;
          names = names;
          networks =
              network_details co.network_aliases (get_networks_by_ids nws co.networks networks) [];
          host_ip = co.host_ip;
          ports = get_network_settings_ports cfg co;
          info_ports = get_container_info_ports cfg co;
          rest = get_detail full co';
        },
        w',
      )

  -- ContainerInfo
  unfoldable pub container_info : Bool → Str → World db.Table K → Answer Info (World db.Table K)
  unfolding get_container_info
  container_info allowed id w = elim (get_container_by_name_or_id db id w.table) [
    | err e ↦ (status 404, none, w)
    | ok co ↦ let (info, w') = get_container_info true allowed co w in (status 200, some info, w')
  ]

  -- The loop of ContainerList, which updates the state of each container that it shows.
  unfoldable pub list_matching :
      (Str → Str → Result Error Bool)
      → Filter.Filter
      → (Str → Bool)
      → List Container
      → World db.Table K
      → List Info × World db.Table K
  unfolding get_container_info
  list_matching regexp_match filtr allowed [] w = ([], w)
  list_matching regexp_match filtr allowed (co ∷ cos) w =
      let skipped = list_matching regexp_match filtr allowed cos w in
      let (info, w1) = get_container_info false (allowed co.id) co w in
      let (others, w2) = list_matching regexp_match filtr allowed cos w1 in
      if Filter.matches (Match.matches regexp_match co) filtr then (info ∷ others, w2) else skipped

  -- ContainerList; the error of a filter that is not read is only logged
  unfoldable pub container_list :
      Json
      → (Str → Str → Result Error Bool)
      → Str
      → (Str → Bool)
      → World db.Table K
      → Answer (List Info) (World db.Table K)
  unfolding list_matching
  container_list json regexp_match filters allowed w =
      let (filtr, fine) = Filter.create json filters in
      let (infos, w') = list_matching regexp_match filtr allowed (get_containers db w.table) w in
      (status 200, some infos, w')
