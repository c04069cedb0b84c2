-- ===== src/Server/Networks/Inspect.antt =====
-- internal/server/routes/docker/networks.go: what NetworksInfo and NetworksList show. The constants
-- of the JSON are left out.
use kubedock.Base.{
  ℕ, Bool, List, [], ◌∷◌, Option, none, some, if◌then◌else◌, Result, ok, err, Str, str_eq_instance,
}
use kubedock.Base.GoMap
use kubedock.Base.GoMap.{GoMap}
use kubedock.Model.Error.{Error}
use kubedock.Model.Container.{Container}
use kubedock.Model.Records.{Network, match_network}
use kubedock.Model.Database.{get_containers, get_networks, get_network_by_name_or_id}
use kubedock.Model.Database.Tables.{MemDb}
use kubedock.Server.Filter
use kubedock.Server.Filter.{Json}
use kubedock.Server.Networks.{Tables, in_network}

-- `containers` maps the id of a container to its name.
pub record NetworkInfo : Type 0 where
  pub name : Str
  pub id : Str
  pub containers : GoMap Str Str
  pub labels : GoMap Str Str

-- The map that getContainersInNetwork makes of the containers of the network.
unfoldable pub names_of : List Container → GoMap Str Str → GoMap Str Str
names_of [] names = names
names_of (co ∷ cos) names = names_of cos (GoMap.insert co.id co.name names)

unfoldable pub network_info : Network → List Container → NetworkInfo
unfolding in_network names_of
network_info nw cos = record {
  name = nw.name;
  id = nw.id;
  containers = names_of (in_network nw cos) [];
  labels = nw.labels;
}

-- The loop of NetworksList.
unfoldable pub infos_of :
    (Str → Str → Result Error Bool)
    → Filter.Filter
    → List Container
    → List Network
    → List NetworkInfo
unfolding network_info
infos_of regexp_match filtr cos [] = []
infos_of regexp_match filtr cos (nw ∷ nws) =
    let others = infos_of regexp_match filtr cos nws in
    if Filter.matches (match_network regexp_match nw) filtr
    then network_info nw cos ∷ others
    else others

module _ (db : MemDb Container) (nws : MemDb Network) where
  -- NetworksInfo
  unfoldable pub networks_info : Str → Tables db.Table nws.Table → ℕ × Option NetworkInfo
  unfolding network_info
  networks_info id s = elim (get_network_by_name_or_id nws id s.networks) [
    | err e ↦ (404, none)
    | ok nw ↦ (200, some (network_info nw (get_containers db s.containers)))
  ]

  -- NetworksList; the error of a filter that is not read is only logged
  unfoldable pub networks_list :
      Json
      → (Str → Str → Result Error Bool)
      → Str
      → Tables db.Table nws.Table
      → ℕ × List NetworkInfo
  unfolding infos_of
  networks_list json regexp_match filters s =
      let (filtr, fine) = Filter.create json filters in
      (
        200,
        infos_of regexp_match filtr (get_containers db s.containers) (get_networks nws s.networks),
      )
