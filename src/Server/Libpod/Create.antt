-- ===== src/Server/Libpod/Create.antt =====
-- ContainerCreate of internal/server/routes/libpod/containers.go.
use kubedock.Base.{
  ℕ, ℤ, Bool, not, List, [], ◌∷◌, ◌++◌, Option, none, some, is_nil, if◌then◌else◌, Result, ok, err,
  Str, str_eq_instance,
}
use kubedock.Base.GoMap
use kubedock.Base.GoMap.{GoMap}
use kubedock.Base.Int.{is_neg}
use kubedock.Base.Text.{codes}
use kubedock.Model.Error.{Error}
use kubedock.Model.Label
use kubedock.Model.Container.{Container, blank, connect_network}
use kubedock.Model.Container.Ports.{add_host_port}
use kubedock.Model.Records.{Network, Image}
use kubedock.Model.Database.{get_network_by_name, save_container}
use kubedock.Model.Database.Tables.{MemDb}
use kubedock.Server.World.{Config, World, Response, status, publish}
use kubedock.Server.Networks.{add_aliases}
use kubedock.Server.Create.{set_default, set_if, with_image_ports}
use kubedock.Base.Text.Decimal.{sprint}

pub record PortMapping : Type 0 where
  pub container_port : ℤ
  pub host_port : ℤ

pub record NetworksProperty : Type 0 where
  pub aliases : List Str

pub record Mount : Type 0 where
  pub source : Str
  pub destination : Str

pub record ContainerCreateRequest : Type 0 where
  pub name : Str
  pub image : Str
  pub labels : GoMap Str Str
  pub entrypoint : List Str
  pub command : List Str
  pub env : GoMap Str Str
  pub user : Str
  pub port_mappings : List PortMapping
  pub network : GoMap Str NetworksProperty
  pub mounts : List Mount
  pub terminal : Bool
  pub stdin : Bool

-- The labels that the handler leaves, in the order of its statements.
unfoldable pub libpod_labels : Config → ContainerCreateRequest → GoMap Str Str
unfolding set_default set_if sprint
libpod_labels cfg rq =
    let l1 = set_default Label.runas_user cfg.runas_user rq.labels in
    let l2 = set_if (not (is_nil rq.user)) Label.runas_user rq.user l1 in
    let l3 = set_default Label.name_prefix cfg.name_prefix l2 in
    let l4 = set_default Label.request_cpu cfg.request_cpu l3 in
    let l5 = set_default Label.request_memory cfg.request_memory l4 in
    let l6 = set_default Label.pull_policy cfg.pull_policy l5 in
    let l7 = set_default Label.node_selector cfg.node_selector l6 in
    let deadline =
      if is_neg cfg.active_deadline_seconds then [] else sprint cfg.active_deadline_seconds in
    let l8 = set_default Label.active_deadline_seconds deadline l7 in
    GoMap.insert Label.service_account cfg.service_account l8

-- The loop over `Env`: k=v
unfoldable pub env_list : GoMap Str Str → List Str
env_list [] = []
env_list ((k, v) ∷ more) = (k ++ b'=' ∷ v) ∷ env_list more

-- The loop over the mounts: source:destination
unfoldable pub bind_list : List Mount → List Str
bind_list [] = []
bind_list (m ∷ more) = (m.source ++ b':' ∷ m.destination) ∷ bind_list more

-- The aliases of all the networks, in the order in which they are visited.
unfoldable pub all_aliases : GoMap Str NetworksProperty → List Str
all_aliases [] = []
all_aliases ((n, netwp) ∷ more) = netwp.aliases ++ all_aliases more

-- addNetworkAliases: unlike docker's it does not keep the aliases that the container has
unfoldable pub set_network_aliases : Container → GoMap Str NetworksProperty → Container
unfolding add_aliases all_aliases
set_network_aliases co networks =
    let (aliases, seen) = add_aliases (all_aliases networks) [] ((co.short_id, tt) ∷ []) in
    record co { network_aliases = aliases }

-- The loop over the port mappings.
unfoldable pub add_mappings : List PortMapping → Container → Result Error Container
add_mappings [] co = ok co
add_mappings (mapping ∷ more) co =
    elim (add_host_port co (sprint mapping.host_port) (sprint mapping.container_port)) [
      | err e ↦ err e
      | ok co' ↦ add_mappings more (record co' {
        exposed_ports = GoMap.insert (sprint mapping.container_port) tt co'.exposed_ports;
      })
    ]

-- The container as the request describes it, before ports, aliases, mounts and the network.
unfoldable pub described : Str → Config → ContainerCreateRequest → Container
unfolding libpod_labels env_list
described query_name cfg rq = record blank {
  name = if is_nil rq.name then query_name else rq.name;
  image = rq.image;
  entrypoint = rq.entrypoint;
  cmd = rq.command;
  env = env_list rq.env;
  labels = libpod_labels cfg rq;
  tty = rq.terminal;
  open_stdin = rq.stdin;
}

module _ (nws : MemDb Network) (imgs : MemDb Image) (networks : nws.Table) (images : imgs.Table)
    (cfg : Config) where
  -- The network "bridge".
  unfoldable pub connect_bridge : Container → Result Error Container
  connect_bridge co = elim (get_network_by_name nws (codes "bridge") networks) [
    | err e ↦ err e
    | ok nw ↦ ok (connect_network co nw.id)
  ]

  -- ContainerCreate up to SaveContainer; an error is answered with 500.
  unfoldable pub new_container : Str → ContainerCreateRequest → Result Error Container
  unfolding described add_mappings set_network_aliases bind_list connect_bridge with_image_ports
  new_container query_name rq =
      elim (add_mappings rq.port_mappings
        (with_image_ports imgs images (described query_name cfg rq))) [
          | err e ↦ err e
          | ok co ↦
              let co1 : Container = set_network_aliases co rq.network in
              connect_bridge (record co1 { binds = co1.binds ++ bind_list rq.mounts })
        ]

-- `fresh` and `now` are what GenerateRandomID and time.Now return.
module _ {K : Type 0} (db : MemDb Container) (nws : MemDb Network) (imgs : MemDb Image)
    (networks : nws.Table) (images : imgs.Table) (cfg : Config) (fresh : Str) (now : ℕ) where
  -- From SaveContainer on.
  unfoldable pub save_and_create : Container → World db.Table K → Response × World db.Table K
  unfolding save_container publish
  save_and_create co w = elim (save_container db fresh now co w.table) [
    | err e ↦ (status 500, w)
    | ok (co', t) ↦ (status 201, publish co'.id (codes "create") (record w { table = t }))
  ]

  -- ContainerCreate; `none` is a body that cannot be read
  unfoldable pub container_create :
      Option ContainerCreateRequest → Str → World db.Table K → Response × World db.Table K
  container_create none query_name w = (status 500, w)
  container_create (some rq) query_name w =
      elim (new_container nws imgs networks images cfg query_name rq) [
        | err e ↦ (status 500, w)
        | ok co ↦ save_and_create co w
      ]
