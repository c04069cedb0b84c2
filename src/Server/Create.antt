-- ===== src/Server/Create.antt =====
-- ContainerCreate of internal/server/routes/docker/containers.go.
pub mod Labels
pub mod Stored
pub mod Tests
use kubedock.Base.{
  ℕ, ℤ, zero, suc, ◌+◌, ◌%◌, ◌/◌, Bool, true, false, ◌||◌, not, List, [], ◌∷◌, ◌++◌, Option, none,
  some, is_nil, keep, map, ltb, if◌then◌else◌, Result, ok, err, Str, str_eq, str_eq_instance,
}
use kubedock.Base.Int.{pos, negsuc, int_eq, is_neg}
use kubedock.Base.GoMap
use kubedock.Base.GoMap.{GoMap}
use kubedock.Base.Text.{codes}
use kubedock.Base.Text.Decimal.{sprint}
use kubedock.Model.Error.{Error}
use kubedock.Model.Label
use kubedock.Model.Container.{Container, Mount, blank, connect_network}
use kubedock.Model.Container.Ports.{add_host_port}
use kubedock.Model.Records.{Network, Image}
use kubedock.Model.Database.{
  get_network_by_name, get_network_by_name_or_id, get_image_by_name_or_id, save_container,
}
use kubedock.Model.Database.Tables.{MemDb}
use kubedock.Server.World.{Config, World, Response, status, publish}
use kubedock.Server.Networks.{add_network_aliases}

pub record EndpointConfig : Type 0 where
  pub aliases : List Str
  pub network_id : Str

pub record HostConfig : Type 0 where
  pub binds : List Str
  pub mounts : List Mount
  -- the host ports of each container port
  pub port_bindings : GoMap Str (List Str)
  pub memory : ℤ
  pub nano_cpus : ℤ
  pub network_mode : Str

pub record ContainerCreateRequest : Type 0 where
  pub name : Str
  pub hostname : Str
  pub image : Str
  pub exposed_ports : GoMap Str (Unit {0})
  pub labels : GoMap Str Str
  pub entrypoint : List Str
  pub cmd : List Str
  pub env : List Str
  pub user : Str
  pub host_config : HostConfig
  pub endpoints_config : GoMap Str EndpointConfig
  pub tty : Bool
  pub open_stdin : Bool

-- A label that the request does not have is set to what is configured, if anything is.
unfoldable pub set_default : Str → Str → GoMap Str Str → GoMap Str Str
set_default key value labels =
    if GoMap.has key labels || is_nil value then labels else GoMap.insert key value labels

-- The label is set, if the test holds.
unfoldable pub set_if : Bool → Str → Str → GoMap Str Str → GoMap Str Str
set_if test key value labels = if test then GoMap.insert key value labels else labels

-- getContainerCreateRequest: the label for the user
unfoldable pub user_labels : Config → ContainerCreateRequest → GoMap Str Str → GoMap Str Str
unfolding set_default set_if
user_labels cfg rq labels =
    set_if (not (is_nil rq.user)) Label.runas_user rq.user
      (set_default Label.runas_user cfg.runas_user labels)

-- The other labels, in the order of the statements.
unfoldable pub setting_labels : Config → ContainerCreateRequest → GoMap Str Str → GoMap Str Str
unfolding set_default set_if sprint
setting_labels cfg rq labels =
    let l3 = set_default Label.name_prefix cfg.name_prefix labels in
    let l4 = set_default Label.request_cpu cfg.request_cpu l3 in
    let l5 = set_default Label.request_memory cfg.request_memory l4 in
    let l6 = set_default Label.pull_policy cfg.pull_policy l5 in
    let l7 = set_default Label.node_selector cfg.node_selector l6 in
    let deadline =
      if is_neg cfg.active_deadline_seconds then [] else sprint cfg.active_deadline_seconds in
    let l8 = set_default Label.active_deadline_seconds deadline l7 in
    let has_memory =
      if int_eq rq.host_config.memory (pos 0) then false else not cfg.ignore_container_memory in
    let l9 = set_if has_memory Label.request_memory (sprint rq.host_config.memory) l8 in
    let l10 =
      set_if (not (int_eq rq.host_config.nano_cpus (pos 0))) Label.request_cpu
        (sprint rq.host_config.nano_cpus ++ b'n' ∷ []) l9 in
    GoMap.insert Label.service_account cfg.service_account l10

-- The labels that getContainerCreateRequest leaves.
unfoldable pub request_labels : Config → ContainerCreateRequest → GoMap Str Str
unfolding user_labels setting_labels
request_labels cfg rq = setting_labels cfg rq (user_labels cfg rq rq.labels)

-- The inner loop over the host ports of a container port.
unfoldable pub add_bindings : Str → List Str → Container → Result Error Container
add_bindings dst [] co = ok co
add_bindings dst (src ∷ more) co = elim (add_host_port co src dst) [
  | err e ↦ err e
  | ok co' ↦ add_bindings dst more co'
]

unfoldable pub add_all_bindings : GoMap Str (List Str) → Container → Result Error Container
unfolding add_bindings
add_all_bindings [] co = ok co
add_all_bindings ((dst, ports) ∷ more) co = elim (add_bindings dst ports co) [
  | err e ↦ err e
  | ok co' ↦ add_all_bindings more co'
]

-- tainr.ImagePorts[pp] = pp
unfoldable pub add_ports_of : GoMap Str (Unit {0}) → GoMap Str (Unit {0}) → GoMap Str (Unit {0})
add_ports_of [] ports = ports
add_ports_of ((pp, u) ∷ more) ports = add_ports_of more (GoMap.insert pp tt ports)

module _ (nws : MemDb Network) (networks : nws.Table) where
  -- HostConfig.NetworkMode
  unfoldable pub connect_mode : Str → Container → Result Error Container
  connect_mode net co =
      if is_nil net || str_eq net (codes "default")
      then ok co
      else (elim (get_network_by_name_or_id nws net networks) [
        | err e ↦ err e
        | ok nw ↦ ok (connect_network co nw.id)
      ])

  unfoldable pub connect_endpoint : EndpointConfig → Container → Result Error Container
  unfolding add_network_aliases
  connect_endpoint endp co =
      let co' = add_network_aliases co endp.aliases in
      if is_nil endp.network_id
      then ok co'
      else (elim (get_network_by_name_or_id nws endp.network_id networks) [
        | err e ↦ err e
        | ok nw ↦ ok (connect_network co' nw.id)
      ])

  -- The loop over EndpointsConfig.
  unfoldable pub connect_endpoints : GoMap Str EndpointConfig → Container → Result Error Container
  unfolding connect_endpoint
  connect_endpoints [] co = ok co
  connect_endpoints ((n, endp) ∷ more) co = elim (connect_endpoint endp co) [
    | err e ↦ err e
    | ok co' ↦ connect_endpoints more co'
  ]

  -- A container with no network is connected to "bridge".
  unfoldable pub connect_default : Container → Result Error Container
  connect_default co =
      if is_nil co.networks
      then (elim (get_network_by_name nws (codes "bridge") networks) [
        | err e ↦ err e
        | ok nw ↦ ok (connect_network co nw.id)
      ])
      else ok co

-- The container as the request describes it, before ports and networks.
unfoldable pub requested : Str → Config → ContainerCreateRequest → Container
unfolding request_labels
requested query_name cfg rq = record blank {
  name = if is_nil rq.name then query_name else rq.name;
  hostname = rq.hostname;
  image = rq.image;
  entrypoint = rq.entrypoint;
  cmd = rq.cmd;
  env = rq.env;
  exposed_ports = rq.exposed_ports;
  labels = request_labels cfg rq;
  binds = rq.host_config.binds;
  mounts = keep (λ m. str_eq m.kind (codes "bind")) rq.host_config.mounts;
  tty = rq.tty;
  open_stdin = rq.open_stdin;
}

module _ (imgs : MemDb Image) (images : imgs.Table) where
  -- The ports of the image, if it is known.
  unfoldable pub with_image_ports : Container → Container
  unfolding add_ports_of
  with_image_ports co = elim (get_image_by_name_or_id imgs co.image images) [
    | err e ↦ co
    | ok img ↦ record co { image_ports = add_ports_of img.exposed_ports [] }
  ]

module _ (nws : MemDb Network) (imgs : MemDb Image) (networks : nws.Table) (images : imgs.Table)
    (cfg : Config) where
  -- ContainerCreate up to SaveContainer; an error is answered with 500.
  unfoldable pub new_container : Str → ContainerCreateRequest → Result Error Container
  unfolding requested add_all_bindings connect_mode connect_endpoints connect_default
      with_image_ports
  new_container query_name rq =
      elim (add_all_bindings rq.host_config.port_bindings
        (with_image_ports imgs images (requested query_name cfg rq))) [
          | err e ↦ err e
          | ok co1 ↦ elim (connect_mode nws networks rq.host_config.network_mode co1) [
            | err e ↦ err e
            | ok co2 ↦ elim (connect_endpoints nws networks rq.endpoints_config co2) [
              | err e ↦ err e
              | ok co3 ↦ connect_default nws networks co3
            ]
          ]
        ]

-- `fresh` and `now` are what GenerateRandomID and time.Now return.
module _ {K : Type 0} (db : MemDb Container) (nws : MemDb Network) (imgs : MemDb Image)
    (networks : nws.Table) (images : imgs.Table) (cfg : Config) (fresh : Str) (now : ℕ) where
  -- ContainerCreate; `none` is a body that cannot be read
  unfoldable pub container_create :
      Option ContainerCreateRequest → Str → World db.Table K → Response × World db.Table K
  unfolding new_container save_container publish
  container_create body query_name w = elim body [
    | none ↦ (status 500, w)
    | some rq ↦ elim (new_container nws imgs networks images cfg query_name rq) [
      | err e ↦ (status 500, w)
      | ok co ↦ elim (save_container db fresh now co w.table) [
        | err e ↦ (status 500, w)
        | ok (co', t) ↦ (status 201, publish co'.id (codes "create") (record w { table = t }))
      ]
    ]
  ]
