-- ===== src/Model/Container.antt =====
-- internal/model/types/container.go: the container record, its labels, its networks, the channels
-- of its helpers, and the state that the API shows.
pub mod Settings
pub mod PodName
pub mod PreArchives
pub mod Ports
pub mod Volumes
pub mod Match
pub mod Tests
use kubedock.Base.{
  ℕ, ℤ, Bool, true, false, ◌||◌, List, [], ◌∷◌, ◌++◌, Option, none, some, if◌then◌else◌, Result, ok,
  err, Str, str_eq_instance, int_eq_instance,
}
use kubedock.Base.GoMap
use kubedock.Base.GoMap.{GoMap}
use kubedock.Base.Text.{codes}
use kubedock.Model.Error.{Error, not_connected}

pub record PreArchive : Type 0 where
  pub path : Str
  pub archive : Str

pub record Mount : Type 0 where
  pub kind : Str
  pub source : Str
  pub target : Str
  pub read_only : Bool

-- A nil map or slice is the empty one: the code reads both alike and makes the map before it
-- writes. A channel is a number, a time is a number of seconds.
pub record Container : Type 0 where
  pub id : Str
  pub short_id : Str
  pub name : Str
  pub hostname : Str
  pub image : Str
  pub labels : GoMap Str Str
  pub entrypoint : List Str
  pub cmd : List Str
  pub env : List Str
  pub binds : List Str
  pub mounts : List Mount
  pub pre_archives : List PreArchive
  pub host_ip : Str
  pub exposed_ports : GoMap Str (Unit {0})
  pub image_ports : GoMap Str (Unit {0})
  pub host_ports : GoMap ℤ ℤ
  pub mapped_ports : GoMap ℤ ℤ
  pub networks : GoMap Str (Unit {0})
  pub network_aliases : List Str
  pub stop_channels : List ℕ
  pub attach_channels : List ℕ
  pub running : Bool
  pub completed : Bool
  pub failed : Bool
  pub stopped : Bool
  pub killed : Bool
  pub tty : Bool
  pub open_stdin : Bool
  pub created : ℕ
  pub finished : ℕ

-- &types.Container{}
abbrev pub blank : Container
blank = record {
  id = [];
  short_id = [];
  name = [];
  hostname = [];
  image = [];
  labels = [];
  entrypoint = [];
  cmd = [];
  env = [];
  binds = [];
  mounts = [];
  pre_archives = [];
  host_ip = [];
  exposed_ports = [];
  image_ports = [];
  host_ports = [];
  mapped_ports = [];
  networks = [];
  network_aliases = [];
  stop_channels = [];
  attach_channels = [];
  running = false;
  completed = false;
  failed = false;
  stopped = false;
  killed = false;
  tty = false;
  open_stdin = false;
  created = 0;
  finished = 0;
}

-- AddStopChannel
unfoldable pub add_stop_channel : Container → ℕ → Container
add_stop_channel co stop = record co { stop_channels = co.stop_channels ++ stop ∷ [] }

-- SignalStop: the second part is the channels that get a message and are closed, in that order.
unfoldable pub signal_stop : Container → Container × List ℕ
signal_stop co = (record co { stop_channels = [] }, co.stop_channels)

-- AddAttachChannel
unfoldable pub add_attach_channel : Container → ℕ → Container
add_attach_channel co stop = record co { attach_channels = co.attach_channels ++ stop ∷ [] }

-- SignalDetach
unfoldable pub signal_detach : Container → Container × List ℕ
signal_detach co = (record co { attach_channels = [] }, co.attach_channels)

-- ConnectNetwork
unfoldable pub connect_network : Container → Str → Container
connect_network co id = record co { networks = GoMap.insert id tt co.networks }

-- DisconnectNetwork
unfoldable pub disconnect_network : Container → Str → Result Error Container
disconnect_network co id =
    if GoMap.has id co.networks
    then ok (record co { networks = GoMap.delete id co.networks })
    else err (not_connected id)

-- MapPort
unfoldable pub map_port : Container → ℤ → ℤ → Container
map_port co pod local = record co { mapped_ports = GoMap.insert pod local co.mapped_ports }

-- HasVolumes: only the binds count
unfoldable pub has_volumes : Container → Bool
has_volumes co = elim co.binds [ [] ↦ false | b ∷ bs ↦ true ]

-- HasPreArchives
unfoldable pub has_pre_archives : Container → Bool
has_pre_archives co = elim co.pre_archives [ [] ↦ false | p ∷ ps ↦ true ]

-- StateString
unfoldable pub state_string : Container → Str
state_string co =
    if co.running
    then codes "running"
    else if co.stopped || co.killed
    then codes "dead"
    else if co.failed
    then codes "dead"
    else if co.completed
    then codes "exited"
    else codes "created"

-- StatusString
unfoldable pub status_string : Container → Str
status_string co = if co.running then codes "healthy" else codes "unhealthy"
