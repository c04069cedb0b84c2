-- ===== src/Server/World.antt =====
-- internal/server/routes/common: what the handlers share. A handler is given the state and returns
-- the status that it writes and the new state.
use kubedock.Base.{
  ℕ, ℤ, Bool, true, false, List, [], ◌∷◌, ◌++◌, none, some, is_nil, if◌then◌else◌, ok, err, Str,
}
use kubedock.Base.Text.{codes}
use kubedock.Model.Container.{Container, signal_stop, signal_detach}
use kubedock.Model.Container.Ports.{get_service_ports}
use kubedock.Model.Database.{save_container}
use kubedock.Model.Database.Tables.{MemDb}
use kubedock.Backend.Interface.{DeployState, pending, failed, running, completed, Backend}

-- Config of context.go.
pub record Config : Type 0 where
  pub inspector : Bool
  pub port_forward : Bool
  pub reverse_proxy : Bool
  pub request_cpu : Str
  pub request_memory : Str
  pub runas_user : Str
  pub pull_policy : Str
  pub pre_archive : Bool
  pub service_account : Str
  pub active_deadline_seconds : ℤ
  pub name_prefix : Str
  pub node_selector : Str
  pub ignore_container_memory : Bool

-- A message of internal/events: the id and the action; its type is "container".
pub record Event : Type 0 where
  pub id : Str
  pub action : Str

-- The table of containers, the cluster, what was published, and the channels that were signalled.
pub record World (T K : Type 0) : Type 0 where
  pub table : T
  pub cluster : K
  pub events : List Event
  pub signalled : List ℕ

-- The answer of a handler: an HTTP status, or none because it waits for ever.
pub data Response : Type 0 where
  status : ℕ → Response
  hangs : Response

-- cr.Events.Publish for a container
unfoldable pub publish : {T K : Type 0} → Str → Str → World T K → World T K
publish id action w = record w { events = w.events ++ record { id = id; action = action } ∷ [] }

-- tainr.SignalDetach(); tainr.SignalStop()
unfoldable pub signal_all : {T K : Type 0} → Container → World T K → Container × World T K
unfolding signal_detach signal_stop
signal_all co w =
    let (co1, detached) = signal_detach co in
    let (co2, stopped) = signal_stop co1 in
    (co2, record w { signalled = (w.signalled ++ detached) ++ stopped })

abbrev pub is_state : DeployState → DeployState → Bool
is_state failed failed = true
is_state running running = true
is_state completed completed = true
is_state pending pending = true
is_state _ _ = false

-- StartContainer's writes to the flags
unfoldable pub set_started : DeployState → Container → Container
set_started state co = record co {
  stopped = false;
  killed = false;
  failed = is_state state failed;
  completed = is_state state completed;
  running = is_state state running;
}

-- `fresh` and `now` are what GenerateRandomID and time.Now return, if they are called.
module _ {K : Type 0} (db : MemDb Container) (be : Backend K) (cfg : Config) (fresh : Str)
    (now : ℕ) where
  -- Save a container that was changed through its pointer: the table shows the change even if the
  -- save fails. The flag is the error.
  unfoldable pub save : Container → World db.Table K → World db.Table K × Bool
  unfolding save_container
  save co w = elim (save_container db fresh now co w.table) [
    | err e ↦ (record w { table = db.poke co w.table }, true)
    | ok (co', t) ↦ (record w { table = t }, false)
  ]

  -- The middle of StartContainer: the address and the forwards; `none` is the error of GetPodIP.
  unfoldable pub expose : Container → K → K × Container × Bool
  expose co k =
      let co1 : Container = record co { host_ip = codes "0.0.0.0" } in
      if cfg.port_forward
      then (let (k', co2) = be.create_port_forwards co1 k in (k', co2, false))
      else if is_nil (get_service_ports co1)
      then (k, co1, false)
      else (elim (be.get_pod_ip co1 k) [
        | none ↦ (k, co1, true)
        | some ip ↦
            let co2 : Container = record co1 { host_ip = ip } in
            if cfg.reverse_proxy
            then (let (k', co3) = be.create_reverse_proxies co2 k in (k', co3, false))
            else (k, co2, false)
      ])

  -- StartContainer of util.go
  unfoldable pub start_container : Container → World db.Table K → World db.Table K × Bool
  unfolding save set_started expose
  start_container co w =
      let (k1, co1, state, bad) = be.start_container co w.cluster in
      if bad
      then (record w { cluster = k1; table = db.poke co1 w.table }, true)
      else (let (k2, co2, bad') = expose co1 k1 in
          if bad'
          then (record w { cluster = k2; table = db.poke co2 w.table }, true)
          else save (set_started state co2) (record w { cluster = k2 }))

  -- UpdateContainerStatus of util.go: the container is changed through its pointer. `allowed` is
  -- what the rate limiter says.
  unfoldable pub new_status : Bool → Container → K → Container
  new_status allowed co k =
      if co.completed
      then co
      else if allowed
      then (let (state, bad) = be.get_container_status co k in
          let co1 : Container = if bad then record co { failed = true } else co in
          if is_state state completed
          then record co1 { finished = now; completed = true; running = false }
          else co1)
      else co

  unfoldable pub update_container_status :
      Bool → Container → World db.Table K → Container × World db.Table K
  unfolding new_status
  update_container_status allowed co w =
      let co' = new_status allowed co w.cluster in (co', record w { table = db.poke co' w.table })
