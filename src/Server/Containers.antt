-- ===== src/Server/Containers.antt =====
-- internal/server/routes/common/containers.go, and ContainerDelete and ContainerWait of
-- internal/server/routes/docker/containers.go: the life of a container.
pub mod Repeat
pub mod Broken
pub mod Gone
pub mod Coherent
pub mod Preserve
pub mod Created
pub mod Beside
pub mod Joined
pub mod Requests
pub mod Steps
pub mod Waits
pub mod Tests
use kubedock.Base.{
  ℕ, Bool, true, false, ◌&&◌, ◌||◌, not, List, [], ◌∷◌, Option, none, some, is_nil, any_of,
  if◌then◌else◌, Result, ok, err, Str, str_eq,
}
use kubedock.Base.Text.{codes, to_lower}
use kubedock.Model.Error.{Error}
use kubedock.Model.Container.{Container}
use kubedock.Model.Database.{
  get_container, get_container_by_name, get_container_by_name_or_id, delete_container,
}
use kubedock.Model.Database.Tables.{MemDb}
use kubedock.Backend.Interface.{Backend}
use kubedock.Server.World.{
  Config, World, Response, status, hangs, publish, signal_all, save, start_container,
  update_container_status,
}

-- The map `valid` of ContainerKill.
abbrev pub valid_signals : List Str
valid_signals = codes "kil" ∷ codes "term" ∷ codes "quit" ∷ codes "int" ∷ []

-- The test of ContainerKill on its query parameter, negated.
unfoldable pub is_handled : Str → Bool
is_handled signal =
    let s = to_lower signal in if is_nil s then true else any_of (λ v. str_eq v s) valid_signals

unfoldable pub set_stopped : Container → Container
set_stopped co = record co { running = false; completed = false; stopped = true }

unfoldable pub set_killed : Container → Container
set_killed co = record co { killed = true; running = false; completed = false }

-- The test of ContainerStart.
unfoldable pub is_idle : Container → Bool
is_idle co = not co.running && not co.completed

-- How the handlers begin: 404 where the lookup fails, else the rest of the handler.
unfoldable pub or_404 :
    {T K : Type 0}
    → Result Error Container
    → World T K
    → (Container → Response × World T K)
    → Response × World T K
or_404 (err e) w f = (status 404, w)
or_404 (ok co) w f = f co

module _ {K : Type 0} (db : MemDb Container) (be : Backend K) (cfg : Config) (fresh : Str)
    (now : ℕ) where
  -- The handlers of a container that was found. ContainerStart:
  unfoldable pub start_found : Container → World db.Table K → Response × World db.Table K
  unfolding is_idle
  start_found co w =
      if is_idle co
      then (let (w', bad) = start_container db be cfg fresh now co w in
          if bad then (status 500, w') else (status 204, publish co.id (codes "start") w'))
      else (status 204, publish co.id (codes "start") w)

  -- ContainerStart
  unfoldable pub container_start : Str → World db.Table K → Response × World db.Table K
  unfolding start_found or_404
  container_start id w = or_404 (get_container db id w.table) w (λ co. start_found co w)

  -- The delete of the cluster's objects that stop, kill and delete have; an error is only logged.
  unfoldable pub delete_if_live : Container → World db.Table K → World db.Table K
  delete_if_live co w =
      if not co.stopped && not co.killed
      then record w { cluster = (be.delete_container co w.cluster).0 }
      else w

  -- ContainerRestart; it waits for a nil channel where the watch failed.
  unfoldable pub restart_found : Container → World db.Table K → Response × World db.Table K
  unfolding set_stopped
  restart_found co w =
      let watched = be.watch_delete_container co w.cluster in
      let w1 : World db.Table K = record w { cluster = (be.delete_container co w.cluster).0 } in
      let (co2, w2) = signal_all co w1 in
      let co3 = set_stopped co2 in
      let (w3, bad) = save db be cfg fresh now co3 w2 in
      if bad
      then (status 500, w3)
      else if watched
      then (let (w4, bad') = start_container db be cfg fresh now co3 w3 in
          if bad' then (status 500, w4) else (status 204, w4))
      else (hangs, w3)

  unfoldable pub container_restart : Str → World db.Table K → Response × World db.Table K
  unfolding restart_found or_404
  container_restart id w = or_404 (get_container db id w.table) w (λ co. restart_found co w)

  -- ContainerStop and ContainerKill from SaveContainer on
  unfoldable pub save_and_die : Container → World db.Table K → Response × World db.Table K
  save_and_die co w =
      let (w', bad) = save db be cfg fresh now co w in
      if bad then (status 500, w') else (status 204, publish co.id (codes "die") w')

  -- ContainerStop
  unfoldable pub stop_found : Container → World db.Table K → Response × World db.Table K
  unfolding set_stopped delete_if_live save_and_die
  stop_found co w =
      let (co1, w1) = signal_all co w in save_and_die (set_stopped co1) (delete_if_live co1 w1)

  unfoldable pub container_stop : Str → World db.Table K → Response × World db.Table K
  unfolding stop_found or_404
  container_stop id w = or_404 (get_container db id w.table) w (λ co. stop_found co w)

  -- ContainerKill
  unfoldable pub kill_found : Str → Container → World db.Table K → Response × World db.Table K
  unfolding is_handled set_killed delete_if_live save_and_die
  kill_found signal co w =
      if is_handled signal
      then (let (co1, w1) = signal_all co w in
          save_and_die (set_killed co1) (delete_if_live co1 w1))
      else (status 204, w)

  unfoldable pub container_kill : Str → Str → World db.Table K → Response × World db.Table K
  unfolding kill_found or_404
  container_kill id signal w =
      or_404 (get_container_by_name_or_id db id w.table) w (λ co. kill_found signal co w)

  -- ContainerResize
  unfoldable pub container_resize : Str → World db.Table K → Response × World db.Table K
  container_resize id w =
      or_404 (get_container_by_name_or_id db id w.table) w (λ co. (status 200, w))

  -- ContainerRename: the name is written through the pointer before the container is saved.
  unfoldable pub rename_found : Str → Container → World db.Table K → Response × World db.Table K
  rename_found name co w = elim (get_container_by_name db name w.table) [
    | ok other ↦ (status 409, w)
    | err e ↦
        let co' : Container = record co { name = name } in
        let (w', bad) = save db be cfg fresh now co' (record w { table = db.poke co' w.table }) in
        if bad then (status 500, w') else (status 204, w')
  ]

  unfoldable pub container_rename : Str → Str → World db.Table K → Response × World db.Table K
  unfolding rename_found or_404
  container_rename id name w =
      or_404 (get_container_by_name_or_id db id w.table) w (λ co. rename_found name co w)

  -- ContainerDelete
  unfoldable pub delete_found : Container → World db.Table K → Response × World db.Table K
  unfolding delete_if_live
  delete_found co w =
      let (co1, w1) = signal_all co w in
      let w2 = delete_if_live co1 w1 in
      let w3 : World db.Table K =
        if not co1.stopped && not co1.killed then publish co1.id (codes "die") w2 else w2 in
      elim (delete_container db co1 w3.table) [
        | err e ↦ (status 404, record w3 { table = db.poke co1 w3.table })
        | ok t ↦ (status 204, record w3 { table = t })
      ]

  unfoldable pub container_delete : Str → World db.Table K → Response × World db.Table K
  unfolding delete_found or_404
  container_delete id w =
      or_404 (get_container_by_name_or_id db id w.table) w (λ co. delete_found co w)

  -- One tick of ContainerWait: none where it goes on. `allowed` is what the rate limiter says.
  unfoldable pub container_wait : Bool → Str → World db.Table K → Option Response × World db.Table K
  container_wait allowed id w = elim (get_container db id w.table) [
    | err e ↦ (some (status 200), w)
    | ok co ↦
        let (co1, w1) = update_container_status db be cfg fresh now allowed co w in
        if co1.stopped || co1.killed || co1.completed then (some (status 200), w1) else (none, w1)
  ]

  -- The loop of ContainerWait: what the rate limiter says at each tick until there is an answer.
  unfoldable pub container_wait_each :
      List Bool → Str → World db.Table K → Option Response × World db.Table K
  unfolding container_wait
  container_wait_each [] id w = (none, w)
  container_wait_each (allowed ∷ ticks) id w =
      let (answer, w1) = container_wait allowed id w in
      elim answer [ some r ↦ (some r, w1) | none ↦ container_wait_each ticks id w1 ]
