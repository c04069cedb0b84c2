-- ===== src/Server/Containers/Steps.antt =====
-- What holds in every state that the requests about containers reach.
use kubedock.Base.{ℕ, ◌≡◌, refl, sym, subst, Bool, true, false, [], Result, ok, err, arith, Str}
use kubedock.Model.Error.{Error}
use kubedock.Model.Container.{Container}
use kubedock.Model.Database.{get_containers, get_container, get_container_by_name_or_id}
use kubedock.Model.Database.Tables.{MemDb, IsMemDb}
use kubedock.Model.Database.Lookup.{container_keys}
use kubedock.Backend.Interface.{Backend, IsBackend}
use kubedock.Server.World.{Config, World, Response, status, new_status, update_container_status}
use kubedock.Server.Containers.{
  or_404, start_found, container_start, restart_found, container_restart, stop_found,
  container_stop, kill_found, container_kill, container_resize, rename_found, container_rename,
  delete_found, container_delete, container_wait,
}
use kubedock.Model.Records.{Network, Image}
use kubedock.Server.Containers.Created.{create-AllCoherent}
use kubedock.Server.Containers.Preserve.{
  Fine, start_found-Fine, restart_found-Fine, stop_found-Fine, kill_found-Fine, rename_found-Fine,
  delete_found-Fine, new_status-IsCoherent, get_container-IsCoherent, get_by_name_or_id-IsCoherent,
}
use kubedock.Reaper.{is_old, clean_containers, reap}
use kubedock.Reaper.Old.{cleaned-AllCoherent}
use kubedock.Server.Containers.Beside.{put_archive-Fine, container_logs-Fine}
use kubedock.Server.Containers.Joined.{networks_connect-Fine, networks_disconnect-Fine}
use kubedock.Server.Libpod
use kubedock.Server.Inspect
use kubedock.Server.Libpod.Agree.{container_delete_agrees}
use kubedock.Server.Containers.Coherent.{IsCoherent, AllCoherent, poke-AllCoherent}
-- A request, by the handler that answers it, a round of the reaper, or a change in the cluster.
use kubedock.Server.Containers.Requests.{
  Step, starts, restarts, stops, kills, resizes, renames, deletes, waits, creates, libpod_waits,
  libpod_deletes, libpod_creates, inspects, libpod_inspects, puts, logs, connects, disconnects,
  reaps, moves, Steps, done, then_step,
}

or_404-Fine :
    {K : Type 0} (db : MemDb Container) (r : Result Error Container) (w : World db.Table K)
    (f : Container → Response × World db.Table K)
    → ((co : Container) → r ≡ ok co → Fine db (f co).1)
    → Fine db w
    → Fine db (or_404 r w f).1
unfolding or_404
or_404-Fine db (err e) w f h all = all
or_404-Fine db (ok co) w f h all = h co refl

module _ {K : Type 0} (db : MemDb Container) (be : Backend K) (cfg : Config) (nws : MemDb Network)
    (imgs : MemDb Image) (laws : IsMemDb container_keys db) (isbe : IsBackend be) where
  wait_found :
      (fresh : Str) (now : ℕ) (allowed : Bool) (id : Str) (w : World db.Table K) (co : Container)
      → get_container db id w.table ≡ ok co
      → (container_wait db be cfg fresh now allowed id w).1.table
        ≡ db.poke (new_status db be cfg fresh now allowed co w.cluster) w.table
  unfolding container_wait update_container_status
  wait_found fresh now allowed id w co h = ground arith

  wait_lost :
      (fresh : Str) (now : ℕ) (allowed : Bool) (id : Str) (w : World db.Table K) (e : Error)
      → get_container db id w.table ≡ err e
      → (container_wait db be cfg fresh now allowed id w).1.table ≡ w.table
  unfolding container_wait
  wait_lost fresh now allowed id w e h = ground arith

  wait-Fine :
      (fresh : Str) (now : ℕ) (allowed : Bool) (id : Str) (w : World db.Table K)
      (r : Result Error Container)
      → get_container db id w.table ≡ r
      → Fine db w
      → Fine db (container_wait db be cfg fresh now allowed id w).1
  wait-Fine fresh now allowed id w (err e) h all =
      subst (AllCoherent db) (sym (wait_lost fresh now allowed id w e h)) all
  wait-Fine fresh now allowed id w (ok co) h all =
      subst (AllCoherent db) (sym (wait_found fresh now allowed id w co h)) (
        poke-AllCoherent db laws (new_status db be cfg fresh now allowed co w.cluster) w.table
          (new_status-IsCoherent db be cfg fresh now laws isbe allowed co w.cluster
            (get_container-IsCoherent db be cfg fresh now laws isbe id w.table co all h))
          all)

  -- the details of a container leave the state as podman's wait does
  inspect_waits :
      (fresh : Str) (now : ℕ) (networks : nws.Table) (allowed : Bool) (id : Str)
      (w : World db.Table K)
      → ((Inspect.container_info db nws be networks cfg fresh now allowed id w).2
          ≡ (Libpod.container_wait db be cfg fresh now allowed id w).1)
        × ((Libpod.Inspect.container_info db nws be networks cfg fresh now allowed id w).2
            ≡ (Libpod.container_wait db be cfg fresh now allowed id w).1)
  unfolding Inspect.container_info Inspect.inspect Libpod.Inspect.container_info
      Libpod.Inspect.get_container_info Libpod.container_wait update_container_status
  inspect_waits fresh now networks allowed id w = (ground arith, ground arith)

  delete-Fine :
      (fresh : Str) (now : ℕ) (id : Str) (v : World db.Table K)
      → Fine db v
      → Fine db (container_delete db be cfg fresh now id v).1
  unfolding container_delete
  delete-Fine fresh now id v all =
      or_404-Fine db (get_container_by_name_or_id db id v.table) v
        (λ co. delete_found db be cfg fresh now co v)
        (λ co h.
          delete_found-Fine db be cfg fresh now laws isbe co v
            (get_by_name_or_id-IsCoherent db be cfg fresh now laws isbe id v.table co all h) all)
        all

  Step-Fine : (v w : World db.Table K) → Step db be cfg nws imgs v w → Fine db v → Fine db w
  unfolding reap clean_containers container_start container_restart container_stop container_kill
      container_resize container_rename container_delete
  Step-Fine _ _ (starts fresh now id v) all =
      or_404-Fine db (get_container db id v.table) v (λ co. start_found db be cfg fresh now co v)
        (λ co h.
          start_found-Fine db be cfg fresh now laws isbe co v
            (get_container-IsCoherent db be cfg fresh now laws isbe id v.table co all h) all)
        all
  Step-Fine _ _ (restarts fresh now id v) all =
      or_404-Fine db (get_container db id v.table) v (λ co. restart_found db be cfg fresh now co v)
        (λ co h. restart_found-Fine db be cfg fresh now laws isbe co v all) all
  Step-Fine _ _ (stops fresh now id v) all =
      or_404-Fine db (get_container db id v.table) v (λ co. stop_found db be cfg fresh now co v)
        (λ co h. stop_found-Fine db be cfg fresh now laws isbe co v all) all
  Step-Fine _ _ (kills fresh now id signal v) all =
      or_404-Fine db (get_container_by_name_or_id db id v.table) v
        (λ co. kill_found db be cfg fresh now signal co v)
        (λ co h. kill_found-Fine db be cfg fresh now laws isbe signal co v all) all
  Step-Fine _ _ (resizes fresh now id v) all =
      or_404-Fine db (get_container_by_name_or_id db id v.table) v (λ co. (status 200, v))
        (λ co h. all) all
  Step-Fine _ _ (renames fresh now id name v) all =
      or_404-Fine db (get_container_by_name_or_id db id v.table) v
        (λ co. rename_found db be cfg fresh now name co v)
        (λ co h.
          rename_found-Fine db be cfg fresh now laws isbe name co v
            (get_by_name_or_id-IsCoherent db be cfg fresh now laws isbe id v.table co all h) all)
        all
  Step-Fine _ _ (deletes fresh now id v) all = delete-Fine fresh now id v all
  Step-Fine _ _ (waits fresh now allowed id v) all =
      wait-Fine fresh now allowed id v (get_container db id v.table) refl all
  Step-Fine _ _ (creates fresh now networks images body q v) all =
      create-AllCoherent db nws imgs networks images cfg fresh now laws body q v all
  Step-Fine _ _ (libpod_waits fresh now allowed id v) all =
      Libpod.Coherent.wait-AllCoherent db be cfg laws isbe fresh now allowed id v all
  Step-Fine _ _ (libpod_deletes fresh now id v) all =
      subst (Fine db) (sym (container_delete_agrees db be cfg fresh now id v).0)
        (delete-Fine fresh now id v all)
  Step-Fine _ _ (libpod_creates fresh now networks images body q v) all =
      Libpod.Coherent.create-AllCoherent db nws imgs networks images cfg fresh now laws body q v all
  Step-Fine _ _ (inspects fresh now networks allowed id v) all =
      subst (Fine db) (sym (inspect_waits fresh now networks allowed id v).0)
        (Libpod.Coherent.wait-AllCoherent db be cfg laws isbe fresh now allowed id v all)
  Step-Fine _ _ (libpod_inspects fresh now networks allowed id v) all =
      subst (Fine db) (sym (inspect_waits fresh now networks allowed id v).1)
        (Libpod.Coherent.wait-AllCoherent db be cfg laws isbe fresh now allowed id v all)
  Step-Fine _ _ (puts cli list fresh now id path body v) all =
      put_archive-Fine db be cfg fresh now laws isbe cli list id path body v all
  Step-Fine _ _ (logs id q hijacked stop v) all =
      container_logs-Fine db be cfg [] 0 laws isbe id q hijacked stop v all
  Step-Fine _ _ (connects fresh now networks body id v) all =
      networks_connect-Fine db be cfg fresh now laws isbe nws
        (record { containers = v.table; networks = networks }) v refl body id all
  Step-Fine _ _ (disconnects fresh now networks body id v) all =
      networks_disconnect-Fine db be cfg fresh now laws isbe nws
        (record { containers = v.table; networks = networks }) v refl body id all
  Step-Fine _ _ (reaps keep_max now v) all =
      cleaned-AllCoherent db laws (λ co k. (be.delete_container co k).0)
        (λ co. is_old now keep_max co.created) (get_containers db v.table) v.cluster v.table all
  Step-Fine _ _ (moves k v) all = all

  Steps-Fine : (v w : World db.Table K) → Steps db be cfg nws imgs v w → Fine db v → Fine db w
  Steps-Fine _ _ (done v) all = all
  Steps-Fine _ _ (then_step u v w s ss) all = Steps-Fine v w ss (Step-Fine u v s all)

  -- Whatever requests to start, restart, stop, kill, resize, rename, wait for, delete or create a
  -- container, to put an archive into it, to send its logs, to connect it to a network or
  -- disconnect it, or for its details, docker's or podman's, are handled in whatever order,
  -- whatever the reaper deletes and however the cluster changes in between: if the backend's start,
  -- forwards and proxies leave the ids, the name and the state of a container alone, and every
  -- container of the table is coherent at first, then a container that is found afterwards by a
  -- name or an id is not running and at the same time completed, stopped or killed.
  pub Steps-IsCoherent :
      (v w : World db.Table K) (k : Str) (co : Container)
      → Steps db be cfg nws imgs v w
      → AllCoherent db v.table
      → get_container_by_name_or_id db k w.table ≡ ok co
      → co.running ≡ true
      → (co.completed ≡ false) × (co.stopped ≡ false) × (co.killed ≡ false)
  unfolding IsCoherent
  Steps-IsCoherent v w k co ss all h =
      get_by_name_or_id-IsCoherent db be cfg [] 0 laws isbe k w.table co (Steps-Fine v w ss all) h
