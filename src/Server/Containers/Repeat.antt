-- ===== src/Server/Containers/Repeat.antt =====
-- What a second start or stop of the same container does.
use kubedock.Base.{
  ℕ, ◌≡◌, inl, inr, Bool-cases, refl, sym, ap, subst, ◌∙◌, true, false, List, [], ◌∷◌, ◌++◌, Option,
  none, some, is_nil, Result, ok, err, arith, Str,
}
use kubedock.Base.Text.{codes}
use kubedock.Util.StringId.{validate_id}
use kubedock.Model.Error.{Error}
use kubedock.Model.Container.{Container, signal_stop, signal_detach}
use kubedock.Model.Database.{get_container, save_container, with_id, id_index}
use kubedock.Model.Database.Tables.{by_id, MemDb, IsMemDb}
use kubedock.Model.Database.Lookup.{container_key, container_keys}
use kubedock.Model.Database.Store.{id_index_full}
use kubedock.Backend.Interface.{Backend, IsBackend, running}
use kubedock.Server.World.{
  Config, World, status, publish, save, signal_all, expose, set_started, start_container,
}
use kubedock.Server.Containers.{
  or_404, is_idle, start_found, container_start, delete_if_live, save_and_die, stop_found,
  container_stop, set_stopped,
}

append_nil : {A : Type 0} (xs : List A) → xs ++ [] ≡ xs
append_nil [] = refl
append_nil (x ∷ xs) = ap (λ ys. x ∷ ys) (append_nil xs)

pub valid_named : (s : Str) → validate_id s ≡ ok tt → is_nil s ≡ false
unfolding validate_id
valid_named s h = ground arith

both_idle : (co : Container) → co.running ≡ false → co.completed ≡ false → is_idle co ≡ true
unfolding is_idle
both_idle co r c = ground arith

running_busy : (co : Container) → co.running ≡ true → is_idle co ≡ false
unfolding is_idle
running_busy co r = ground arith

module _ {K : Type 0} (db : MemDb Container) (be : Backend K) (cfg : Config) (fresh : Str) (now : ℕ)
    (laws : IsMemDb container_keys db) where
  pub saved_by :
      (co : Container) (w : World db.Table K) (r : Result Error db.Table)
      → db.insert (with_id fresh now co) w.table ≡ r
      → is_nil co.id ≡ false
      → (save db be cfg fresh now co w).1 ≡ false
      → db.insert co w.table ≡ ok (save db be cfg fresh now co w).0.table
  unfolding save save_container with_id
  saved_by co w (err e) h named fine = ground arith
  saved_by co w (ok t) h named fine = ground arith

  -- what was saved is found by its id
  pub saved_found :
      (co : Container) (w : World db.Table K)
      → is_nil co.id ≡ false
      → id_index co.id ≡ by_id
      → (save db be cfg fresh now co w).1 ≡ false
      → get_container db co.id (save db be cfg fresh now co w).0.table ≡ ok co
  unfolding get_container container_key
  saved_found co w named full fine =
      let (found, short) =
        laws.insert_id co w.table (save db be cfg fresh now co w).0.table
          (saved_by co w (db.insert (with_id fresh now co) w.table) refl named fine) in
      ground arith

  -- a container that is stopped has nothing left to signal or to delete
  stop_again :
      (id : Str) (co : Container) (w : World db.Table K)
      → get_container db id w.table ≡ ok co
      → co.stopped ≡ true
      → co.stop_channels ≡ []
      → co.attach_channels ≡ []
      → ((container_stop db be cfg fresh now id w).1.cluster ≡ w.cluster)
        × ((container_stop db be cfg fresh now id w).1.signalled ≡ w.signalled)
  unfolding container_stop stop_found or_404 signal_all signal_stop signal_detach save_and_die
      delete_if_live publish save set_stopped
  stop_again id co w found stopped none_left none_attached =
      (ground arith, ground (arith, append_nil w.signalled))

  stopped :
      (id : Str) (co : Container) (w : World db.Table K)
      → get_container db id w.table ≡ ok co
      → is_nil co.id ≡ false
      → id_index co.id ≡ by_id
      → (container_stop db be cfg fresh now id w).0 ≡ status 204
      → get_container db co.id (container_stop db be cfg fresh now id w).1.table
        ≡ ok (set_stopped (signal_all co w).0)
  unfolding container_stop stop_found or_404 save_and_die publish set_stopped signal_all
  stopped id co w found named full fine =
      let (co1, w1) = signal_all co w in
      ground (
        arith,
        saved_found (set_stopped co1) (delete_if_live db be cfg fresh now co1 w1) named full,
      )

  -- A container with a full id is stopped, and the answer is 204: a second stop by its id changes
  -- nothing in the cluster and signals no channel.
  pub stop-stop :
      (id : Str) (co : Container) (w : World db.Table K)
      → get_container db id w.table ≡ ok co
      → validate_id co.id ≡ ok tt
      → (container_stop db be cfg fresh now id w).0 ≡ status 204
      → let w' = (container_stop db be cfg fresh now id w).1 in
        ((container_stop db be cfg fresh now co.id w').1.cluster ≡ w'.cluster)
        × ((container_stop db be cfg fresh now co.id w').1.signalled ≡ w'.signalled)
  unfolding set_stopped signal_all signal_stop signal_detach
  stop-stop id co w found full answered =
      stop_again co.id (set_stopped (signal_all co w).0) (container_stop db be cfg fresh now id w).1
        (stopped id co w found (valid_named co.id full) (id_index_full co.id full) answered) refl
        refl refl

  module _ (isbe : IsBackend be) where
    exposed_id :
        (co : Container) (k : K) (o : Option Str)
        → be.get_pod_ip (record co { host_ip = codes "0.0.0.0" }) k ≡ o
        → (expose db be cfg fresh now co k).1.id ≡ co.id
    unfolding expose
    exposed_id co k none e =
        ground (arith, (isbe.forward_same (record co { host_ip = codes "0.0.0.0" }) k).same_id)
    exposed_id co k (some ip) e = ground (
      arith,
      (isbe.forward_same (record co { host_ip = codes "0.0.0.0" }) k).same_id,
      (isbe.proxy_same (record co { host_ip = ip }) k).same_id,
    )

    expose-id : (co : Container) (k : K) → (expose db be cfg fresh now co k).1.id ≡ co.id
    expose-id co k =
        exposed_id co k (be.get_pod_ip (record co { host_ip = codes "0.0.0.0" }) k) refl

    -- the container that StartContainer saves
    abbrev result_of : Container → K → Container
    result_of co k =
        let (k1, co1, state, bad) = be.start_container co k in
        set_started state (expose db be cfg fresh now co1 k1).1

    result_running :
        (co : Container) (k : K)
        → (be.start_container co k).2 ≡ running
        → (result_of co k).running ≡ true
    unfolding set_started
    result_running co k h = rw h refl

    result_of-id : (co : Container) (k : K) → (result_of co k).id ≡ co.id
    unfolding set_started
    result_of-id co k =
        let (k1, co1, state, bad) = be.start_container co k in
        expose-id co1 k1 ∙ (isbe.start_same co k).same_id

    start_saved :
        (co : Container) (w : World db.Table K)
        → (start_container db be cfg fresh now co w).1 ≡ false
        → (k2 : K) × (start_container db be cfg fresh now co w
            ≡ save db be cfg fresh now (result_of co w.cluster) (record w { cluster = k2 }))
    unfolding start_container
    start_saved co w fine =
        let (k1, co1, state, bad) = be.start_container co w.cluster in
        ((expose db be cfg fresh now co1 k1).0, ground arith)

    -- the container is found by its id after StartContainer
    start_found_after :
        (co : Container) (w : World db.Table K)
        → validate_id co.id ≡ ok tt
        → (start_container db be cfg fresh now co w).1 ≡ false
        → get_container db co.id (start_container db be cfg fresh now co w).0.table
          ≡ ok (result_of co w.cluster)
    start_found_after co w full fine =
        let (k2, e) = start_saved co w fine in
        let co' = result_of co w.cluster in
        let w1 : World db.Table K = record w { cluster = k2 } in
        let same = result_of-id co w.cluster in
        let named : is_nil co'.id ≡ false = rw same (valid_named co.id full) in
        let indexed : id_index co'.id ≡ by_id = rw same (id_index_full co.id full) in
        let saved : (save db be cfg fresh now co' w1).1 ≡ false = sym (ap (λ r. r.1) e) ∙ fine in
        subst (λ x. get_container db x (start_container db be cfg fresh now co w).0.table ≡ ok co')
          same
          (subst (λ r. get_container db co'.id r.0.table ≡ ok co') (sym e)
            (saved_found co' w1 named indexed saved))

    idle_start :
        (id : Str) (co : Container) (w : World db.Table K)
        → get_container db id w.table ≡ ok co
        → is_idle co ≡ true
        → (container_start db be cfg fresh now id w).0 ≡ status 204
        → ((start_container db be cfg fresh now co w).1 ≡ false)
          × ((container_start db be cfg fresh now id w).1
              ≡ publish co.id (codes "start") (start_container db be cfg fresh now co w).0)
    unfolding container_start or_404 start_found
    idle_start id co w found idle answered =
        elim (Bool-cases (start_container db be cfg fresh now co w).1) [
          | inl bad ↦ absurd (ground arith)
          | inr good ↦ (good, ground arith)
        ]

    busy_start :
        (id : Str) (co : Container) (w : World db.Table K)
        → get_container db id w.table ≡ ok co
        → is_idle co ≡ false
        → container_start db be cfg fresh now id w ≡ (status 204, publish co.id (codes "start") w)
    unfolding container_start or_404 start_found
    busy_start id co w found busy = ground arith

    -- A container with a full id that is neither running nor completed is started, the cluster
    -- reports it as running and the answer is 204: it is found as running by its id, and a second
    -- start answers 204 and changes neither the table nor the cluster.
    pub start-start :
        (id : Str) (co : Container) (w : World db.Table K)
        → get_container db id w.table ≡ ok co
        → validate_id co.id ≡ ok tt
        → co.running ≡ false
        → co.completed ≡ false
        → (be.start_container co w.cluster).2 ≡ running
        → (container_start db be cfg fresh now id w).0 ≡ status 204
        → let w' = (container_start db be cfg fresh now id w).1 in
          ((started : Container) × (get_container db co.id w'.table ≡ ok started)
            × (started.running ≡ true))
          × ((container_start db be cfg fresh now co.id w').0 ≡ status 204)
          × ((container_start db be cfg fresh now co.id w').1.table ≡ w'.table)
          × ((container_start db be cfg fresh now co.id w').1.cluster ≡ w'.cluster)
    unfolding publish
    start-start id co w found full not_running not_completed state answered =
        let (good, e) =
          idle_start id co w found (both_idle co not_running not_completed) answered in
        let w' = (container_start db be cfg fresh now id w).1 in
        let co' = result_of co w.cluster in
        let on : co'.running ≡ true = result_running co w.cluster state in
        let later : get_container db co.id w'.table ≡ ok co' =
          subst (λ u. get_container db co.id u.table ≡ ok co') (sym e)
            (start_found_after co w full good) in
        let again = busy_start co.id co' w' later (running_busy co' on) in
        (
          (co', later, on),
          ap (λ r. r.0) again,
          ap (λ r. r.1.table) again,
          ap (λ r. r.1.cluster) again,
        )
