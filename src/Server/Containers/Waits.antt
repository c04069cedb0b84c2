-- ===== src/Server/Containers/Waits.antt =====
-- How long ContainerWait of internal/server/routes/docker/containers.go waits.
pub mod Tests
use kubedock.Base.{
  ℕ, ◌≡◌, inl, inr, Bool-cases, refl, ap, subst, sym, ◌∙◌, Bool, true, false, ◌&&◌, ◌||◌, not, List,
  [], ◌∷◌, Option, none, some, any_of, if◌then◌else◌, ok, arith, Str,
}
use kubedock.Util.StringId.{validate_id}
use kubedock.Model.Container.{Container}
use kubedock.Model.Database.{get_container, id_index}
use kubedock.Model.Database.Tables.{by_id, MemDb, IsMemDb}
use kubedock.Model.Database.Lookup.{container_key, container_keys}
use kubedock.Model.Database.Store.{id_index_full}
use kubedock.Backend.Interface.{DeployState, completed, Backend}
use kubedock.Server.World.{
  Config, World, Response, status, is_state, new_status, update_container_status,
}
use kubedock.Server.Containers.{container_wait, container_wait_each}

module _ {K : Type 0} (db : MemDb Container) (be : Backend K) (cfg : Config) (fresh : Str) (now : ℕ)
    (laws : IsMemDb container_keys db) where
  -- The container is in the table under its id, and nothing ends a wait for it.
  record Waited (id : Str) (co : Container) (t : db.Table) : Type 0 where
    found : db.first by_id id t ≡ ok (some co)
    own : co.id ≡ id
    not_completed : co.completed ≡ false
    not_stopped : co.stopped ≡ false
    not_killed : co.killed ≡ false

  looked_up :
      (id : Str) (co : Container) (t : db.Table)
      → validate_id id ≡ ok tt
      → db.first by_id id t ≡ ok (some co)
      → get_container db id t ≡ ok co
  unfolding get_container
  looked_up id co t full found = ground (arith, id_index_full id full)

  poked :
      (id : Str) (co co' : Container) (t : db.Table)
      → db.first by_id id t ≡ ok (some co)
      → co'.id ≡ id
      → db.first by_id id (db.poke co' t) ≡ ok (some co')
  unfolding container_key
  poked id co co' t found own =
      subst (λ k. db.first by_id k (db.poke co' t) ≡ ok (some co')) own
        (laws.poke_id co' co t (subst (λ k. db.first by_id k t ≡ ok (some co)) (sym own) found))

  -- what a tick answers about a container that it finds
  answer : Container → Option Response
  answer co = if co.stopped || co.killed || co.completed then some (status 200) else none

  tick :
      (allowed : Bool) (id : Str) (co : Container) (w : World db.Table K)
      → get_container db id w.table ≡ ok co
      → let co' = new_status db be cfg fresh now allowed co w.cluster in
        container_wait db be cfg fresh now allowed id w
        ≡ (answer co', record w { table = db.poke co' w.table })
  unfolding container_wait update_container_status answer
  tick allowed id co w found = ground arith

  status_fields :
      (allowed : Bool) (co : Container) (k : K) (s : DeployState) (bad : Bool)
      → be.get_container_status co k ≡ (s, bad)
      → co.completed ≡ false
      → let co' = new_status db be cfg fresh now allowed co k in
        (co'.id ≡ co.id)
        × (co'.stopped ≡ co.stopped)
        × (co'.killed ≡ co.killed)
        × (co'.completed ≡ (is_state s completed && allowed))
        × (co'.running ≡ (co.running && not (is_state s completed && allowed)))
  unfolding new_status
  status_fields allowed co k s bad h c =
      (ground arith, ground arith, ground arith, ground arith, ground arith)

  -- A wait is answered exactly if it is allowed to see that the pod completed; until then the
  -- container stays running.
  unfoldable Ends : Bool → Str → Container → Option Response × World db.Table K → Type 0
  Ends ends id co (r, w) =
      (r ≡ (if ends then some (status 200) else none))
      × (co' : Container) × (db.first by_id id w.table ≡ ok (some co'))
      × (co'.running ≡ (co.running && not ends))

  go_on :
      (allowed : Bool) (ticks : List Bool) (id : Str) (w w1 : World db.Table K)
      (r : Option Response)
      → container_wait db be cfg fresh now allowed id w ≡ (r, w1)
      → container_wait_each db be cfg fresh now (allowed ∷ ticks) id w ≡ (elim r [
        | some x ↦ (some x, w1)
        | none ↦ container_wait_each db be cfg fresh now ticks id w1
      ])
  unfolding container_wait_each
  go_on allowed ticks id w w1 r h =
      ap
        (λ p. elim p.0 [
          | some x ↦ (some x, p.1)
          | none ↦ container_wait_each db be cfg fresh now ticks id p.1
        ])
        h

  first_ends :
      (e allowed : Bool) (ticks : List Bool) (id : Str) (co co' : Container)
      (w w1 : World db.Table K)
      → container_wait db be cfg fresh now allowed id w ≡ (some (status 200), w1)
      → e ≡ true
      → db.first by_id id w1.table ≡ ok (some co')
      → co'.running ≡ false
      → Ends e id co (container_wait_each db be cfg fresh now (allowed ∷ ticks) id w)
  unfolding Ends
  first_ends e allowed ticks id co co' w w1 h seen found idle =
      subst (Ends e id co) (sym (go_on allowed ticks id w w1 (some (status 200)) h))
        (ground arith, co', found, ground arith)

  later_ends :
      (e e' allowed : Bool) (ticks : List Bool) (id : Str) (co co' : Container)
      (w w1 : World db.Table K)
      → container_wait db be cfg fresh now allowed id w ≡ (none, w1)
      → e' ≡ e
      → co'.running ≡ co.running
      → Ends e' id co' (container_wait_each db be cfg fresh now ticks id w1)
      → Ends e id co (container_wait_each db be cfg fresh now (allowed ∷ ticks) id w)
  unfolding Ends
  later_ends e e' allowed ticks id co co' w w1 h same kept (answered, co2, found, running) =
      subst (Ends e id co) (sym (go_on allowed ticks id w w1 none h))
        (ground arith, co2, found, ground arith)

  answer_ends :
      (co : Container)
      → co.stopped ≡ false
      → co.killed ≡ false
      → answer co ≡ (if co.completed then some (status 200) else none)
  unfolding answer
  answer_ends co s k = ground arith

  answered_by :
      (co : Container)
      → co.completed ≡ true
      → answer co ≡ (if co.completed then some (status 200) else none)
      → answer co ≡ some (status 200)
  answered_by co c h = ground arith

  silent_by :
      (co : Container)
      → co.completed ≡ false
      → answer co ≡ (if co.completed then some (status 200) else none)
      → answer co ≡ none
  silent_by co c h = ground arith

  waits :
      (ticks : List Bool) (id : Str) (co : Container) (w : World db.Table K) (s : DeployState)
      (bad : Bool)
      → validate_id id ≡ ok tt
      → Waited id co w.table
      → ((x : Container) → x.id ≡ id → be.get_container_status x w.cluster ≡ (s, bad))
      → Ends
          (is_state s completed && any_of (λ a. a) ticks)
          id
          co
          (container_wait_each db be cfg fresh now ticks id w)
  unfolding Ends any_of container_wait_each
  waits [] id co w s bad full waited st = (ground arith, co, waited.found, ground arith)
  waits (allowed ∷ ticks) id co w s bad full waited st =
      let co' = new_status db be cfg fresh now allowed co w.cluster in
      let w1 : World db.Table K = record w { table = db.poke co' w.table } in
      let (own, stopped, killed, done, running) =
        status_fields allowed co w.cluster s bad (st co waited.own) waited.not_completed in
      let found = poked id co co' w.table waited.found (own ∙ waited.own) in
      let one = tick allowed id co w (looked_up id co w.table full waited.found) in
      let says = answer_ends co' (stopped ∙ waited.not_stopped) (killed ∙ waited.not_killed) in
      elim (Bool-cases (is_state s completed && allowed)) [
        | inl seen ↦
            first_ends (is_state s completed && any_of (λ a. a) (allowed ∷ ticks)) allowed ticks id
              co co' w w1 (one ∙ ap (λ r. (r, w1)) (answered_by co' (done ∙ seen) says))
              (ground arith) found (ground arith)
        | inr unseen ↦
            later_ends (is_state s completed && any_of (λ a. a) (allowed ∷ ticks))
              (is_state s completed && any_of (λ a. a) ticks) allowed ticks id co co' w w1
              (one ∙ ap (λ r. (r, w1)) (silent_by co' (done ∙ unseen) says)) (ground arith)
              (ground arith)
              (waits ticks id co' w1 s bad full
                record {
                  found = found;
                  own = own ∙ waited.own;
                  not_completed = ground arith;
                  not_stopped = stopped ∙ waited.not_stopped;
                  not_killed = killed ∙ waited.not_killed;
                }
                st)
      ]

  -- A wait for a container of the table, by its full id, that is not stopped, killed or completed,
  -- where each call for the state of its pod says the same, is answered exactly if that state is
  -- completed and the rate limiter allows one of the ticks; until then it is shown as running if
  -- it was before. No number of ticks ends it where the pod has failed.
  pub container_wait_each_lem :
      (ticks : List Bool) (id : Str) (co : Container) (w : World db.Table K) (s : DeployState)
      (bad : Bool)
      → validate_id id ≡ ok tt
      → db.first by_id id w.table ≡ ok (some co)
      → co.id ≡ id
      → co.completed ≡ false
      → co.stopped ≡ false
      → co.killed ≡ false
      → ((x : Container) → x.id ≡ id → be.get_container_status x w.cluster ≡ (s, bad))
      → let ends = is_state s completed && any_of (λ a. a) ticks in
        let (answered, w') = container_wait_each db be cfg fresh now ticks id w in
        (answered ≡ (if ends then some (status 200) else none))
        × (co' : Container) × (db.first by_id id w'.table ≡ ok (some co'))
        × (co'.running ≡ (co.running && not ends))
  unfolding Ends
  container_wait_each_lem ticks id co w s bad full found own c t k st =
      waits ticks id co w s bad full
        record { found = found; own = own; not_completed = c; not_stopped = t; not_killed = k } st
