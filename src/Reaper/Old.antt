-- ===== src/Reaper/Old.antt =====
-- The reaper deletes what is too old, and nothing else.
use kubedock.Base.{
  ℕ, ◌≡◌, refl, inl, inr, Bool, false, ◌&&◌, List, [], ◌∷◌, none, any_of, if◌then◌else◌, Bool-cases,
  ok, result-cases, arith, Str, str_eq, str_eq_iff,
}
use kubedock.Model.Container.{Container}
use kubedock.Model.Records.{Exec}
use kubedock.Model.Database.{get_containers, delete_container, get_execs, delete_exec}
use kubedock.Model.Database.Tables.{by_id, MemDb, IsMemDb, Keyed}
use kubedock.Model.Database.Lookup.{container_key, container_keys, exec_key, exec_keys}
use kubedock.Backend.Interface.{Backend}
use kubedock.Server.Containers.Coherent.{AllCoherent, delete-AllCoherent}
use kubedock.Reaper.{
  is_old, clean_each, exec_reap_max, Reaped, clean_containers, reap, clean_execs, clean,
}

-- Some record of the list is too old and has the id.
unfoldable pub has_old : {R : Type 0} → (R → Str) → (R → Bool) → Str → List R → Bool
has_old key old id rs = any_of (λ r. old r && str_eq (key r) id) rs

module _ {R K : Type 0} (keys : Keyed R) (db : MemDb R) (laws : IsMemDb keys db)
    (effect : R → K → K) (old : R → Bool) where
  -- the table of the loop, by the ids that are found in it
  cleaned :
      (rs : List R) (k : K) (t : db.Table) (id : Str)
      → (clean_each effect (λ r t1. db.delete r t1) old rs k t).2 ≡ false
      → db.first by_id id (clean_each effect (λ r t1. db.delete r t1) old rs k t).1
        ≡ (if has_old (λ r. keys.key by_id r) old id rs then ok none else db.first by_id id t)
  unfolding clean_each has_old any_of
  cleaned [] k t id fine = refl
  cleaned (r ∷ more) k t id fine = elim (Bool-cases (old r)) [
    | inr young ↦ ground (arith, cleaned more k t id)
    | inl aged ↦ elim (result-cases (db.delete r t)) [
      | inr (e, d) ↦ absurd (ground arith)
      | inl (t', d) ↦
          let (gone, rest) = laws.delete_id r t t' d in
          ground (
            arith,
            cleaned more (effect r k) t' id,
            rest id,
            gone,
            str_eq_iff (keys.key by_id r) id,
          )
    ]
  ]

module _ {K : Type 0} (db : MemDb Container) (exs : MemDb Exec) (be : Backend K) (keep_max now : ℕ)
    (laws : IsMemDb container_keys db) (exec_laws : IsMemDb exec_keys exs) where
  -- If no delete in the database fails, a round of the reaper leaves of the containers exactly those
  -- that are not older than the limit, and of the execs those that are not older than five minutes,
  -- as far as they are found by their ids; and it publishes no event and signals no channel, so that
  -- the forwards of the containers that it deletes are not stopped.
  pub clean_lem :
      (s : Reaped db.Table exs.Table K) (id : Str)
      → (clean_containers db be keep_max now s.world.cluster s.world.table).2 ≡ false
      → (clean_execs exs now s.execs).2 ≡ false
      → let s' = clean db exs be keep_max now s in
        (db.first by_id id s'.world.table ≡ (
          if has_old
            (λ co. co.id)
            (λ co. is_old now keep_max co.created)
            id
            (get_containers db s.world.table)
          then ok none
          else db.first by_id id s.world.table))
        × (exs.first by_id id s'.execs ≡ (
            if has_old
              (λ exc. exc.id)
              (λ exc. is_old now exec_reap_max exc.created)
              id
              (get_execs exs s.execs)
            then ok none
            else exs.first by_id id s.execs))
        × (s'.world.events ≡ s.world.events)
        × (s'.world.signalled ≡ s.world.signalled)
  unfolding clean reap clean_containers clean_execs delete_container delete_exec container_key
      exec_key
  clean_lem s id fine fine' = (
    cleaned container_keys db laws (λ co k1. (be.delete_container co k1).0)
        (λ co. is_old now keep_max co.created) (get_containers db s.world.table) s.world.cluster
        s.world.table id fine,
    cleaned exec_keys exs exec_laws (λ exc u. u) (λ exc. is_old now exec_reap_max exc.created)
        (get_execs exs s.execs) tt s.execs id fine',
    refl,
    refl,
  )

-- What the reaper leaves in the table was there before.
module _ {K : Type 0} (db : MemDb Container) (laws : IsMemDb container_keys db) where
  pub cleaned-AllCoherent :
      (effect : Container → K → K) (old : Container → Bool) (rs : List Container) (k : K)
      (t : db.Table)
      → AllCoherent db t
      → AllCoherent db (clean_each effect (λ co t1. delete_container db co t1) old rs k t).1
  unfolding clean_each
  cleaned-AllCoherent effect old [] k t all = all
  cleaned-AllCoherent effect old (r ∷ more) k t all = elim (Bool-cases (old r)) [
    | inr young ↦ rw young (cleaned-AllCoherent effect old more k t all)
    | inl aged ↦ elim (result-cases (delete_container db r t)) [
      | inr (e, d) ↦ rw (aged, d) all
      | inl (t', d) ↦
          rw (aged, d)
            (cleaned-AllCoherent effect old more (effect r k) t'
              (delete-AllCoherent db laws r t t' all d))
    ]
  ]
