-- ===== src/Server/Containers/Coherent.antt =====
-- No handler leaves a container that is running and also completed, stopped or killed.
use kubedock.Base.{
  ℕ, ◌≡◌, inl, inr, refl, sym, subst, Bool, true, false, Option, none, some, Result, ok, err, arith,
  Str,
}
use kubedock.Base.Text.{codes}
use kubedock.Model.Error.{Error}
use kubedock.Model.Container.{Container}
use kubedock.Model.Database.{with_id, save_container, delete_container}
use kubedock.Model.Database.Tables.{Index, MemDb, IsMemDb}
use kubedock.Model.Database.Lookup.{container_keys}
use kubedock.Backend.Interface.{
  DeployState, pending, failed, running, completed, Backend, SameState, IsBackend,
}
use kubedock.Server.World.{Config, World, save, set_started, expose, start_container}

unfoldable pub IsCoherent : Container → Type 0
IsCoherent co =
    co.running ≡ true → (co.completed ≡ false) × (co.stopped ≡ false) × (co.killed ≡ false)

pub same-IsCoherent : (co co' : Container) → SameState co co' → IsCoherent co → IsCoherent co'
unfolding IsCoherent
same-IsCoherent co co' s h =
    ground (arith, s.same_running, s.same_completed, s.same_stopped, s.same_killed)

pub idle-IsCoherent : (co : Container) → co.running ≡ false → IsCoherent co
unfolding IsCoherent
idle-IsCoherent co h = ground arith

set_started-IsCoherent : (state : DeployState) (co : Container) → IsCoherent (set_started state co)
unfolding IsCoherent set_started
set_started-IsCoherent pending co = ground arith
set_started-IsCoherent failed co = ground arith
set_started-IsCoherent running co = ground arith
set_started-IsCoherent completed co = ground arith

with_id-IsCoherent :
    (fresh : Str) (now : ℕ) (co : Container) → IsCoherent co → IsCoherent (with_id fresh now co)
unfolding IsCoherent with_id
with_id-IsCoherent fresh now co h = ground arith

unfoldable pub AllCoherent : (db : MemDb Container) → db.Table → Type 0
AllCoherent db t =
    (i : Index) (k : Str) (co : Container) → db.first i k t ≡ ok (some co) → IsCoherent co

module _ (db : MemDb Container) (laws : IsMemDb container_keys db) where
  pub poke-AllCoherent :
      (co : Container) (t : db.Table)
      → IsCoherent co
      → AllCoherent db t
      → AllCoherent db (db.poke co t)
  unfolding AllCoherent
  poke-AllCoherent co t c all i k x f = elim (laws.poke_origin co t i k x f) [
    | inl e ↦ subst IsCoherent (sym e) c
    | inr (j, l, g) ↦ all j l x g
  ]

  pub insert-AllCoherent :
      (co : Container) (t t' : db.Table)
      → IsCoherent co
      → AllCoherent db t
      → db.insert co t ≡ ok t'
      → AllCoherent db t'
  unfolding AllCoherent
  insert-AllCoherent co t t' c all h i k x f = elim (laws.insert_origin co t t' i k x h f) [
    | inl e ↦ subst IsCoherent (sym e) c
    | inr (j, l, g) ↦ all j l x g
  ]

  pub delete-AllCoherent :
      (co : Container) (t t' : db.Table)
      → AllCoherent db t
      → delete_container db co t ≡ ok t'
      → AllCoherent db t'
  unfolding AllCoherent delete_container
  delete-AllCoherent co t t' all h i k x f =
      let (j, l, g) = laws.delete_origin co t t' i k x h f in all j l x g

module _ {K : Type 0} (db : MemDb Container) (be : Backend K) (cfg : Config) (fresh : Str) (now : ℕ)
    (laws : IsMemDb container_keys db) where
  save_fails :
      (co : Container) (w : World db.Table K) (e : Error)
      → db.insert (with_id fresh now co) w.table ≡ err e
      → (save db be cfg fresh now co w).0.table ≡ db.poke co w.table
  unfolding save save_container
  save_fails co w e h = ground arith

  save_succeeds :
      (co : Container) (w : World db.Table K) (t : db.Table)
      → db.insert (with_id fresh now co) w.table ≡ ok t
      → (save db be cfg fresh now co w).0.table ≡ t
  unfolding save save_container
  save_succeeds co w t h = ground arith

  saved-AllCoherent :
      (co : Container) (w : World db.Table K) (r : Result Error db.Table)
      → db.insert (with_id fresh now co) w.table ≡ r
      → IsCoherent co
      → AllCoherent db w.table
      → AllCoherent db (save db be cfg fresh now co w).0.table
  saved-AllCoherent co w (err e) h c all =
      subst (AllCoherent db) (sym (save_fails co w e h)) (poke-AllCoherent db laws co w.table c all)
  saved-AllCoherent co w (ok t) h c all = subst (AllCoherent db) (sym (save_succeeds co w t h)) (
      insert-AllCoherent db laws (with_id fresh now co) w.table t
        (with_id-IsCoherent fresh now co c) all h)

  pub save-AllCoherent :
      (co : Container) (w : World db.Table K)
      → IsCoherent co
      → AllCoherent db w.table
      → AllCoherent db (save db be cfg fresh now co w).0.table
  save-AllCoherent co w c all =
      saved-AllCoherent co w (db.insert (with_id fresh now co) w.table) refl c all

  module _ (isbe : IsBackend be) where
    exposed-IsCoherent :
        (co : Container) (k : K) (o : Option Str)
        → be.get_pod_ip (record co { host_ip = codes "0.0.0.0" }) k ≡ o
        → IsCoherent co
        → IsCoherent (expose db be cfg fresh now co k).1
    unfolding expose IsCoherent
    exposed-IsCoherent co k none e h =
        let co1 : Container = record co { host_ip = codes "0.0.0.0" } in
        ground
          (arith, same-IsCoherent co1 (be.create_port_forwards co1 k).1 (isbe.forward_same co1 k))
    exposed-IsCoherent co k (some ip) e h =
        let co1 : Container = record co { host_ip = codes "0.0.0.0" } in
        let co2 : Container = record co1 { host_ip = ip } in
        ground (
          arith,
          same-IsCoherent co1 (be.create_port_forwards co1 k).1 (isbe.forward_same co1 k),
          same-IsCoherent co2 (be.create_reverse_proxies co2 k).1 (isbe.proxy_same co2 k),
        )

    pub expose-IsCoherent :
        (co : Container) (k : K) → IsCoherent co → IsCoherent (expose db be cfg fresh now co k).1
    expose-IsCoherent co k h =
        exposed-IsCoherent co k (be.get_pod_ip (record co { host_ip = codes "0.0.0.0" }) k) refl h

    started : (co : Container) (k : K) → IsCoherent co → IsCoherent (be.start_container co k).1
    started co k c = same-IsCoherent co (be.start_container co k).1 (isbe.start_same co k) c

    -- the table of StartContainer, by its two errors
    started-AllCoherent :
        (co : Container) (w : World db.Table K) (bad bad' : Bool)
        → (be.start_container co w.cluster).3 ≡ bad
        → (expose db be cfg fresh now
            (be.start_container co w.cluster).1
            (be.start_container co w.cluster).0).2
          ≡ bad'
        → IsCoherent co
        → AllCoherent db w.table
        → AllCoherent db (start_container db be cfg fresh now co w).0.table
    unfolding start_container
    started-AllCoherent co w true bad' e e' c all = rw e (
        poke-AllCoherent db laws (be.start_container co w.cluster).1 w.table
          (started co w.cluster c) all)
    started-AllCoherent co w false true e e' c all =
        let (k1, co1, state, failure) = be.start_container co w.cluster in
        rw (e, e')
          (poke-AllCoherent db laws (expose db be cfg fresh now co1 k1).1 w.table
            (expose-IsCoherent co1 k1 (started co w.cluster c)) all)
    started-AllCoherent co w false false e e' c all =
        let (k1, co1, state, failure) = be.start_container co w.cluster in
        let (k2, co2, failure') = expose db be cfg fresh now co1 k1 in
        rw (e, e')
          (save-AllCoherent (set_started state co2) (record w { cluster = k2 })
            (set_started-IsCoherent state co2) all)

    pub start-AllCoherent :
        (co : Container) (w : World db.Table K)
        → IsCoherent co
        → AllCoherent db w.table
        → AllCoherent db (start_container db be cfg fresh now co w).0.table
    start-AllCoherent co w c all =
        started-AllCoherent co w (be.start_container co w.cluster).3
          (expose db be cfg fresh now (be.start_container co w.cluster).1
            (be.start_container co w.cluster).0).2
          refl refl c all
