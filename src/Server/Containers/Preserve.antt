-- ===== src/Server/Containers/Preserve.antt =====
-- Each handler leaves every container of the table coherent.
use kubedock.Base.{
  result-cases, ℕ, ◌≡◌, inl, inr, refl, sym, subst, Bool, false, ◌&&◌, not, Bool-cases, ok, err,
  arith, Str,
}
use kubedock.Base.Text.{split}
use kubedock.Model.Error.{Error}
use kubedock.Model.Container.{Container}
use kubedock.Model.Database.{
  get_container, get_container_by_name, get_container_by_name_or_id, delete_container,
  first_or_error, id_index, last_of,
}
use kubedock.Model.Database.Tables.{by_name, MemDb, IsMemDb}
use kubedock.Model.Database.Lookup.{container_keys}
use kubedock.Backend.Interface.{Backend, IsBackend}
use kubedock.Server.World.{Config, World, publish, signal_all, save, start_container, new_status}
use kubedock.Server.Containers.{
  start_found, restart_found, save_and_die, delete_if_live, stop_found, kill_found, rename_found,
  delete_found, set_stopped, set_killed, is_handled, is_idle,
}
use kubedock.Server.Containers.Coherent.{
  IsCoherent, AllCoherent, idle-IsCoherent, poke-AllCoherent, delete-AllCoherent, save-AllCoherent,
  start-AllCoherent,
}

abbrev pub Fine : {K : Type 0} (db : MemDb Container) → World db.Table K → Type 0
Fine db w = AllCoherent db w.table

module _ {K : Type 0} (db : MemDb Container) (be : Backend K) (cfg : Config) (fresh : Str) (now : ℕ)
    (laws : IsMemDb container_keys db) (isbe : IsBackend be) where
  pub start_found-Fine :
      (co : Container) (w : World db.Table K)
      → IsCoherent co
      → Fine db w
      → Fine db (start_found db be cfg fresh now co w).1
  unfolding start_found publish
  start_found-Fine co w c all =
      let w' = start_container db be cfg fresh now co w in
      elim (Bool-cases (is_idle co)) [
        | inl idle ↦ (elim (Bool-cases w'.1) [
          | inl bad ↦ rw (idle, bad) (start-AllCoherent db be cfg fresh now laws isbe co w c all)
          | inr good ↦ rw (idle, good) (start-AllCoherent db be cfg fresh now laws isbe co w c all)
        ])
        | inr busy ↦ rw busy all
      ]

  save_and_die-Fine :
      (co : Container) (w : World db.Table K)
      → co.running ≡ false
      → Fine db w
      → Fine db (save_and_die db be cfg fresh now co w).1
  unfolding save_and_die publish
  save_and_die-Fine co w idle all = elim (Bool-cases (save db be cfg fresh now co w).1) [
    | inl bad ↦
        rw bad (save-AllCoherent db be cfg fresh now laws co w (idle-IsCoherent co idle) all)
    | inr good ↦
        rw good (save-AllCoherent db be cfg fresh now laws co w (idle-IsCoherent co idle) all)
  ]

  delete_if_live-Fine :
      (co : Container) (w : World db.Table K)
      → Fine db w
      → Fine db (delete_if_live db be cfg fresh now co w)
  unfolding delete_if_live
  delete_if_live-Fine co w all = elim (Bool-cases (not co.stopped && not co.killed)) [
    | inl l ↦ rw l all
    | inr l ↦ rw l all
  ]

  pub stop_found-Fine :
      (co : Container) (w : World db.Table K)
      → Fine db w
      → Fine db (stop_found db be cfg fresh now co w).1
  unfolding stop_found signal_all set_stopped
  stop_found-Fine co w all =
      let (co1, w1) = signal_all co w in
      save_and_die-Fine (set_stopped co1) (delete_if_live db be cfg fresh now co1 w1) refl
        (delete_if_live-Fine co1 w1 all)

  pub kill_found-Fine :
      (signal : Str) (co : Container) (w : World db.Table K)
      → Fine db w
      → Fine db (kill_found db be cfg fresh now signal co w).1
  unfolding kill_found signal_all set_killed
  kill_found-Fine signal co w all =
      let (co1, w1) = signal_all co w in
      elim (Bool-cases (is_handled signal)) [
        | inl h ↦ rw h (
            save_and_die-Fine (set_killed co1) (delete_if_live db be cfg fresh now co1 w1) refl
              (delete_if_live-Fine co1 w1 all))
        | inr h ↦ rw h all
      ]

  pub restart_found-Fine :
      (co : Container) (w : World db.Table K)
      → Fine db w
      → Fine db (restart_found db be cfg fresh now co w).1
  unfolding restart_found signal_all set_stopped
  restart_found-Fine co w all =
      let (co1, w1) = signal_all co (record w { cluster = (be.delete_container co w.cluster).0 }) in
      let saved = save db be cfg fresh now (set_stopped co1) w1 in
      let again = start_container db be cfg fresh now (set_stopped co1) saved.0 in
      let kept =
        save-AllCoherent db be cfg fresh now laws (set_stopped co1) w1
          (idle-IsCoherent (set_stopped co1) refl) all in
      elim (Bool-cases saved.1) [
        | inl bad ↦ rw bad kept
        | inr good ↦ (elim (Bool-cases (be.watch_delete_container co w.cluster)) [
          | inl watched ↦
              let done =
                start-AllCoherent db be cfg fresh now laws isbe (set_stopped co1) saved.0
                  (idle-IsCoherent (set_stopped co1) refl) kept in
              (elim (Bool-cases again.1) [
                | inl bad ↦ rw (good, watched, bad) done
                | inr fine ↦ rw (good, watched, fine) done
              ])
          | inr blind ↦ rw (good, blind) kept
        ])
      ]

  rename_used :
      (name : Str) (co other : Container) (w : World db.Table K)
      → get_container_by_name db name w.table ≡ ok other
      → (rename_found db be cfg fresh now name co w).1 ≡ w
  unfolding rename_found
  rename_used name co other w h = ground arith

  rename_free :
      (name : Str) (co : Container) (w : World db.Table K) (e : Error)
      → get_container_by_name db name w.table ≡ err e
      → (rename_found db be cfg fresh now name co w).1
        ≡ (save db be cfg fresh now
            (record co { name = name })
            (record w { table = db.poke (record co { name = name }) w.table })).0
  unfolding rename_found
  rename_free name co w e h = ground arith

  pub rename_found-Fine :
      (name : Str) (co : Container) (w : World db.Table K)
      → IsCoherent co
      → Fine db w
      → Fine db (rename_found db be cfg fresh now name co w).1
  unfolding IsCoherent
  rename_found-Fine name co w c all =
      let co' : Container = record co { name = name } in
      elim (result-cases (get_container_by_name db name w.table)) [
        | inl (other, used) ↦ subst (Fine db) (sym (rename_used name co other w used)) all
        | inr (e, unused) ↦ subst (Fine db) (sym (rename_free name co w e unused)) (
            save-AllCoherent db be cfg fresh now laws co' (record w { table = db.poke co' w.table })
              c (poke-AllCoherent db laws co' w.table c all))
      ]

  delete_gone :
      (co : Container) (w : World db.Table K) (t : db.Table)
      → delete_container db (signal_all co w).0 w.table ≡ ok t
      → (delete_found db be cfg fresh now co w).1.table ≡ t
  unfolding delete_found signal_all publish delete_if_live
  delete_gone co w t h = ground arith

  delete_kept :
      (co : Container) (w : World db.Table K) (e : Error)
      → delete_container db (signal_all co w).0 w.table ≡ err e
      → (delete_found db be cfg fresh now co w).1.table ≡ db.poke (signal_all co w).0 w.table
  unfolding delete_found signal_all publish delete_if_live
  delete_kept co w e h = ground arith

  pub delete_found-Fine :
      (co : Container) (w : World db.Table K)
      → IsCoherent co
      → Fine db w
      → Fine db (delete_found db be cfg fresh now co w).1
  unfolding IsCoherent signal_all
  delete_found-Fine co w c all =
      let co1 = (signal_all co w).0 in
      elim (result-cases (delete_container db co1 w.table)) [
        | inl (t, gone) ↦
            subst (AllCoherent db) (sym (delete_gone co w t gone))
              (delete-AllCoherent db laws co1 w.table t all gone)
        | inr (e, kept) ↦
            subst (AllCoherent db) (sym (delete_kept co w e kept))
              (poke-AllCoherent db laws co1 w.table c all)
      ]

  pub new_status-IsCoherent :
      (allowed : Bool) (co : Container) (k : K)
      → IsCoherent co
      → IsCoherent (new_status db be cfg fresh now allowed co k)
  unfolding new_status IsCoherent
  new_status-IsCoherent allowed co k c = ground arith

  -- what a lookup returns is in the table
  pub get_container-IsCoherent :
      (k : Str) (t : db.Table) (co : Container)
      → AllCoherent db t
      → get_container db k t ≡ ok co
      → IsCoherent co
  unfolding get_container first_or_error AllCoherent IsCoherent
  get_container-IsCoherent k t co all h = ground (arith, all (id_index k) k co, all by_name k co)

  get_container_by_name-IsCoherent :
      (k : Str) (t : db.Table) (co : Container)
      → AllCoherent db t
      → get_container_by_name db k t ≡ ok co
      → IsCoherent co
  unfolding get_container_by_name first_or_error AllCoherent IsCoherent
  get_container_by_name-IsCoherent k t co all h =
      ground (arith, all by_name k co, get_container-IsCoherent (last_of (split b'-' k)) t co all)

  pub get_by_name_or_id-IsCoherent :
      (k : Str) (t : db.Table) (co : Container)
      → AllCoherent db t
      → get_container_by_name_or_id db k t ≡ ok co
      → IsCoherent co
  unfolding get_container_by_name_or_id IsCoherent
  get_by_name_or_id-IsCoherent k t co all h =
      ground
        (arith, get_container-IsCoherent k t co all, get_container_by_name-IsCoherent k t co all)
