-- ===== src/Server/Containers/Beside.antt =====
-- The requests beside the life of a container that write to its record: PutArchive and ContainerLogs of
-- internal/server/routes/common.
use kubedock.Base.{
  ℕ, ◌≡◌, inl, inr, ◌⊎◌, refl, sym, subst, Bool, true, false, ◌&&◌, not, ◌++◌, [], ◌∷◌,
  if◌then◌else◌, Option, none, some, is_nil, Result, ok, err, arith, Str,
}
use kubedock.Model.Error.{Error}
use kubedock.Model.Container.{Container, add_stop_channel}
use kubedock.Model.Database.{get_container}
use kubedock.Model.Database.Tables.{MemDb, IsMemDb}
use kubedock.Model.Database.Lookup.{container_keys}
use kubedock.Util.Tar.Entries.{Listing, is_single_file_archive}
use kubedock.Backend.Interface.{Backend, IsBackend}
use kubedock.Backend.Remote.{Executor}
use kubedock.Server.World.{Config, World, start_container}
use kubedock.Server.Containers.{is_idle}
use kubedock.Server.Containers.Coherent.{
  IsCoherent, AllCoherent, poke-AllCoherent, save-AllCoherent, start-AllCoherent,
}
use kubedock.Server.Containers.Preserve.{Fine, get_container-IsCoherent}
use kubedock.Server.Archive.{Answer, plain, copy_end, put_found, put_archive}
use kubedock.Server.Logs.{LogQuery, container_logs}

pick : {A : Type 0} (P : A → Type 0) (b : Bool) (x y : A) → P x → P y → P (if b then x else y)
pick P true x y hx hy = hx
pick P false x y hx hy = hy

module _ {K : Type 0} (db : MemDb Container) (be : Backend K) (cfg : Config) (fresh : Str) (now : ℕ)
    (laws : IsMemDb container_keys db) (isbe : IsBackend be) where
  module _ (cli : Executor K) (list : Str → Option Listing) where
    copy_end-table :
        (co : Container) (path dat : Str) (w : World db.Table K)
        → (copy_end db be cli cfg fresh now list co path dat w).1.table ≡ w.table
    unfolding copy_end
    copy_end-table co path dat w = ground arith

    copied-Fine :
        (co : Container) (path dat : Str) (w : World db.Table K)
        → Fine db w
        → Fine db (copy_end db be cli cfg fresh now list co path dat w).1
    copied-Fine co path dat w all = subst (AllCoherent db) (sym (copy_end-table co path dat w)) all

    put_found-Fine :
        (co : Container) (path dat : Str) (w : World db.Table K)
        → IsCoherent co
        → Fine db w
        → Fine db (put_found db be cli cfg fresh now list co path dat w).1
    unfolding put_found is_idle IsCoherent
    put_found-Fine co path dat w c all =
        let planned : Container = record co {
          pre_archives = co.pre_archives ++ record { path = path; archive = dat } ∷ [];
        } in
        let w1 = (start_container db be cfg fresh now co w).0 in
        let started = start-AllCoherent db be cfg fresh now laws isbe co w c all in
        let P : Answer × World db.Table K → Type 0 = λ a. Fine db a.1 in
        pick P (is_idle co && cfg.pre_archive && is_single_file_archive (list dat)) _ _
          (save-AllCoherent db be cfg fresh now laws planned w c all)
          (pick P (is_idle co && not cfg.pre_archive) _ _
            (pick P (start_container db be cfg fresh now co w).1 _ _ started
              (copied-Fine co path dat w1 started))
            (copied-Fine co path dat w all))

    put_body-Fine :
        (co : Container) (path : Str) (body : Option Str) (w : World db.Table K)
        → IsCoherent co
        → Fine db w
        → Fine db
            (elim body as (λ x. Answer × World db.Table K) [
              | none ↦ (plain 404, w)
              | some dat ↦ put_found db be cli cfg fresh now list co path dat w
            ]).1
    put_body-Fine co path none w c all = all
    put_body-Fine co path (some dat) w c all = put_found-Fine co path dat w c all

    archive-Fine :
        (id path : Str) (body : Option Str) (w : World db.Table K) (r : Result Error Container)
        → get_container db id w.table ≡ r
        → Fine db w
        → Fine db
            (elim r as (λ x. Answer × World db.Table K) [
              | err e ↦ (plain 404, w)
              | ok co ↦ elim body as (λ x. Answer × World db.Table K) [
                | none ↦ (plain 404, w)
                | some dat ↦ put_found db be cli cfg fresh now list co path dat w
              ]
            ]).1
    archive-Fine id path body w (err e) h all = all
    archive-Fine id path body w (ok co) h all =
        put_body-Fine co path body w
          (get_container-IsCoherent db be cfg fresh now laws isbe id w.table co all h) all

    pub put_archive-Fine :
        (id path : Str) (body : Option Str) (w : World db.Table K)
        → Fine db w
        → Fine db (put_archive db be cli cfg fresh now list id path body w).1
    unfolding put_archive
    put_archive-Fine id path body w all =
        let P : Answer × World db.Table K → Type 0 = λ a. Fine db a.1 in
        pick P (is_nil path) _ _ all
          (archive-Fine id path body w (get_container db id w.table) refl all)

  followed-IsCoherent :
      (co : Container) (stop : ℕ) → IsCoherent co → IsCoherent (add_stop_channel co stop)
  unfolding add_stop_channel IsCoherent
  followed-IsCoherent co stop c = c

  logs_table :
      (id : Str) (q : LogQuery) (hijacked : Bool) (stop : ℕ) (w : World db.Table K) (co : Container)
      → get_container db id w.table ≡ ok co
      → ((container_logs db id q hijacked stop w).1.table ≡ w.table)
        ⊎ ((container_logs db id q hijacked stop w).1.table
            ≡ db.poke (add_stop_channel co stop) w.table)
  unfolding container_logs
  logs_table id q hijacked stop w co h = ground arith

  logs_lost :
      (id : Str) (q : LogQuery) (hijacked : Bool) (stop : ℕ) (w : World db.Table K) (e : Error)
      → get_container db id w.table ≡ err e
      → (container_logs db id q hijacked stop w).1.table ≡ w.table
  unfolding container_logs
  logs_lost id q hijacked stop w e h = ground arith

  same_or_poked :
      (t t' : db.Table) (co : Container)
      → IsCoherent co
      → AllCoherent db t
      → (t' ≡ t) ⊎ (t' ≡ db.poke co t)
      → AllCoherent db t'
  same_or_poked t t' co c all (inl e) = subst (AllCoherent db) (sym e) all
  same_or_poked t t' co c all (inr e) =
      subst (AllCoherent db) (sym e) (poke-AllCoherent db laws co t c all)

  found_logs-Fine :
      (id : Str) (q : LogQuery) (hijacked : Bool) (stop : ℕ) (w : World db.Table K)
      (r : Result Error Container)
      → get_container db id w.table ≡ r
      → Fine db w
      → Fine db (container_logs db id q hijacked stop w).1
  found_logs-Fine id q hijacked stop w (err e) h all =
      subst (AllCoherent db) (sym (logs_lost id q hijacked stop w e h)) all
  found_logs-Fine id q hijacked stop w (ok co) h all =
      same_or_poked w.table (container_logs db id q hijacked stop w).1.table
        (add_stop_channel co stop)
        (followed-IsCoherent co stop
          (get_container-IsCoherent db be cfg fresh now laws isbe id w.table co all h))
        all (logs_table id q hijacked stop w co h)

  pub container_logs-Fine :
      (id : Str) (q : LogQuery) (hijacked : Bool) (stop : ℕ) (w : World db.Table K)
      → Fine db w
      → Fine db (container_logs db id q hijacked stop w).1
  container_logs-Fine id q hijacked stop w all =
      found_logs-Fine id q hijacked stop w (get_container db id w.table) refl all
