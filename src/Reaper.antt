-- ===== src/Reaper.antt =====
-- internal/reaper: what is deleted because it is too old. Times are numbers of seconds.
pub mod Old
pub mod Tests
use kubedock.Base.{
  ℕ, ◌+◌, ◌*◌, Bool, true, false, List, [], ◌∷◌, ltb, if◌then◌else◌, Result, ok, err, Str,
}
use kubedock.Model.Error.{Error}
use kubedock.Model.Container.{Container}
use kubedock.Model.Records.{Exec}
use kubedock.Model.Database.{get_containers, delete_container, get_execs, delete_exec}
use kubedock.Model.Database.Tables.{MemDb}
use kubedock.Backend.Interface.{Backend}
use kubedock.Server.World.{World}

-- created.Before(time.Now().Add(-max))
unfoldable pub is_old : ℕ → ℕ → ℕ → Bool
is_old now max created = ltb (created + max) now

-- The loops of CleanContainers and of CleanExecs: `effect` is what is done in the cluster before
-- the record is deleted. The flag is the error of the first delete that fails.
unfoldable pub clean_each :
    {R T K : Type 0}
    → (R → K → K)
    → (R → T → Result Error T)
    → (R → Bool)
    → List R
    → K
    → T
    → K × T × Bool
clean_each effect delete old [] k t = (k, t, false)
clean_each effect delete old (r ∷ more) k t =
    let kept = clean_each effect delete old more k t in
    if old r
    then (elim (delete r t) [
      | err e ↦ (effect r k, t, true)
      | ok t' ↦ clean_each effect delete old more (effect r k) t'
    ])
    else kept

-- execReapMax
abbrev pub exec_reap_max : ℕ
exec_reap_max = 5 * 60

-- The state that the reaper works on: that of the handlers, and the table of execs.
pub record Reaped (T E K : Type 0) : Type 0 where
  pub world : World T K
  pub execs : E

module _ {K : Type 0} (db : MemDb Container) (be : Backend K) (keep_max now : ℕ) where
  -- CleanContainers
  unfoldable pub clean_containers : K → db.Table → K × db.Table × Bool
  clean_containers k t =
      clean_each (λ co k1. (be.delete_container co k1).0) (λ co t1. delete_container db co t1)
        (λ co. is_old now keep_max co.created) (get_containers db t) k t

  -- The state of the handlers after CleanContainers.
  unfoldable pub reap : World db.Table K → World db.Table K
  reap w =
      let (k, t, bad) = clean_containers w.cluster w.table in record w { cluster = k; table = t }

  -- CleanContainersKubernetes
  unfoldable pub clean_containers_kubernetes : K → K × Bool
  clean_containers_kubernetes k = be.delete_older_than (keep_max + 15 * 60) k

-- CleanExecs; the first part of the result is not used
unfoldable pub clean_execs : (exs : MemDb Exec) → ℕ → exs.Table → Unit {0} × exs.Table × Bool
clean_execs exs now t =
    clean_each (λ exc u. u) (λ exc t1. delete_exec exs exc t1)
      (λ exc. is_old now exec_reap_max exc.created) (get_execs exs t) tt t

module _ {K : Type 0} (db : MemDb Container) (exs : MemDb Exec) (be : Backend K)
    (keep_max now : ℕ) where
  -- clean; its errors are only logged
  unfoldable pub clean : Reaped db.Table exs.Table K → Reaped db.Table exs.Table K
  clean s =
      let (u, execs, bad) = clean_execs exs now s.execs in
      let w = reap db be keep_max now s.world in
      let k = (clean_containers_kubernetes db be keep_max now w.cluster).0 in
      record { world = record w { cluster = k }; execs = execs }
