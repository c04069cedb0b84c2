-- ===== src/Server/Containers/Requests.antt =====
-- The requests about containers as steps of the server.
use kubedock.Base.{List, Option, ℕ, Bool, Str}
use kubedock.Model.Container.{Container}
use kubedock.Model.Database.Tables.{MemDb}
use kubedock.Backend.Interface.{Backend}
use kubedock.Server.World.{Config, World}
use kubedock.Server.Containers.{
  container_start, container_restart, container_stop, container_kill, container_resize,
  container_rename, container_delete, container_wait,
}
use kubedock.Model.Records.{Network, Image}
use kubedock.Server.Create.{ContainerCreateRequest, container_create}
use kubedock.Reaper.{reap}
use kubedock.Util.Tar.Entries.{Listing}
use kubedock.Backend.Remote.{Executor}
use kubedock.Server.Archive.{put_archive}
use kubedock.Server.Logs.{LogQuery, container_logs}
use kubedock.Server.Networks.{networks_connect, networks_disconnect}
use kubedock.Server.Libpod
use kubedock.Server.Inspect

-- A request, by the handler that answers it, a round of the reaper, or a change in the cluster.
pub data Step {K : Type 0} (db : MemDb Container) (be : Backend K) (cfg : Config)
    (nws : MemDb Network) (imgs : MemDb Image) : World db.Table K → World db.Table K → Type 0 where
  starts :
      (fresh : Str) (now : ℕ) (id : Str) (w : World db.Table K)
      → Step db be cfg nws imgs w (container_start db be cfg fresh now id w).1
  restarts :
      (fresh : Str) (now : ℕ) (id : Str) (w : World db.Table K)
      → Step db be cfg nws imgs w (container_restart db be cfg fresh now id w).1
  stops :
      (fresh : Str) (now : ℕ) (id : Str) (w : World db.Table K)
      → Step db be cfg nws imgs w (container_stop db be cfg fresh now id w).1
  kills :
      (fresh : Str) (now : ℕ) (id signal : Str) (w : World db.Table K)
      → Step db be cfg nws imgs w (container_kill db be cfg fresh now id signal w).1
  resizes :
      (fresh : Str) (now : ℕ) (id : Str) (w : World db.Table K)
      → Step db be cfg nws imgs w (container_resize db be cfg fresh now id w).1
  renames :
      (fresh : Str) (now : ℕ) (id name : Str) (w : World db.Table K)
      → Step db be cfg nws imgs w (container_rename db be cfg fresh now id name w).1
  deletes :
      (fresh : Str) (now : ℕ) (id : Str) (w : World db.Table K)
      → Step db be cfg nws imgs w (container_delete db be cfg fresh now id w).1
  waits :
      (fresh : Str) (now : ℕ) (allowed : Bool) (id : Str) (w : World db.Table K)
      → Step db be cfg nws imgs w (container_wait db be cfg fresh now allowed id w).1
  creates :
      (fresh : Str) (now : ℕ) (networks : nws.Table) (images : imgs.Table)
      (body : Option ContainerCreateRequest) (query_name : Str) (w : World db.Table K)
      → Step db be cfg nws imgs w
          (container_create db nws imgs networks images cfg fresh now body query_name w).1
  libpod_waits :
      (fresh : Str) (now : ℕ) (allowed : Bool) (id : Str) (w : World db.Table K)
      → Step db be cfg nws imgs w (Libpod.container_wait db be cfg fresh now allowed id w).1
  libpod_deletes :
      (fresh : Str) (now : ℕ) (id : Str) (w : World db.Table K)
      → Step db be cfg nws imgs w (Libpod.container_delete db be cfg fresh now id w).1
  libpod_creates :
      (fresh : Str) (now : ℕ) (networks : nws.Table) (images : imgs.Table)
      (body : Option Libpod.Create.ContainerCreateRequest) (query_name : Str) (w : World db.Table K)
      → Step db be cfg nws imgs w
          (Libpod.Create.container_create db nws imgs networks images cfg fresh now body query_name
            w).1
  inspects :
      (fresh : Str) (now : ℕ) (networks : nws.Table) (allowed : Bool) (id : Str)
      (w : World db.Table K)
      → Step db be cfg nws imgs w
          (Inspect.container_info db nws be networks cfg fresh now allowed id w).2
  libpod_inspects :
      (fresh : Str) (now : ℕ) (networks : nws.Table) (allowed : Bool) (id : Str)
      (w : World db.Table K)
      → Step db be cfg nws imgs w
          (Libpod.Inspect.container_info db nws be networks cfg fresh now allowed id w).2
  puts :
      (cli : Executor K) (list : Str → Option Listing) (fresh : Str) (now : ℕ) (id path : Str)
      (body : Option Str) (w : World db.Table K)
      → Step db be cfg nws imgs w (put_archive db be cli cfg fresh now list id path body w).1
  logs :
      (id : Str) (q : LogQuery) (hijacked : Bool) (stop : ℕ) (w : World db.Table K)
      → Step db be cfg nws imgs w (container_logs db id q hijacked stop w).1
  connects :
      (fresh : Str) (now : ℕ) (networks : nws.Table) (body : Option (Str × List Str)) (id : Str)
      (w : World db.Table K)
      → Step db be cfg nws imgs w (record w {
        table =
            (networks_connect db nws fresh now body id
              (record { containers = w.table; networks = networks })).1.containers;
      })
  disconnects :
      (fresh : Str) (now : ℕ) (networks : nws.Table) (body : Option Str) (id : Str)
      (w : World db.Table K)
      → Step db be cfg nws imgs w (record w {
        table =
            (networks_disconnect db nws fresh now body id
              (record { containers = w.table; networks = networks })).1.containers;
      })
  reaps :
      (keep_max now : ℕ) (w : World db.Table K)
      → Step db be cfg nws imgs w (reap db be keep_max now w)
  moves : (k : K) (w : World db.Table K) → Step db be cfg nws imgs w (record w { cluster = k })

pub data Steps {K : Type 0} (db : MemDb Container) (be : Backend K) (cfg : Config)
    (nws : MemDb Network) (imgs : MemDb Image) : World db.Table K → World db.Table K → Type 0 where
  done : (w : World db.Table K) → Steps db be cfg nws imgs w w
  then_step :
      (u v w : World db.Table K)
      → Step db be cfg nws imgs u v
      → Steps db be cfg nws imgs v w
      → Steps db be cfg nws imgs u w
