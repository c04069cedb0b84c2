-- ===== src/Server/Libpod.antt =====
-- internal/server/routes/libpod/containers.go: the handlers that podman's API has of its own.
pub mod Create
pub mod Agree
pub mod Coherent
pub mod Life
pub mod Ports
pub mod Inspect
pub mod Tests
use kubedock.Base.{
  ℕ, Bool, true, false, ◌&&◌, ◌||◌, not, List, [], ◌∷◌, Option, none, some, if◌then◌else◌, Result,
  ok, err, Str,
}
use kubedock.Base.Text.{codes}
use kubedock.Model.Container.{Container}
use kubedock.Model.Database.{get_container_by_name_or_id, delete_container}
use kubedock.Model.Database.Tables.{MemDb}
use kubedock.Backend.Interface.{Backend}
use kubedock.Server.World.{
  Config, World, Response, status, publish, signal_all, update_container_status,
}
use kubedock.Server.Containers.{or_404, delete_if_live}

module _ {K : Type 0} (db : MemDb Container) (be : Backend K) (cfg : Config) (fresh : Str)
    (now : ℕ) where
  -- One tick of ContainerWait: none where it goes on. `allowed` is what the rate limiter says.
  unfoldable pub container_wait : Bool → Str → World db.Table K → Option Response × World db.Table K
  container_wait allowed id w = elim (get_container_by_name_or_id db id w.table) [
    | err e ↦ (some (status 200), w)
    | ok co ↦
        let (co1, w1) = update_container_status db be cfg fresh now allowed co w in
        if co1.stopped || co1.killed || co1.completed then (some (status 200), w1) else (none, w1)
  ]

  -- ContainerDelete of a container that was found
  unfoldable pub delete_found : Container → World db.Table K → Response × World db.Table K
  unfolding delete_if_live
  delete_found co w =
      let (co1, w1) = signal_all co w in
      let w2 = delete_if_live db be cfg fresh now co1 w1 in
      let w3 : World db.Table K =
        if not co1.stopped && not co1.killed then publish co1.id (codes "die") w2 else w2 in
      elim (delete_container db co1 w3.table) [
        | err e ↦ (status 404, record w3 { table = db.poke co1 w3.table })
        | ok t ↦ (status 200, record w3 { table = t })
      ]

  -- ContainerDelete
  unfoldable pub container_delete : Str → World db.Table K → Response × World db.Table K
  unfolding delete_found or_404
  container_delete id w =
      or_404 (get_container_by_name_or_id db id w.table) w (λ co. delete_found co w)

  -- ContainerExists
  unfoldable pub container_exists : Str → World db.Table K → Response × World db.Table K
  unfolding or_404
  container_exists id w =
      or_404 (get_container_by_name_or_id db id w.table) w (λ co. (status 204, w))
