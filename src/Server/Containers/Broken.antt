-- ===== src/Server/Containers/Broken.antt =====
-- Where ContainerKill does not do what it is for.
use kubedock.Base.{ℕ, ◌≡◌, refl, false, any_of, ok, arith, Str, str_eq}
use kubedock.Base.Text.{codes, to_lower}
use kubedock.Model.Container.{Container}
use kubedock.Model.Database.{get_container_by_name_or_id}
use kubedock.Model.Database.Tables.{MemDb}
use kubedock.Backend.Interface.{Backend}
use kubedock.Server.World.{Config, World, status}
use kubedock.Server.Containers.{or_404, is_handled, kill_found, container_kill}

kill_not_handled : is_handled (codes "KILL") ≡ false
unfolding is_handled to_lower codes any_of str_eq
kill_not_handled = refl

sigkill_not_handled : is_handled (codes "SIGKILL") ≡ false
unfolding is_handled to_lower codes any_of str_eq
sigkill_not_handled = refl

module _ {K : Type 0} (db : MemDb Container) (be : Backend K) (cfg : Config) (fresh : Str)
    (now : ℕ) where
  ignored :
      (signal id : Str) (co : Container) (w : World db.Table K)
      → is_handled signal ≡ false
      → get_container_by_name_or_id db id w.table ≡ ok co
      → container_kill db be cfg fresh now id signal w ≡ (status 204, w)
  unfolding container_kill kill_found or_404
  ignored signal id co w h found = ground arith

  -- A container that is killed with the signal KILL or SIGKILL is not touched: the answer is 204
  -- and the world stays as it was.
  pub kill_ignored :
      (id : Str) (co : Container) (w : World db.Table K)
      → get_container_by_name_or_id db id w.table ≡ ok co
      → (container_kill db be cfg fresh now id (codes "KILL") w ≡ (status 204, w))
        × (container_kill db be cfg fresh now id (codes "SIGKILL") w ≡ (status 204, w))
  kill_ignored id co w found = (
    ignored (codes "KILL") id co w kill_not_handled found,
    ignored (codes "SIGKILL") id co w sigkill_not_handled found,
  )
