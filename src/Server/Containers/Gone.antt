-- ===== src/Server/Containers/Gone.antt =====
-- What lookups find after a container was deleted or renamed.
use kubedock.Base.{ℕ, ◌≡◌, ◌≢◌, ◌⊎◌, refl, sym, subst, true, false, [], is_nil, ok, arith, Str}
use kubedock.Util.StringId.{validate_id}
use kubedock.Model.Container.{Container}
use kubedock.Model.Database.{
  get_container, get_container_by_name, get_container_by_name_or_id, delete_container,
  first_or_error, with_id,
}
use kubedock.Model.Database.Tables.{MemDb, IsMemDb}
use kubedock.Model.Database.Lookup.{container_key, container_keys}
use kubedock.Model.Database.Store.{id_index_full, valid_not_short, get-delete_container}
use kubedock.Backend.Interface.{Backend}
use kubedock.Server.World.{Config, World, status, publish, save, signal_all}
use kubedock.Server.Containers.{
  or_404, delete_if_live, delete_found, container_delete, rename_found, container_rename,
}
use kubedock.Server.Containers.Repeat.{saved_found, saved_by, valid_named}

module _ {K : Type 0} (db : MemDb Container) (be : Backend K) (cfg : Config) (fresh : Str) (now : ℕ)
    (laws : IsMemDb container_keys db) where
  delete_done :
      (id : Str) (co : Container) (w : World db.Table K)
      → get_container_by_name_or_id db id w.table ≡ ok co
      → (container_delete db be cfg fresh now id w).0 ≡ status 204
      → delete_container db (signal_all co w).0 w.table
        ≡ ok (container_delete db be cfg fresh now id w).1.table
  unfolding container_delete or_404 delete_found signal_all publish delete_if_live
  delete_done id co w found answered = ground arith

  delete_effects :
      (id : Str) (co : Container) (w : World db.Table K)
      → get_container_by_name_or_id db id w.table ≡ ok co
      → ((co.stopped ≡ true) ⊎ (co.killed ≡ true))
      → ((container_delete db be cfg fresh now id w).1.cluster ≡ w.cluster)
        × ((container_delete db be cfg fresh now id w).1.events ≡ w.events)
  unfolding container_delete or_404 delete_found signal_all publish delete_if_live
  delete_effects id co w found dead = (ground arith, ground arith)

  rename_done :
      (id name : Str) (co : Container) (w : World db.Table K)
      → get_container_by_name_or_id db id w.table ≡ ok co
      → (container_rename db be cfg fresh now id name w).0 ≡ status 204
      → let w1 : World db.Table K = record w {
        table = db.poke (record co { name = name }) w.table;
      } in
        ((save db be cfg fresh now (record co { name = name }) w1).1 ≡ false)
        × ((container_rename db be cfg fresh now id name w).1
            ≡ (save db be cfg fresh now (record co { name = name }) w1).0)
  unfolding container_rename or_404 rename_found
  rename_done id name co w found answered = (ground arith, ground arith)

  -- After the delete of a container with a full id from an indexed table was answered with 204, its
  -- id finds no container but one that has this id as its name; and the delete of a container that
  -- was stopped or killed before leaves the cluster alone and publishes nothing.
  pub container_delete-gone :
      (id : Str) (co : Container) (w : World db.Table K)
      → get_container_by_name_or_id db id w.table ≡ ok co
      → laws.Indexed w.table
      → validate_id co.id ≡ ok tt
      → (container_delete db be cfg fresh now id w).0 ≡ status 204
      → let w' = (container_delete db be cfg fresh now id w).1 in
        ((other : Container) → get_container db co.id w'.table ≡ ok other → other.name ≡ co.id)
        × ((co.stopped ≡ true) ⊎ (co.killed ≡ true)
            → (w'.cluster ≡ w.cluster) × (w'.events ≡ w.events))
  unfolding signal_all
  container_delete-gone id co w found ix full answered = (
    (get-delete_container db laws (signal_all co w).0 w.table
        (container_delete db be cfg fresh now id w).1.table ix (delete_done id co w found answered)
        (valid_not_short co.id full)).0,
    delete_effects id co w found,
  )

  -- the name of a saved container is found
  named_found :
      (co : Container) (w : World db.Table K)
      → is_nil co.id ≡ false
      → co.name ≢ []
      → (save db be cfg fresh now co w).1 ≡ false
      → (x : Container) × (get_container_by_name db co.name (save db be cfg fresh now co w).0.table
          ≡ ok x)
  unfolding get_container_by_name first_or_error container_key
  named_found co w named name fine =
      let (x, e) =
        laws.insert_name co w.table (save db be cfg fresh now co w).0.table
          (saved_by db be cfg fresh now laws co w (db.insert (with_id fresh now co) w.table) refl
            named fine)
          name in
      (x, ground arith)

  -- After the rename of a container with a full id to a name that is not empty was answered with
  -- 204, its id finds it with the new name, and the new name finds a container.
  pub container_rename-found :
      (id name : Str) (co : Container) (w : World db.Table K)
      → get_container_by_name_or_id db id w.table ≡ ok co
      → validate_id co.id ≡ ok tt
      → name ≢ []
      → (container_rename db be cfg fresh now id name w).0 ≡ status 204
      → let w' = (container_rename db be cfg fresh now id name w).1 in
        (get_container db co.id w'.table ≡ ok (record co { name = name }))
        × ((x : Container) × (get_container_by_name db name w'.table ≡ ok x))
  container_rename-found id name co w found full named answered =
      let co' : Container = record co { name = name } in
      let w1 : World db.Table K = record w { table = db.poke co' w.table } in
      let (fine, e) = rename_done id name co w found answered in
      let (x, by) = named_found co' w1 (valid_named co.id full) named fine in
      (
        subst (λ u. get_container db co.id u.table ≡ ok co') (sym e)
            (saved_found db be cfg fresh now laws co' w1 (valid_named co.id full)
              (id_index_full co.id full) fine),
        (x, subst (λ u. get_container_by_name db name u.table ≡ ok x) (sym e) by),
      )
