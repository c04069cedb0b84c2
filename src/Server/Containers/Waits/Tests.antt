-- ===== src/Server/Containers/Waits/Tests.antt =====
-- A wait for a container whose command ended with an error.
use kubedock.Model.Database.Lookup.{container_key}
use kubedock.Base.GoMap.{lookup}
use kubedock.Base.{str_eq, ℕ, ◌≡◌, refl, true, false, [], ◌∷◌, none, some, ok}
use kubedock.Model.Container.{Container}
use kubedock.Model.Database.Tables.{by_id}
use kubedock.Backend.Interface.{failed, Backend}
use kubedock.Server.Containers.{container_wait_each}
use kubedock.Server.Containers.Waits.{container_wait_each_lem}
use kubedock.Server.Containers.Tests.{
  counting, config, full_id, redis, tables, laws, world, full_id-valid,
}

abbrev crashed : Backend ℕ
crashed = record (counting true) { get_container_status = λ co k. (failed, true) }

abbrev busy : Container
busy = record redis { running = true }

busy_found : tables.first by_id full_id (world busy).table ≡ ok (some busy)
unfolding lookup str_eq container_key
busy_found = refl

container_wait_each_lem_example :
    let (answered, w') =
      container_wait_each tables crashed config full_id 7
        (true ∷ false ∷ true ∷ [])
        full_id
        (world busy) in
    (answered ≡ none)
    × (co' : Container) × (tables.first by_id full_id w'.table ≡ ok (some co'))
    × (co'.running ≡ true)
container_wait_each_lem_example =
    container_wait_each_lem tables crashed config full_id 7 laws (true ∷ false ∷ true ∷ []) full_id
      busy (world busy) failed true full_id-valid busy_found refl refl refl refl (λ x h. refl)
