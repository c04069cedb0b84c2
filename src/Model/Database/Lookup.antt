-- ===== src/Model/Database/Lookup.antt =====
-- What the lookups of internal/model/database.go find.
use kubedock.Base.{◌≡◌, ◌⊎◌, ok, arith, Str}
use kubedock.Model.Container.{Container}
use kubedock.Model.Records.{Network, Image, Exec}
use kubedock.Model.Database.{id_index, get_container, first_or_error}
use kubedock.Model.Database.Tables.{Index, by_id, by_short_id, by_name, Keyed, MemDb, IsMemDb}

-- The index fields of a container.
unfoldable pub container_key : Index → Container → Str
container_key by_id co = co.id
container_key by_short_id co = co.short_id
container_key by_name co = co.name

abbrev pub container_keys : Keyed Container
container_keys = record { key = container_key }

module _ (db : MemDb Container) (laws : IsMemDb container_keys db) where
  -- In an indexed table a container is found only by its id, its short id or its name.
  pub get_container_sound :
      (k : Str) (t : db.Table) (co : Container)
      → laws.Indexed t
      → get_container db k t ≡ ok co
      → (co.id ≡ k) ⊎ (co.short_id ≡ k) ⊎ (co.name ≡ k)
  unfolding get_container first_or_error container_key id_index
  get_container_sound k t co ix h = ground (
    arith,
    laws.first_key by_id k t co ix,
    laws.first_key by_short_id k t co ix,
    laws.first_key by_name k t co ix,
  )

-- The index fields of a network.
unfoldable pub network_key : Index → Network → Str
network_key by_id nw = nw.id
network_key by_short_id nw = nw.short_id
network_key by_name nw = nw.name

abbrev pub network_keys : Keyed Network
network_keys = record { key = network_key }

-- The index fields of an image.
unfoldable pub image_key : Index → Image → Str
image_key by_id img = img.id
image_key by_short_id img = img.short_id
image_key by_name img = img.name

abbrev pub image_keys : Keyed Image
image_keys = record { key = image_key }

-- The only index field of an exec.
unfoldable pub exec_key : Index → Exec → Str
exec_key i exc = exc.id

abbrev pub exec_keys : Keyed Exec
exec_keys = record { key = exec_key }
