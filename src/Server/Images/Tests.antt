-- ===== src/Server/Images/Tests.antt =====
-- A pull, and what is known then.
use kubedock.Util.StringId.{is_short_id}
use kubedock.Base.{
  ◌≡◌, ◌≢◌, refl, arith, true, [], ◌∷◌, Option, some, none, ok, Str, replicate, str_eq,
  str_eq_instance,
}
use kubedock.Base.GoMap
use kubedock.Base.GoMap.{GoMap}
use kubedock.Base.Text.{codes}
use kubedock.Model.Records.{Image}
use kubedock.Model.Database.{
  get_images, get_image_by_name, id_index, get_image, get_image_by_name_or_id, save_image,
}
use kubedock.Model.Database.Tables.{MemDb}
use kubedock.Model.Database.Lookup.{image_keys}
use kubedock.Model.Database.Indexes.{Indexes, indexes, indexes-IsMemDb}
use kubedock.Server.World.{Config}
use kubedock.Server.Containers.Tests.{config}
use kubedock.Server.Images.{ImageWorld, trim_suffix, with_tag, image_create, image_json, image_list}
use kubedock.Server.Images.Pulled.{image_create-image_json}

abbrev images : MemDb Image
images = indexes image_keys

abbrev none_yet : ImageWorld (Indexes Image)
none_yet = record { table = record { ids = []; short_ids = []; names = [] }; pulls = [] }

abbrev inspecting : Config
inspecting = record config { inspector = true }

abbrev registry : Str → Option (GoMap Str (Unit {0}))
registry name = some ((codes "6379/tcp", tt) ∷ [])

abbrev offline : Str → Option (GoMap Str (Unit {0}))
offline name = none

abbrev fresh : Str
fresh = replicate 64 b'b'

abbrev after : ImageWorld (Indexes Image)
after = (image_create images inspecting registry fresh 7 (codes "redis") (codes "7") none_yet).2

unknown : (image_json images inspecting offline fresh 7 (codes "redis:7/json") none_yet).0 ≡ 500
unfolding image_json get_image_by_name_or_id get_image GoMap.lookup id_index is_short_id codes
    str_eq get_image_by_name
unknown = refl

listed : image_list images after.table ≡ (fresh, codes "redis:7") ∷ []
unfolding image_list get_images image_create save_image GoMap.insert
listed = refl

answered :
    (image_create images inspecting registry fresh 7 (codes "redis") (codes "7") none_yet).0 ≡ 200
unfolding image_create save_image
answered = refl

tagged : with_tag (codes "redis") (codes "7") ≢ []
unfolding codes with_tag
tagged = ground arith

trimmed : trim_suffix (codes "redis:7/json") (codes "/json") ≡ with_tag (codes "redis") (codes "7")
unfolding with_tag trim_suffix codes str_eq
trimmed = refl

image_create-image_json_example :
    (img : Image) × (get_image_by_name_or_id images
        (with_tag (codes "redis") (codes "7"))
        after.table
      ≡ ok img)
    × (image_json images inspecting offline fresh 7 (codes "redis:7/json") after
        ≡ (200, some img, after))
image_create-image_json_example =
    image_create-image_json images (indexes-IsMemDb image_keys) inspecting registry fresh 7
      (codes "redis") (codes "7") (codes "redis:7/json") none_yet offline tagged trimmed answered
