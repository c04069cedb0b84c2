-- ===== src/Server/Images.antt =====
-- The images of the API: internal/server/routes/docker/images.go, and images.go in common and libpod.
pub mod Pulled
pub mod Tests
use kubedock.Base.{
  ℕ, Bool, true, false, not, List, [], ◌∷◌, ◌++◌, Option, none, some, is_nil, map, if◌then◌else◌,
  Result, ok, err, Str, str_eq,
}
use kubedock.Base.GoMap.{GoMap}
use kubedock.Base.Text.{codes, contains}
use kubedock.Model.Error.{Error}
use kubedock.Model.Records.{Image}
use kubedock.Model.Database.{get_image_by_name_or_id, get_images, save_image}
use kubedock.Model.Database.Tables.{MemDb}
use kubedock.Server.World.{Config}

-- The table of images, and the names of the pulls that were published.
pub record ImageWorld (T : Type 0) : Type 0 where
  pub table : T
  pub pulls : List Str

-- strings.TrimSuffix, for a suffix that is not empty
unfoldable pub trim_suffix : Str → Str → Str
trim_suffix [] suffix = []
trim_suffix (c ∷ s) suffix =
    let rest = trim_suffix s suffix in if str_eq (c ∷ s) suffix then [] else c ∷ rest

-- the name of ImageCreate
unfoldable pub with_tag : Str → Str → Str
with_tag from tag = if is_nil tag then from else from ++ b':' ∷ tag

-- the entry of RepoTags
unfoldable pub repo_tag : Str → Str
unfolding codes contains
repo_tag name = if contains name (codes ":") then name else name ++ codes ":latest"

abbrev pub named : Str → GoMap Str (Unit {0}) → Image
named name ports = record {
  id = [];
  short_id = [];
  name = name;
  exposed_ports = ports;
  created = 0;
}

-- `inspect` is GetImageExposedPorts, with none for an error; `fresh` and `now` are what
-- GenerateRandomID and time.Now return, if they are called.
module _ (db : MemDb Image) (cfg : Config) (inspect : Str → Option (GoMap Str (Unit {0})))
    (fresh : Str) (now : ℕ) where
  -- The new record of a name, inspected if that is wanted; none for an error of the inspection.
  unfoldable pub inspected : Str → Option Image
  inspected name =
      if cfg.inspector
      then (elim (inspect name) [ none ↦ none | some pts ↦ some (named name pts) ])
      else some (named name [])

  -- ImagePull: the status, the image that is answered, and the state
  unfoldable pub image_pull : Str → ImageWorld db.Table → ℕ × Option Image × ImageWorld db.Table
  unfolding inspected
  image_pull from w = elim (inspected from) [
    | none ↦ (500, none, w)
    | some img ↦ elim (save_image db fresh now img w.table) [
      | err e ↦ (500, none, w)
      | ok (img', t) ↦ (200, some img', record { table = t; pulls = w.pulls ++ from ∷ [] })
    ]
  ]

  -- ImageCreate, which answers no image
  unfoldable pub image_create :
      Str → Str → ImageWorld db.Table → ℕ × Option Image × ImageWorld db.Table
  unfolding image_pull with_tag
  image_create from tag w =
      let (status, img, w') = image_pull (with_tag from tag) w in (status, none, w')

  -- ImageJSON; `path` is what the two parameters of the route are together
  unfoldable pub image_json : Str → ImageWorld db.Table → ℕ × Option Image × ImageWorld db.Table
  unfolding inspected trim_suffix
  image_json path w =
      let id = trim_suffix path (codes "/json") in
      elim (get_image_by_name_or_id db id w.table) [
        | ok img ↦ (200, some img, w)
        | err e ↦ elim (inspected id) [
          | none ↦ (500, none, w)
          | some img ↦ elim (save_image db fresh now img w.table) [
            | err e' ↦ (404, none, w)
            | ok (img', t) ↦ (200, some img', record w { table = t })
          ]
        ]
      ]

-- ImageList: the ids and the tags
unfoldable pub image_list : (db : MemDb Image) → db.Table → List (Str × Str)
unfolding repo_tag
image_list db t = map (λ img. (img.id, repo_tag img.name)) (get_images db t)
