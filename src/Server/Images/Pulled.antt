-- ===== src/Server/Images/Pulled.antt =====
-- An image that was pulled is known.
use kubedock.Base.{
  ℕ, ◌≡◌, ◌≢◌, refl, ◌∙◌, subst, inl, inr, [], Option, some, Option-cases, ok, result-cases, arith,
  Str,
}
use kubedock.Base.GoMap.{GoMap}
use kubedock.Base.Text.{codes}
use kubedock.Model.Records.{Image}
use kubedock.Model.Database.{
  get_image, get_image_by_name, get_image_by_name_or_id, first_or_error, save_image,
}
use kubedock.Model.Database.Tables.{by_name, MemDb, IsMemDb}
use kubedock.Model.Database.Lookup.{image_key, image_keys}
use kubedock.Server.World.{Config}
use kubedock.Server.Images.{
  ImageWorld, trim_suffix, with_tag, inspected, image_pull, image_create, image_json,
}

module _ (db : MemDb Image) (laws : IsMemDb image_keys db) where
  named_found :
      (name : Str) (t : db.Table) (x : Image)
      → db.first by_name name t ≡ ok (some x)
      → (img : Image) × (get_image_by_name_or_id db name t ≡ ok img)
  unfolding get_image_by_name_or_id get_image_by_name first_or_error
  named_found name t x e = elim (result-cases (get_image db name t)) [
    | inl (img, e') ↦ (img, rw (get_image_by_name_or_id, e') refl)
    | inr (e1, e') ↦
        (x, rw (get_image_by_name_or_id, e', get_image_by_name, first_or_error, e) refl)
  ]

  found_json :
      (cfg : Config) (inspect : Str → Option (GoMap Str (Unit {0}))) (fresh : Str) (now : ℕ)
      (path name : Str) (w : ImageWorld db.Table) (img : Image)
      → trim_suffix path (codes "/json") ≡ name
      → get_image_by_name_or_id db name w.table ≡ ok img
      → image_json db cfg inspect fresh now path w ≡ (200, some img, w)
  unfolding image_json
  found_json cfg inspect fresh now path name w img same e = rw (image_json, same, e) refl

  module _ (cfg : Config) (inspect : Str → Option (GoMap Str (Unit {0}))) (fresh : Str)
      (now : ℕ) where
    inspected_named :
        (name : Str) (img : Image)
        → inspected db cfg inspect fresh now name ≡ some img
        → (img.name ≡ name) × (img.id ≡ [])
    unfolding inspected
    inspected_named name img e = ground (arith, e)

    saved :
        (img img' : Image) (t t' : db.Table)
        → save_image db fresh now img t ≡ ok (img', t')
        → (db.insert img' t ≡ ok t') × (img'.name ≡ img.name)
    unfolding save_image
    saved img img' t t' e = ground (arith, e)

    saved_found :
        (img img' : Image) (name : Str) (t t' : db.Table)
        → img.name ≡ name
        → name ≢ []
        → save_image db fresh now img t ≡ ok (img', t')
        → (x : Image) × (db.first by_name name t' ≡ ok (some x))
    unfolding image_key
    saved_found img img' name t t' same full e =
        let (inserted, kept) = saved img img' t t' e in
        subst (λ n. n ≢ [] → (x : Image) × (db.first by_name n t' ≡ ok (some x))) (kept ∙ same)
          (laws.insert_name img' t t' inserted) full

    pulled :
        (name : Str) (w : ImageWorld db.Table)
        → name ≢ []
        → (image_pull db cfg inspect fresh now name w).0 ≡ 200
        → (x : Image) × (db.first by_name name (image_pull db cfg inspect fresh now name w).2.table
            ≡ ok (some x))
    unfolding image_pull
    pulled name w full answered = elim (Option-cases (inspected db cfg inspect fresh now name)) [
      | inl e ↦ absurd (ground (arith, e, answered))
      | inr (img, e) ↦ elim (result-cases (save_image db fresh now img w.table)) [
        | inr (e1, e') ↦ absurd (ground (arith, e, e', answered))
        | inl ((img', t), e') ↦
            rw (image_pull, e, e')
              (saved_found img img' name w.table t ((inspected_named name img e).0) full e')
      ]
    ]

    -- After an image with a name that is not empty was created with the answer 200, whatever the
    -- registry says by then, ImageJSON of its name and tag, with or without "/json" behind them,
    -- answers 200 with an image of the table, and saves none.
    pub image_create-image_json :
        (from tag path : Str) (w : ImageWorld db.Table)
        (later : Str → Option (GoMap Str (Unit {0})))
        → with_tag from tag ≢ []
        → trim_suffix path (codes "/json") ≡ with_tag from tag
        → (image_create db cfg inspect fresh now from tag w).0 ≡ 200
        → let w' = (image_create db cfg inspect fresh now from tag w).2 in
          (img : Image) × (get_image_by_name_or_id db (with_tag from tag) w'.table ≡ ok img)
          × (image_json db cfg later fresh now path w' ≡ (200, some img, w'))
    unfolding image_create
    image_create-image_json from tag path w later full same answered =
        let w' = (image_pull db cfg inspect fresh now (with_tag from tag) w).2 in
        let (x, e) = pulled (with_tag from tag) w full answered in
        let (img, found) = named_found (with_tag from tag) w'.table x e in
        (img, found, found_json cfg later fresh now path (with_tag from tag) w' img same found)
