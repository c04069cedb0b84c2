-- ===== src/Model/Database.antt =====
-- internal/model/database.go: the records, kept in the tables of go-memdb.
pub mod Tables
pub mod Lookup
pub mod Store
pub mod Indexes
pub mod Tests
use kubedock.Base.{
  ℕ, Bool, true, false, List, [], ◌∷◌, Option, none, some, is_nil, any_of, ◌==◌, if◌then◌else◌,
  Result, ok, err, Str, str_eq_instance,
}
use kubedock.Base.GoMap
use kubedock.Base.GoMap.{GoMap}
use kubedock.Base.Text.{codes, split}
use kubedock.Util.StringId.{is_short_id, truncate_id}
use kubedock.Model.Error.{Error, not_found}
use kubedock.Model.Container.{Container}
use kubedock.Model.Records.{Exec, Network, Image, blank_network}
use Tables.{MemDb, Index, by_id, by_short_id, by_name}

-- "shortid" for what looks like a short id, else "id"
unfoldable pub id_index : Str → Index
id_index id = if is_short_id id then by_short_id else by_id

-- The last part of strings.Split(name, "-").
unfoldable pub last_of : List Str → Str
last_of [] = []
last_of (p ∷ []) = p
last_of (p ∷ q ∷ ps) = last_of (q ∷ ps)

module _ {R : Type 0} (db : MemDb R) where
  -- txn.First, and the error for a record that is not there
  unfoldable pub first_or_error : Index → Str → db.Table → Result Error R
  first_or_error i k t = elim (db.first i k t) [
    | err e ↦ err e
    | ok none ↦ err (not_found k)
    | ok (some r) ↦ ok r
  ]

-- The record of SaveContainer: `fresh` is what GenerateRandomID returns, `now` the time.
unfoldable pub with_id : Str → ℕ → Container → Container
with_id fresh now con =
    if is_nil con.id
    then record con { id = fresh; short_id = truncate_id fresh; created = now }
    else con

module _ (db : MemDb Container) where
  unfoldable pub get_container : Str → db.Table → Result Error Container
  unfolding first_or_error
  get_container id t = elim (db.first (id_index id) id t) [
    | err e ↦ err e
    | ok (some r) ↦ ok r
    | ok none ↦ first_or_error db by_name id t
  ]

  -- GetContainerByName: for a name with a '-' the part behind the last one may be an id
  unfoldable pub get_container_by_name : Str → db.Table → Result Error Container
  unfolding first_or_error
  get_container_by_name name t = elim (first_or_error db by_name name t) [
    | ok r ↦ ok r
    | err e ↦
        if any_of (λ c. c == b'-') name then get_container (last_of (split b'-' name)) t else err e
  ]

  unfoldable pub get_container_by_name_or_id : Str → db.Table → Result Error Container
  get_container_by_name_or_id id t = elim (get_container id t) [
    | ok r ↦ ok r
    | err e ↦ get_container_by_name id t
  ]

  unfoldable pub get_containers : db.Table → List Container
  get_containers t = db.rows t

  unfoldable pub save_container :
      Str → ℕ → Container → db.Table → Result Error (Container × db.Table)
  unfolding with_id
  save_container fresh now con t =
      let con' = with_id fresh now con in
      elim (db.insert con' t) [ err e ↦ err e | ok t' ↦ ok (con', t') ]

  unfoldable pub delete_container : Container → db.Table → Result Error db.Table
  delete_container con t = db.delete con t

-- The loop of GetNetworksByIDs.
unfoldable pub with_ids : GoMap Str (Unit {0}) → List Network → List Network
with_ids ids [] = []
with_ids ids (nw ∷ nws) =
    let rest = with_ids ids nws in if GoMap.has nw.id ids then nw ∷ rest else rest

-- GetNetwork, GetNetworkByName, GetNetworkByNameOrID, GetNetworks, SaveNetwork, DeleteNetwork
module _ (db : MemDb Network) where
  unfoldable pub get_network : Str → db.Table → Result Error Network
  unfolding first_or_error
  get_network id t = first_or_error db (id_index id) id t

  unfoldable pub get_network_by_name : Str → db.Table → Result Error Network
  unfolding first_or_error
  get_network_by_name name t = first_or_error db by_name name t

  unfoldable pub get_network_by_name_or_id : Str → db.Table → Result Error Network
  get_network_by_name_or_id id t = elim (get_network id t) [
    | ok r ↦ ok r
    | err e ↦ get_network_by_name id t
  ]

  unfoldable pub get_networks : db.Table → List Network
  get_networks t = db.rows t

  unfoldable pub get_networks_by_ids : GoMap Str (Unit {0}) → db.Table → List Network
  unfolding with_ids
  get_networks_by_ids ids t = with_ids ids (db.rows t)

  unfoldable pub save_network : Str → ℕ → Network → db.Table → Result Error (Network × db.Table)
  save_network fresh now nw t =
      let nw' : Network =
        if is_nil nw.id
        then record nw { id = fresh; short_id = truncate_id fresh; created = now }
        else nw in
      elim (db.insert nw' t) [ err e ↦ err e | ok t' ↦ ok (nw', t') ]

  unfoldable pub delete_network : Network → db.Table → Result Error db.Table
  delete_network nw t = db.delete nw t

  -- loadDefaults: the errors are not looked at; `fresh` numbers the calls of GenerateRandomID
  unfoldable pub save_default : Str → ℕ → Str → db.Table → db.Table
  unfolding save_network
  save_default fresh now name t =
      elim (save_network fresh now (record blank_network { name = name }) t) [
        | err e ↦ t
        | ok (nw, t') ↦ t'
      ]

  unfoldable pub load_defaults : (ℕ → Str) → ℕ → db.Table → db.Table
  unfolding save_default
  load_defaults fresh now t =
      save_default (fresh 2) now (codes "bridge")
        (save_default (fresh 1) now (codes "host") (save_default (fresh 0) now (codes "null") t))

module _ (db : MemDb Exec) where
  unfoldable pub get_exec : Str → db.Table → Result Error Exec
  unfolding first_or_error
  get_exec id t = first_or_error db by_id id t

  unfoldable pub get_execs : db.Table → List Exec
  get_execs t = db.rows t

  unfoldable pub save_exec : Str → ℕ → Exec → db.Table → Result Error (Exec × db.Table)
  save_exec fresh now exc t =
      let exc' : Exec = if is_nil exc.id then record exc { id = fresh; created = now } else exc in
      elim (db.insert exc' t) [ err e ↦ err e | ok t' ↦ ok (exc', t') ]

  unfoldable pub delete_exec : Exec → db.Table → Result Error db.Table
  delete_exec exc t = db.delete exc t

module _ (db : MemDb Image) where
  unfoldable pub get_image : Str → db.Table → Result Error Image
  unfolding first_or_error
  get_image id t = first_or_error db (id_index id) id t

  unfoldable pub get_image_by_name : Str → db.Table → Result Error Image
  unfolding first_or_error
  get_image_by_name name t = first_or_error db by_name name t

  unfoldable pub get_image_by_name_or_id : Str → db.Table → Result Error Image
  get_image_by_name_or_id id t = elim (get_image id t) [
    | ok r ↦ ok r
    | err e ↦ get_image_by_name id t
  ]

  unfoldable pub get_images : db.Table → List Image
  get_images t = db.rows t

  unfoldable pub save_image : Str → ℕ → Image → db.Table → Result Error (Image × db.Table)
  save_image fresh now img t =
      let img' : Image =
        if is_nil img.id
        then record img { id = fresh; short_id = truncate_id fresh; created = now }
        else img in
      elim (db.insert img' t) [ err e ↦ err e | ok t' ↦ ok (img', t') ]

  unfoldable pub delete_image : Image → db.Table → Result Error db.Table
  delete_image img t = db.delete img t
