-- ===== src/Model/Database/Store.antt =====
-- What SaveContainer and DeleteContainer do to later lookups.
use kubedock.Base.{
  ℕ, ◌≡◌, ◌≢◌, ◌⊎◌, inl, inr, refl, true, false, [], none, some, Result, ok, err, arith, Str,
}
use kubedock.Util.StringId.{is_short_id, truncate_id, validate_id}
use kubedock.Model.Error.{Error}
use kubedock.Model.Container.{Container}
use kubedock.Model.Database.{
  id_index, with_id, get_container, save_container, delete_container, first_or_error,
}
use kubedock.Model.Database.Tables.{Index, by_id, by_short_id, by_name, MemDb, IsMemDb}
use kubedock.Model.Database.Lookup.{container_key, container_keys}

-- A full id does not look like a short one.
pub valid_not_short : (s : Str) → validate_id s ≡ ok tt → is_short_id s ≡ false
unfolding validate_id is_short_id
valid_not_short s h = ground arith

new_keys :
    (fresh : Str) (now : ℕ) (con con' : Container)
    → con.id ≡ []
    → with_id fresh now con ≡ con'
    → (con'.id ≡ fresh) × (con'.short_id ≡ truncate_id fresh) × (con'.name ≡ con.name)
unfolding with_id
new_keys fresh now con con' new e = (ground arith, ground arith, ground arith)

pub id_index_full : (s : Str) → validate_id s ≡ ok tt → id_index s ≡ by_id
unfolding id_index
id_index_full s h = ground (arith, valid_not_short s h)

id_index_short : (s : Str) → is_short_id s ≡ true → id_index s ≡ by_short_id
unfolding id_index
id_index_short s h = ground arith

module _ (db : MemDb Container) (laws : IsMemDb container_keys db) where
  get_by :
      (k : Str) (i : Index) (co : Container) (t : db.Table)
      → id_index k ≡ i
      → db.first i k t ≡ ok (some co)
      → get_container db k t ≡ ok co
  unfolding get_container
  get_by k i co t e f = ground arith

  stored :
      (con : Container) (t t' : db.Table)
      → db.insert con t ≡ ok t'
      → (db.first by_id con.id t' ≡ ok (some con))
        × (db.first by_short_id con.short_id t' ≡ ok (some con))
  unfolding container_key
  stored con t t' h = laws.insert_id con t t' h

  save_result :
      (fresh : Str) (now : ℕ) (con con' : Container) (t t' : db.Table) (r : Result Error db.Table)
      → db.insert (with_id fresh now con) t ≡ r
      → save_container db fresh now con t ≡ ok (con', t')
      → (with_id fresh now con ≡ con') × (db.insert con' t ≡ ok t')
  unfolding save_container
  save_result fresh now con con' t t' (err e) i h = absurd (ground arith)
  save_result fresh now con con' t t' (ok u) i h = (ground arith, ground arith)

  pub save_parts :
      (fresh : Str) (now : ℕ) (con con' : Container) (t t' : db.Table)
      → save_container db fresh now con t ≡ ok (con', t')
      → (with_id fresh now con ≡ con') × (db.insert con' t ≡ ok t')
  save_parts fresh now con con' t t' h =
      save_result fresh now con con' t t' (db.insert (with_id fresh now con) t) refl h

  -- A container that is saved for the first time gets a full id and its short form, and is found
  -- by both.
  pub get-save_container :
      (fresh : Str) (now : ℕ) (con con' : Container) (t t' : db.Table)
      → con.id ≡ []
      → validate_id fresh ≡ ok tt
      → is_short_id (truncate_id fresh) ≡ true
      → save_container db fresh now con t ≡ ok (con', t')
      → (con'.id ≡ fresh)
        × (con'.name ≡ con.name)
        × (get_container db con'.id t' ≡ ok con')
        × (get_container db con'.short_id t' ≡ ok con')
  get-save_container fresh now con con' t t' new valid short h =
      let (e, i) = save_parts fresh now con con' t t' h in
      let (eid, eshort, ename) = new_keys fresh now con con' new e in
      let (found, found_short) = stored con' t t' i in
      (
        eid,
        ename,
        get_by con'.id by_id con' t' (id_index_full con'.id (rw eid valid)) found,
        get_by con'.short_id by_short_id con' t' (id_index_short con'.short_id (rw eshort short))
            found_short,
      )

  abbrev Kept : Index → Container → db.Table → Type 0
  Kept i con t =
      (db.first by_id con.id t ≡ ok none)
      ⊎ ((old : Container) × (db.first by_id con.id t ≡ ok (some old))
          × (container_key i old ≡ container_key i con))

  kept :
      (i : Index) (con : Container) (t : db.Table)
      → (db.first by_id con.id t ≡ ok none)
        ⊎ ((old : Container) × (db.first by_id con.id t ≡ ok (some old))
            × (old.id ≡ con.id)
            × (old.short_id ≡ con.short_id)
            × (old.name ≡ con.name))
      → Kept i con t
  unfolding container_key
  kept i con t (inl fresh) = inl fresh
  kept by_id con t (inr (old, f, eid, es, en)) = inr (old, f, eid)
  kept by_short_id con t (inr (old, f, eid, es, en)) = inr (old, f, es)
  kept by_name con t (inr (old, f, eid, es, en)) = inr (old, f, en)

  other :
      (i : Index) (k : Str) (con : Container) (t t' : db.Table)
      → db.insert con t ≡ ok t'
      → container_key i con ≢ k
      → Kept i con t
      → db.first i k t' ≡ db.first i k t
  unfolding container_key
  other i k con t t' h differ keep = laws.insert_other i k con t t' h differ keep

  -- Saving a container changes no lookup by another key, if it is a new one or keeps its keys.
  pub get-save_container_other :
      (fresh : Str) (now : ℕ) (con con' : Container) (t t' : db.Table) (k : Str)
      → save_container db fresh now con t ≡ ok (con', t')
      → con'.id ≢ k
      → con'.short_id ≢ k
      → con'.name ≢ k
      → (db.first by_id con'.id t ≡ ok none)
        ⊎ ((old : Container) × (db.first by_id con'.id t ≡ ok (some old))
            × (old.id ≡ con'.id)
            × (old.short_id ≡ con'.short_id)
            × (old.name ≡ con'.name))
      → get_container db k t' ≡ get_container db k t
  unfolding get_container first_or_error id_index container_key
  get-save_container_other fresh now con con' t t' k h hid hshort hname old =
      let (e, i) = save_parts fresh now con con' t t' h in
      ground (
        arith,
        other by_id k con' t t' i hid (kept by_id con' t old),
        other by_short_id k con' t t' i hshort (kept by_short_id con' t old),
        other by_name k con' t t' i hname (kept by_name con' t old),
      )

  -- What is deleted from an indexed table is not found by its full id any more, but for a container
  -- that has this id as its name; lookups by another full id find what they found.
  pub get-delete_container :
      (con : Container) (t t' : db.Table)
      → laws.Indexed t
      → delete_container db con t ≡ ok t'
      → is_short_id con.id ≡ false
      → ((co : Container) → get_container db con.id t' ≡ ok co → co.name ≡ con.id)
        × ((k : Str) (co : Container)
            → con.id ≢ k
            → is_short_id k ≡ false
            → db.first by_id k t ≡ ok (some co)
            → get_container db k t' ≡ ok co)
  unfolding delete_container get_container id_index container_key first_or_error
  get-delete_container con t t' ix h full =
      let (gone, rest) = laws.delete_id con t t' h in
      (
        λ co found.
            ground (arith, laws.first_key by_name con.id t' co (laws.delete_indexed con t t' ix h)),
        λ k co differ long found. ground (arith, rest k differ),
      )
