-- ===== src/Model/Database/Tables.antt =====
-- go-memdb as internal/model/database.go uses it: one table of records with the indexes "id",
-- "shortid" and "name", and the laws of its documentation that the proofs need.
use kubedock.Base.{Bool, true, any_of, ◌≡◌, ◌≢◌, ◌⊎◌, List, [], Option, none, some, Result, ok, Str}
use kubedock.Model.Error.{Error}

pub data Index : Type 0 where
  by_id by_short_id by_name : Index

-- The fields that the indexes read; a record with no such field has the empty text there.
pub record Keyed (R : Type 0) : Type 0 where
  pub key : Index → R → Str

pub record MemDb (R : Type 0) : Type 1 where
  pub Table : Type 0
  -- all records, in the order of "id"
  pub rows : Table → List R
  -- txn.First: the first record with the key, if there is one
  pub first : Index → Str → Table → Result Error (Option R)
  -- txn.Insert and commit: adds the record, or updates the one with its id
  pub insert : R → Table → Result Error Table
  -- txn.Delete and commit
  pub delete : R → Table → Result Error Table
  -- The table holds pointers: what it shows after the fields of a record were written through its
  -- pointer. No index notices.
  pub poke : R → Table → Table

-- The id and the short id are unique: a record that is added is the one that they name. A table is
-- indexed while no key of its records was written through a pointer.
pub record IsMemDb {R : Type 0} (keys : Keyed R) (db : MemDb R) : Type 1 where
  pub Indexed : db.Table → Type 0
  pub first_succeeds :
      (i : Index) (k : Str) (t : db.Table) → (o : Option R) × (db.first i k t ≡ ok o)
  pub first_key :
      (i : Index) (k : Str) (t : db.Table) (r : R)
      → Indexed t
      → db.first i k t ≡ ok (some r)
      → keys.key i r ≡ k
  pub delete_indexed : (r : R) (t t' : db.Table) → Indexed t → db.delete r t ≡ ok t' → Indexed t'
  -- only a record with an empty key is refused
  pub insert_succeeds :
      (r : R) (t : db.Table)
      → ((i : Index) → keys.key i r ≢ [])
      → (t' : db.Table) × (db.insert r t ≡ ok t')
  pub insert_id :
      (r : R) (t t' : db.Table)
      → db.insert r t ≡ ok t'
      → (db.first by_id (keys.key by_id r) t' ≡ ok (some r))
        × (db.first by_short_id (keys.key by_short_id r) t' ≡ ok (some r))
  pub insert_rows :
      (p : R → Bool) (r : R) (t t' : db.Table)
      → db.insert r t ≡ ok t'
      → p r ≡ true
      → any_of p (db.rows t') ≡ true
  pub insert_name :
      (r : R) (t t' : db.Table)
      → db.insert r t ≡ ok t'
      → keys.key by_name r ≢ []
      → (x : R) × (db.first by_name (keys.key by_name r) t' ≡ ok (some x))
  pub insert_other :
      (i : Index) (k : Str) (r : R) (t t' : db.Table)
      → db.insert r t ≡ ok t'
      → keys.key i r ≢ k
      → (db.first by_id (keys.key by_id r) t ≡ ok none)
        ⊎ ((old : R) × (db.first by_id (keys.key by_id r) t ≡ ok (some old))
            × (keys.key i old ≡ keys.key i r))
      → db.first i k t' ≡ db.first i k t
  -- what is found after a change is the record of the change, or was there before
  pub insert_origin :
      (r : R) (t t' : db.Table) (i : Index) (k : Str) (x : R)
      → db.insert r t ≡ ok t'
      → db.first i k t' ≡ ok (some x)
      → (x ≡ r) ⊎ ((j : Index) × (l : Str) × (db.first j l t ≡ ok (some x)))
  -- a lookup by its id shows what was written to a record through its pointer
  pub poke_id :
      (r old : R) (t : db.Table)
      → db.first by_id (keys.key by_id r) t ≡ ok (some old)
      → db.first by_id (keys.key by_id r) (db.poke r t) ≡ ok (some r)
  pub poke_origin :
      (r : R) (t : db.Table) (i : Index) (k : Str) (x : R)
      → db.first i k (db.poke r t) ≡ ok (some x)
      → (x ≡ r) ⊎ ((j : Index) × (l : Str) × (db.first j l t ≡ ok (some x)))
  pub delete_origin :
      (r : R) (t t' : db.Table) (i : Index) (k : Str) (x : R)
      → db.delete r t ≡ ok t'
      → db.first i k t' ≡ ok (some x)
      → (j : Index) × (l : Str) × (db.first j l t ≡ ok (some x))
  pub delete_id :
      (r : R) (t t' : db.Table)
      → db.delete r t ≡ ok t'
      → (db.first by_id (keys.key by_id r) t' ≡ ok none)
        × ((k : Str) → keys.key by_id r ≢ k → db.first by_id k t' ≡ db.first by_id k t)
