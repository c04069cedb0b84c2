-- ===== src/Model/Database/Indexes.antt =====
-- A table that meets the laws of `IsMemDb`: one map for each index.
use kubedock.Base.{
  Bool, true, any_of, [], ◌∷◌, ◌≡◌, ◌⊎◌, inl, inr, refl, sym, subst, Bool-cases, map, Option, none,
  some, if◌then◌else◌, Result, ok, arith, Str, str_eq, str_eq_iff, str_eq_refl, str_eq_instance,
}
use kubedock.Base.GoMap
use kubedock.Base.GoMap.{GoMap, lookup-insert, lookup-delete}
use kubedock.Model.Error.{Error}
use kubedock.Model.Database.Tables.{Index, by_id, by_short_id, by_name, Keyed, MemDb, IsMemDb}

pub record Indexes (R : Type 0) : Type 0 where
  pub ids : GoMap Str R
  pub short_ids : GoMap Str R
  pub names : GoMap Str R

-- the values of a map after an insertion
any-insert :
    {R : Type 0} (p : R → Bool) (k : Str) (r : R) (m : GoMap Str R)
    → p r ≡ true
    → any_of p (map (λ e. e.1) (GoMap.insert k r m)) ≡ true
unfolding any_of GoMap.insert
any-insert p k r [] h = ground arith
any-insert p k r ((j, x) ∷ m) h = ground (arith, any-insert p k r m)

module _ {R : Type 0} (keys : Keyed R) where
  abbrev pub index : Index → Indexes R → GoMap Str R
  index by_id t = t.ids
  index by_short_id t = t.short_ids
  index by_name t = t.names

  abbrev pub checked : Index → Str → Option R → Option R
  checked i k none = none
  checked i k (some r) = if str_eq (keys.key i r) k then some r else none

  abbrev pub put : R → Indexes R → Indexes R
  put r t = record {
    ids = GoMap.insert (keys.key by_id r) r t.ids;
    short_ids = GoMap.insert (keys.key by_short_id r) r t.short_ids;
    names = GoMap.insert (keys.key by_name r) r t.names;
  }

  abbrev pub remove : R → Indexes R → Indexes R
  remove r t = record {
    ids = GoMap.delete (keys.key by_id r) t.ids;
    short_ids = GoMap.delete (keys.key by_short_id r) t.short_ids;
    names = GoMap.delete (keys.key by_name r) t.names;
  }

  abbrev pub indexes : MemDb R
  indexes = record {
    Table = Indexes R;
    rows = λ t. map (λ e. e.1) t.ids;
    first = λ i k t. ok (checked i k (GoMap.lookup k (index i t)));
    insert = λ r t. ok (put r t);
    delete = λ r t. ok (remove r t);
    poke = put;
  }

  first-put :
      (i : Index) (k : Str) (r : R) (t : Indexes R)
      → GoMap.lookup k (index i (put r t))
        ≡ (if str_eq (keys.key i r) k then some r else GoMap.lookup k (index i t))
  first-put by_id k r t = lookup-insert (keys.key by_id r) k r t.ids
  first-put by_short_id k r t = lookup-insert (keys.key by_short_id r) k r t.short_ids
  first-put by_name k r t = lookup-insert (keys.key by_name r) k r t.names

  put_self :
      (i : Index) (r : R) (t : Indexes R)
      → checked i (keys.key i r) (GoMap.lookup (keys.key i r) (index i (put r t))) ≡ some r
  put_self i r t = ground (arith, first-put i (keys.key i r) r t, str_eq_refl (keys.key i r))

  checked_key :
      (i : Index) (k : Str) (o : Option R) (r : R) → checked i k o ≡ some r → keys.key i r ≡ k
  checked_key i k none r h = cc
  checked_key i k (some x) r h = ground (arith, str_eq_iff (keys.key i x) k)

  put_origin :
      (r : R) (t : Indexes R) (i : Index) (k : Str) (x : R)
      → indexes.first i k (put r t) ≡ ok (some x)
      → (x ≡ r) ⊎ ((j : Index) × (l : Str) × (indexes.first j l t ≡ ok (some x)))
  put_origin r t i k x h = elim (Bool-cases (str_eq (keys.key i r) k)) [
    | inl same ↦ inl (ground (arith, first-put i k r t))
    | inr differ ↦ inr (i, k, ground (arith, first-put i k r t))
  ]

  first-remove :
      (i : Index) (k : Str) (r : R) (t : Indexes R)
      → GoMap.lookup k (index i (remove r t))
        ≡ (if str_eq (keys.key i r) k then none else GoMap.lookup k (index i t))
  first-remove by_id k r t = lookup-delete (keys.key by_id r) k t.ids
  first-remove by_short_id k r t = lookup-delete (keys.key by_short_id r) k t.short_ids
  first-remove by_name k r t = lookup-delete (keys.key by_name r) k t.names

  remove_origin :
      (r : R) (t : Indexes R) (i : Index) (k : Str) (x : R)
      → indexes.first i k (remove r t) ≡ ok (some x)
      → indexes.first i k t ≡ ok (some x)
  remove_origin r t i k x h = ground (arith, first-remove i k r t)

  same_table : (t u : Indexes R) → ◌≡◌ {A = Result Error (Indexes R)} (ok t) (ok u) → t ≡ u
  same_table t u h = cc

  at_table :
      (i : Index) (k : Str) (x : R) (t u : Indexes R)
      → ◌≡◌ {A = Result Error (Indexes R)} (ok t) (ok u)
      → indexes.first i k u ≡ ok (some x)
      → indexes.first i k t ≡ ok (some x)
  at_table i k x t u h f = subst (λ v. indexes.first i k v ≡ ok (some x)) (sym (same_table t u h)) f

  pub indexes-IsMemDb : IsMemDb keys indexes
  indexes-IsMemDb = record {
    Indexed = λ t. Unit {0};
    delete_indexed = λ r t t' ix h. tt;
    first_succeeds = λ i k t. (checked i k (GoMap.lookup k (index i t)), refl);
    first_key = λ i k t r ix h. checked_key i k (GoMap.lookup k (index i t)) r (ground arith);
    insert_succeeds = λ r t h. (put r t, refl);
    insert_id =
        λ r t t' h. (ground (arith, put_self by_id r t), ground (arith, put_self by_short_id r t));
    insert_rows = λ p r t t' h holds. ground (arith, any-insert p (keys.key by_id r) r t.ids holds);
    insert_name = λ r t t' h n. (r, ground (arith, put_self by_name r t));
    insert_other =
        λ i k r t t' h differ old. ground (arith, first-put i k r t, str_eq_iff (keys.key i r) k);
    insert_origin = λ r t t' i k x h f. put_origin r t i k x (at_table i k x (put r t) t' h f);
    poke_id = λ r old t h. ground (arith, put_self by_id r t);
    poke_origin = λ r t i k x f. put_origin r t i k x f;
    delete_origin =
        λ r t t' i k x h f. (i, k, remove_origin r t i k x (at_table i k x (remove r t) t' h f));
    delete_id = λ r t t' h. (
      ground (
        arith,
        lookup-delete (keys.key by_id r) (keys.key by_id r) t.ids,
        str_eq_refl (keys.key by_id r),
      ),
      λ k differ.
          ground (arith, lookup-delete (keys.key by_id r) k t.ids, str_eq_iff (keys.key by_id r) k),
    );
  }

  pub indexes-Indexed : (t : Indexes R) → indexes-IsMemDb.Indexed t
  unfolding indexes-IsMemDb
  indexes-Indexed t = tt
