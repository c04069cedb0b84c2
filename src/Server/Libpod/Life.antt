-- ===== src/Server/Libpod/Life.antt =====
-- A container of podman's API from its create to its delete.
use kubedock.Base.{
  ℕ, ◌≡◌, ◌⊎◌, inl, inr, refl, sym, ap, subst, ◌∙◌, true, false, [], ◌∷◌, Option, none, some,
  all_of, any_of, ◌==◌, ok, err, result-cases, arith, Str,
}
use kubedock.Base.Text.{codes}
use kubedock.Util.StringId.{validate_id, is_short_id, truncate_id, is_hex}
use kubedock.Model.Error.{Error}
use kubedock.Model.Container.{Container}
use kubedock.Model.Records.{Network, Image}
use kubedock.Model.Database.{
  get_container, get_container_by_name, get_container_by_name_or_id, first_or_error, id_index,
  save_container,
}
use kubedock.Model.Database.Tables.{MemDb, IsMemDb, by_name}
use kubedock.Model.Database.Lookup.{container_keys}
use kubedock.Model.Database.Store.{get-save_container}
use kubedock.Backend.Interface.{Backend}
use kubedock.Server.World.{Config, World, status, publish}
use kubedock.Server.Containers
use kubedock.Server.Containers.Gone.{container_delete-gone}
use kubedock.Server.Create.Stored.{IsNew}
use kubedock.Server.Libpod.{container_delete, container_exists}
use kubedock.Server.Libpod.Create.{
  ContainerCreateRequest, new_container, save_and_create, container_create,
}
use kubedock.Server.Libpod.Coherent.{created, refused, new_container_lem}
use kubedock.Server.Libpod.Agree.{container_delete_agrees}

no_dash : (s : Str) → all_of is_hex s ≡ true → any_of (λ c. c == b'-') s ≡ false
unfolding all_of any_of
no_dash [] h = refl
no_dash (c ∷ s) h = ground (arith, no_dash s)

full_no_dash : (s : Str) → validate_id s ≡ ok tt → any_of (λ c. c == b'-') s ≡ false
unfolding validate_id
full_no_dash s h = no_dash s (ground arith)

module _ {K : Type 0} (db : MemDb Container) (be : Backend K) (cfg : Config) (fresh : Str) (now : ℕ)
    (laws : IsMemDb container_keys db) where
  exists_ok :
      (id : Str) (co : Container) (w : World db.Table K)
      → get_container db id w.table ≡ ok co
      → (container_exists db be cfg fresh now id w).0 ≡ status 204
  unfolding container_exists Containers.or_404 get_container_by_name_or_id
  exists_ok id co w h = ground arith

  named_lost :
      (id : Str) (e : Error) (t : db.Table) (o : Option Container)
      → db.first (id_index id) id t ≡ ok o
      → get_container db id t ≡ err e
      → first_or_error db by_name id t ≡ err e
  unfolding get_container
  named_lost id e t none s h = ground arith
  named_lost id e t (some co) s h = absurd (ground arith)

  exists_lost :
      (id : Str) (e : Error) (w : World db.Table K)
      → get_container db id w.table ≡ err e
      → any_of (λ c. c == b'-') id ≡ false
      → (container_exists db be cfg fresh now id w).0 ≡ status 404
  unfolding container_exists Containers.or_404 get_container_by_name_or_id get_container_by_name
  exists_lost id e w h full =
      let (o, s) = laws.first_succeeds (id_index id) id w.table in
      let lost = named_lost id e w.table o s h in ground arith

  exists_iff :
      (id : Str) (w : World db.Table K)
      → any_of (λ c. c == b'-') id ≡ false
      → ((other : Container) → get_container db id w.table ≡ ok other → other.name ≡ id)
      → ((container_exists db be cfg fresh now id w).0 ≡ status 404)
        ⊎ ((other : Container) × (get_container db id w.table ≡ ok other) × (other.name ≡ id))
  exists_iff id w full named = elim (result-cases (get_container db id w.table)) [
    | inl (other, found) ↦ inr (other, found, named other found)
    | inr (e, lost) ↦ inl (exists_lost id e w lost full)
  ]

  by_name_or_id_ok :
      (id : Str) (co : Container) (t : db.Table)
      → get_container db id t ≡ ok co
      → get_container_by_name_or_id db id t ≡ ok co
  unfolding get_container_by_name_or_id
  by_name_or_id_ok id co t h = ground arith

module _ {K : Type 0} (db : MemDb Container) (nws : MemDb Network) (imgs : MemDb Image)
    (networks : nws.Table) (images : imgs.Table) (cfg : Config) (fresh : Str) (now : ℕ)
    (laws : IsMemDb container_keys db) where
  saved_or_500 :
      (co : Container) (w : World db.Table K)
      → (save_and_create db nws imgs networks images cfg fresh now co w).0 ≡ status 201
      → (co' : Container) × (t : db.Table) × (save_container db fresh now co w.table ≡ ok (co', t))
        × (save_and_create db nws imgs networks images cfg fresh now co w
            ≡ (status 201, publish co'.id (codes "create") (record w { table = t })))
  unfolding save_and_create
  saved_or_500 co w h = elim (result-cases (save_container db fresh now co w.table)) [
    | inl ((co', t), e) ↦ (co', t, e, ground arith)
    | inr (e, lost) ↦ absurd (ground arith)
  ]

  stored :
      (co : Container) (w : World db.Table K)
      → IsNew co
      → validate_id fresh ≡ ok tt
      → is_short_id (truncate_id fresh) ≡ true
      → (save_and_create db nws imgs networks images cfg fresh now co w).0 ≡ status 201
      → (co' : Container) × (co'.id ≡ fresh)
        × (get_container db fresh
              (save_and_create db nws imgs networks images cfg fresh now co w).1.table
            ≡ ok co')
  unfolding publish IsNew
  stored co w new full short h =
      let (co', t, saved, e) = saved_or_500 co w h in
      let (eid, ename, found, found_short) =
        get-save_container db laws fresh now co co' w.table t new.0 full short saved in
      (
        co',
        eid,
        subst (λ x. get_container db fresh x.1.table ≡ ok co') (sym e)
            (subst (λ x. get_container db x t ≡ ok co') eid found),
      )

  created_stored :
      (rq : ContainerCreateRequest) (q : Str) (w : World db.Table K)
      → validate_id fresh ≡ ok tt
      → is_short_id (truncate_id fresh) ≡ true
      → (container_create db nws imgs networks images cfg fresh now (some rq) q w).0 ≡ status 201
      → (co' : Container) × (co'.id ≡ fresh)
        × (get_container db fresh
              (container_create db nws imgs networks images cfg fresh now (some rq) q w).1.table
            ≡ ok co')
  created_stored rq q w full short h =
      elim (result-cases (new_container nws imgs networks images cfg q rq)) [
        | inl (co, n) ↦
            let e = created db nws imgs networks images cfg fresh now laws rq q w co n in
            let (new, connected) = new_container_lem nws imgs networks images cfg q rq co n in
            let (co', eid, found) = stored co w new full short (sym (ap (λ x. x.0) e) ∙ h) in
            (co', eid, subst (λ x. get_container db fresh x.1.table ≡ ok co') (sym e) found)
        | inr (e, n) ↦
            let no = refused db nws imgs networks images cfg fresh now laws rq q w e n in
            absurd (ground arith)
      ]

  -- the container that is left by docker's delete is the one left by podman's
  named_at :
      (be : Backend K) (w1 : World db.Table K) (co other : Container)
      → co.id ≡ fresh
      → (container_delete db be cfg fresh now fresh w1).1
        ≡ (Containers.container_delete db be cfg fresh now fresh w1).1
      → ((x : Container)
          → get_container db co.id
              (Containers.container_delete db be cfg fresh now fresh w1).1.table
            ≡ ok x
          → x.name ≡ co.id)
      → get_container db fresh (container_delete db be cfg fresh now fresh w1).1.table ≡ ok other
      → other.name ≡ fresh
  named_at be w1 co other eid same gone h = gone other (rw (eid, sym same) h) ∙ eid

  -- Where the fresh id is a full id and a create is answered with 201, the container exists, with
  -- 204, by this id.
  pub create-exists :
      (be : Backend K) (rq : ContainerCreateRequest) (q : Str) (w : World db.Table K)
      → validate_id fresh ≡ ok tt
      → is_short_id (truncate_id fresh) ≡ true
      → (container_create db nws imgs networks images cfg fresh now (some rq) q w).0 ≡ status 201
      → let w1 = (container_create db nws imgs networks images cfg fresh now (some rq) q w).1 in
        (container_exists db be cfg fresh now fresh w1).0 ≡ status 204
  create-exists be rq q w full short answered =
      let w1 = (container_create db nws imgs networks images cfg fresh now (some rq) q w).1 in
      let (co, eid, found) = created_stored rq q w full short answered in
      exists_ok db be cfg fresh now laws fresh co w1 found

  -- Where the fresh id is a full id, a create is answered with 201, the table is then indexed and a
  -- delete by this id is answered with 200: before the delete the container exists, with 204, by
  -- this id; after it none does, with 404, unless a container has this id as its name.
  pub create-exists-delete :
      (be : Backend K) (rq : ContainerCreateRequest) (q : Str) (w : World db.Table K)
      → validate_id fresh ≡ ok tt
      → is_short_id (truncate_id fresh) ≡ true
      → (container_create db nws imgs networks images cfg fresh now (some rq) q w).0 ≡ status 201
      → laws.Indexed
          (container_create db nws imgs networks images cfg fresh now (some rq) q w).1.table
      → let w1 = (container_create db nws imgs networks images cfg fresh now (some rq) q w).1 in
        (container_delete db be cfg fresh now fresh w1).0 ≡ status 200
        → let w2 = (container_delete db be cfg fresh now fresh w1).1 in
          ((container_exists db be cfg fresh now fresh w1).0 ≡ status 204)
          × (((container_exists db be cfg fresh now fresh w2).0 ≡ status 404)
              ⊎ ((other : Container) × (get_container db fresh w2.table ≡ ok other)
                  × (other.name ≡ fresh)))
  create-exists-delete be rq q w full short answered ix deleted =
      let w1 = (container_create db nws imgs networks images cfg fresh now (some rq) q w).1 in
      let (co, eid, found) = created_stored rq q w full short answered in
      let (same, status_iff) = container_delete_agrees db be cfg fresh now fresh w1 in
      let (gone, rest) =
        container_delete-gone db be cfg fresh now laws fresh co w1
          (by_name_or_id_ok db be cfg fresh now laws fresh co w1.table found) ix
          (subst (λ x. validate_id x ≡ ok tt) (sym eid) full) (status_iff.0 deleted) in
      (
        exists_ok db be cfg fresh now laws fresh co w1 found,
        exists_iff db be cfg fresh now laws fresh (container_delete db be cfg fresh now fresh w1).1
            (full_no_dash fresh full) (λ other h. named_at be w1 co other eid same gone h),
      )
