-- ===== src/Server/Inspect/Listed.antt =====
-- A container that was created is listed and shown.
use kubedock.Base.{
  ℕ, ◌≡◌, refl, sym, ap, subst, ◌∙◌, Bool, true, false, ◌&&◌, not, List, [], ◌∷◌, none, some,
  any_of, Result, ok, arith, Str, str_eq, str_eq_refl,
}
use kubedock.Base.Text.{codes}
use kubedock.Util.StringId.{validate_id, is_short_id, truncate_id}
use kubedock.Model.Error.{Error}
use kubedock.Model.Container.{Container, status_string}
use kubedock.Model.Container.Match
use kubedock.Model.Records.{Network, Image}
use kubedock.Model.Database.{get_container, get_container_by_name_or_id, get_containers}
use kubedock.Model.Database.Tables.{MemDb, IsMemDb}
use kubedock.Model.Database.Lookup.{container_keys}
use kubedock.Model.Database.Store.{get-save_container, save_parts}
use kubedock.Backend.Interface.{Backend}
use kubedock.Server.World.{Config, World, status, publish, new_status, update_container_status}
use kubedock.Server.Filter
use kubedock.Server.Filter.{Json}
use kubedock.Server.Ports.{get_container_names}
use kubedock.Server.Create.{ContainerCreateRequest, new_container, container_create}
use kubedock.Server.Create.Stored.{IsNew, created, kept_fields, new_container_lem}
use kubedock.Server.Inspect.{
  Detail, detail, summary, Info, first_name, get_state, get_container_info, inspect, summarise,
  container_info, list_matching, container_list,
}

-- The container is shown as running.
unfoldable pub shows_running : Detail → Bool
shows_running (detail s c) = s.running
shows_running (summary labels state st ports) = str_eq state (codes "healthy")

-- The container is shown with the id, under a name, and not as running.
unfoldable pub shows_created : Str → Info → Bool
shows_created id info =
    str_eq info.id id
    && (elim info.name [ none ↦ false | some name ↦ true ])
    && not (shows_running info.rest)

named :
    (co : Container)
    → (elim (first_name (get_container_names co)) [ none ↦ false | some n ↦ true ]) ≡ true
unfolding get_container_names first_name
named co = ground arith

module _ {K : Type 0} (db : MemDb Container) (nws : MemDb Network) (be : Backend K)
    (networks : nws.Table) (cfg : Config) (fresh : Str) (now : ℕ) where
  any_of-list_matching :
      (p : Info → Bool) (regexp_match : Str → Str → Result Error Bool) (f : Filter.Filter)
      (cos : List Container)
      → any_of p (list_matching db nws be networks cfg fresh now regexp_match f cos)
        ≡ any_of
            (λ co.
              Filter.matches (Match.matches regexp_match co) f
              && p (summarise db nws be networks cfg fresh now co))
            cos
  unfolding any_of list_matching
  any_of-list_matching p regexp_match f [] = refl
  any_of-list_matching p regexp_match f (co ∷ cos) =
      ground (arith, any_of-list_matching p regexp_match f cos)

  summarised :
      (co : Container)
      → co.running ≡ false
      → shows_created co.id (summarise db nws be networks cfg fresh now co) ≡ true
  unfolding summarise shows_created get_container_info shows_running status_string codes str_eq
  summarised co idle = ground (arith, named co, str_eq_refl co.id)

  still_idle :
      (allowed : Bool) (co : Container) (k : K)
      → co.running ≡ false
      → (new_status db be cfg fresh now allowed co k).running ≡ false
  unfolding new_status
  still_idle allowed co k idle = ground arith

  inspected :
      (allowed : Bool) (co : Container) (w : World db.Table K)
      → co.running ≡ false
      → shows_created co.id (inspect db nws be networks cfg fresh now allowed co w).0 ≡ true
  unfolding inspect shows_created get_container_info shows_running get_state update_container_status
  inspected allowed co w idle =
      ground (arith, named co, str_eq_refl co.id, still_idle allowed co w.cluster idle)

  all_listed :
      (p : Info → Bool) (json : Json) (regexp_match : Str → Str → Result Error Bool)
      (w : World db.Table K)
      → any_of (λ co. p (summarise db nws be networks cfg fresh now co)) (db.rows w.table) ≡ true
      → (infos : List Info) × (container_list db nws be networks cfg fresh now json regexp_match []
            w
          ≡ (status 200, some infos, w))
        × (any_of p infos ≡ true)
  unfolding container_list Filter.create Filter.matches get_containers
  all_listed p json regexp_match w h = (
    list_matching db nws be networks cfg fresh now regexp_match [] (db.rows w.table),
    refl,
    any_of-list_matching p regexp_match [] (db.rows w.table) ∙ h,
  )

  shown_found :
      (allowed : Bool) (id : Str) (co : Container) (w : World db.Table K)
      → get_container db id w.table ≡ ok co
      → co.running ≡ false
      → (info : Info) × ((container_info db nws be networks cfg fresh now allowed id w).0
          ≡ status 200)
        × ((container_info db nws be networks cfg fresh now allowed id w).1 ≡ some info)
        × (shows_created co.id info ≡ true)
  unfolding container_info get_container_by_name_or_id
  shown_found allowed id co w found idle = (
    (inspect db nws be networks cfg fresh now allowed co w).0,
    ground arith,
    ground arith,
    inspected allowed co w idle,
  )

module _ {K : Type 0} (db : MemDb Container) (nws : MemDb Network) (imgs : MemDb Image)
    (be : Backend K) (networks : nws.Table) (images : imgs.Table) (cfg : Config) (fresh : Str)
    (now : ℕ) (laws : IsMemDb container_keys db) where
  -- what a create that is answered with 201 leaves
  created_found :
      (rq : ContainerCreateRequest) (q : Str) (w : World db.Table K)
      → validate_id fresh ≡ ok tt
      → is_short_id (truncate_id fresh) ≡ true
      → (container_create db nws imgs networks images cfg fresh now (some rq) q w).0 ≡ status 201
      → (co : Container) × (t : db.Table) × (db.insert co w.table ≡ ok t)
        × (get_container db fresh t ≡ ok co)
        × (co.id ≡ fresh)
        × (co.running ≡ false)
        × ((container_create db nws imgs networks images cfg fresh now (some rq) q w).1.table ≡ t)
  unfolding publish IsNew
  created_found rq q w full short answered =
      let (co, co', t, n, saved, e) =
        created db nws imgs networks images cfg fresh now laws rq q w
          (new_container nws imgs networks images cfg q rq) refl answered in
      let (new, connected) = new_container_lem nws imgs networks images cfg q rq co n in
      let (same, inserted) = save_parts db laws fresh now co co' w.table t saved in
      let (eid, idle, nets) = kept_fields fresh now co co' same new in
      let (eid', ename, found, found_short) =
        get-save_container db laws fresh now co co' w.table t new.0 full short saved in
      (
        co',
        t,
        inserted,
        subst (λ x. get_container db x t ≡ ok co') eid found,
        eid,
        idle,
        ap (λ a. a.1.table) e,
      )

  -- Where the fresh id is a full id and a create is answered with 201, the list without filters has
  -- an entry with this id, and the details of this id are shown, with 200: each under some name, as
  -- the first of the names is always there, and each as not running, whatever the state of the pod
  -- is said to be.
  pub create-list-info :
      (json : Json) (regexp_match : Str → Str → Result Error Bool) (allowed : Bool)
      (rq : ContainerCreateRequest) (q : Str) (w : World db.Table K)
      → validate_id fresh ≡ ok tt
      → is_short_id (truncate_id fresh) ≡ true
      → (container_create db nws imgs networks images cfg fresh now (some rq) q w).0 ≡ status 201
      → let w' = (container_create db nws imgs networks images cfg fresh now (some rq) q w).1 in
        ((infos : List Info) × (container_list db nws be networks cfg fresh now json regexp_match []
              w'
            ≡ (status 200, some infos, w'))
          × (any_of (shows_created fresh) infos ≡ true))
        × ((info : Info) × ((container_info db nws be networks cfg fresh now allowed fresh w').0
              ≡ status 200)
            × ((container_info db nws be networks cfg fresh now allowed fresh w').1 ≡ some info)
            × (shows_created fresh info ≡ true))
  create-list-info json regexp_match allowed rq q w full short answered =
      let w' = (container_create db nws imgs networks images cfg fresh now (some rq) q w).1 in
      let (co, t, inserted, found, own, idle, here) = created_found rq q w full short answered in
      let row =
        laws.insert_rows (λ c. shows_created fresh (summarise db nws be networks cfg fresh now c))
          co w.table t inserted
          (subst (λ id. shows_created id (summarise db nws be networks cfg fresh now co) ≡ true) own
            (summarised db nws be networks cfg fresh now co idle)) in
      let (info, answer, written, fine) =
        shown_found db nws be networks cfg fresh now allowed fresh co w'
          (subst (λ u. get_container db fresh u ≡ ok co) (sym here) found) idle in
      (
        all_listed db nws be networks cfg fresh now (shows_created fresh) json regexp_match w' (
            subst
              (λ u.
                any_of (λ c. shows_created fresh (summarise db nws be networks cfg fresh now c))
                  (db.rows u)
                ≡ true)
              (sym here) row),
        (info, answer, written, subst (λ id. shows_created id info ≡ true) own fine),
      )
