-- ===== src/Server/Containers/Created.antt =====
-- A create leaves every container of the table coherent.
use kubedock.Base.{
  ℕ, ◌≡◌, ◌⊎◌, inl, inr, refl, sym, subst, false, Option, none, some, Result, ok, err, result-cases,
  arith, Str,
}
use kubedock.Model.Error.{Error}
use kubedock.Model.Container.{Container}
use kubedock.Model.Records.{Network, Image}
use kubedock.Model.Database.{save_container, with_id}
use kubedock.Model.Database.Tables.{MemDb, IsMemDb}
use kubedock.Model.Database.Lookup.{container_keys}
use kubedock.Model.Database.Store.{save_parts}
use kubedock.Server.World.{Config, World, publish}
use kubedock.Server.Create.{ContainerCreateRequest, new_container, container_create}
use kubedock.Server.Create.Stored.{IsNew, new_container_lem}
use kubedock.Server.Containers.Coherent.{AllCoherent, idle-IsCoherent, insert-AllCoherent}

pub idle_saved :
    (fresh : Str) (now : ℕ) (co co' : Container)
    → IsNew co
    → with_id fresh now co ≡ co'
    → co'.running ≡ false
unfolding IsNew with_id
idle_saved fresh now co co' new e = ground arith

module _ {K : Type 0} (db : MemDb Container) (nws : MemDb Network) (imgs : MemDb Image)
    (networks : nws.Table) (images : imgs.Table) (cfg : Config) (fresh : Str) (now : ℕ)
    (laws : IsMemDb container_keys db) where
  -- The table of a create is the one before it, or that with the new container inserted.
  table_of :
      (rq : ContainerCreateRequest) (q : Str) (w : World db.Table K) (r : Result Error Container)
      → new_container nws imgs networks images cfg q rq ≡ r
      → ((container_create db nws imgs networks images cfg fresh now (some rq) q w).1.table
          ≡ w.table)
        ⊎ ((co : Container) × (co' : Container) × (t : db.Table) × (new_container nws imgs networks
                images cfg q rq
              ≡ ok co)
            × (save_container db fresh now co w.table ≡ ok (co', t))
            × ((container_create db nws imgs networks images cfg fresh now (some rq) q w).1.table
                ≡ t))
  unfolding container_create publish
  table_of rq q w (err e) n = inl (ground arith)
  table_of rq q w (ok co) n = elim (result-cases (save_container db fresh now co w.table)) [
    | inl ((co', t), saved) ↦ inr (co, co', t, n, saved, ground arith)
    | inr (e, lost) ↦ inl (ground arith)
  ]

  pub create-AllCoherent :
      (body : Option ContainerCreateRequest) (q : Str) (w : World db.Table K)
      → AllCoherent db w.table
      → AllCoherent db (container_create db nws imgs networks images cfg fresh now body q w).1.table
  unfolding container_create
  create-AllCoherent none q w all = all
  create-AllCoherent (some rq) q w all =
      elim (table_of rq q w (new_container nws imgs networks images cfg q rq) refl) [
        | inl same ↦ subst (AllCoherent db) (sym same) all
        | inr (co, co', t, n, saved, same) ↦
            let (new, connected) = new_container_lem nws imgs networks images cfg q rq co n in
            let (e, inserted) = save_parts db laws fresh now co co' w.table t saved in
            subst (AllCoherent db) (sym same) (
              insert-AllCoherent db laws co' w.table t
                (idle-IsCoherent co' (idle_saved fresh now co co' new e)) all inserted)
      ]
