-- ===== src/Server/Libpod/Agree.antt =====
-- What the handlers of podman's API have to do with those of docker's.
use kubedock.Base.{ℕ, ◌≡◌, ◌↔◌, refl, if◌then◌else◌, not, ◌&&◌, Result, ok, err, arith, Str}
use kubedock.Base.Text.{codes}
use kubedock.Model.Error.{Error}
use kubedock.Model.Container.{Container}
use kubedock.Model.Database.{get_container_by_name_or_id, delete_container}
use kubedock.Model.Database.Tables.{MemDb}
use kubedock.Backend.Interface.{Backend}
use kubedock.Server.World.{Config, World, Response, status, publish, signal_all}
use kubedock.Server.Containers
use kubedock.Server.Containers.{or_404, delete_if_live}
use kubedock.Server.Libpod

-- How both handlers end; only the status of a success is not the same.
unfoldable answer : {T W : Type 0} → ℕ → Result Error T → (T → W) → W → Response × W
answer done r f w = elim r [ err e ↦ (status 404, w) | ok t ↦ (status done, f t) ]

answer_agrees :
    {T W : Type 0} (r : Result Error T) (f : T → W) (w : W)
    → ((answer 200 r f w).1 ≡ (answer 204 r f w).1)
      × (((answer 200 r f w).0 ≡ status 200) ↔ ((answer 204 r f w).0 ≡ status 204))
unfolding answer
answer_agrees (err e) f w = (refl, ground arith)
answer_agrees (ok t) f w = (refl, ground arith)

module _ {K : Type 0} (db : MemDb Container) (be : Backend K) (cfg : Config) (fresh : Str)
    (now : ℕ) where
  found_agrees :
      (co : Container) (w : World db.Table K)
      → ((Libpod.delete_found db be cfg fresh now co w).1
          ≡ (Containers.delete_found db be cfg fresh now co w).1)
        × (((Libpod.delete_found db be cfg fresh now co w).0 ≡ status 200)
            ↔ ((Containers.delete_found db be cfg fresh now co w).0 ≡ status 204))
  unfolding Libpod.delete_found Containers.delete_found answer
  found_agrees co w =
      let (co1, w1) = signal_all co w in
      let w2 = delete_if_live db be cfg fresh now co1 w1 in
      let w3 : World db.Table K =
        if not co1.stopped && not co1.killed then publish co1.id (codes "die") w2 else w2 in
      answer_agrees (delete_container db co1 w3.table) (λ t. record w3 { table = t })
        (record w3 { table = db.poke co1 w3.table })

  agrees :
      (id : Str) (w : World db.Table K) (r : Result Error Container)
      → ((or_404 r w (λ co. Libpod.delete_found db be cfg fresh now co w)).1
          ≡ (or_404 r w (λ co. Containers.delete_found db be cfg fresh now co w)).1)
        × (((or_404 r w (λ co. Libpod.delete_found db be cfg fresh now co w)).0 ≡ status 200) ↔ (
            (or_404 r w (λ co. Containers.delete_found db be cfg fresh now co w)).0 ≡ status 204))
  unfolding or_404
  agrees id w (err e) = (refl, ground arith)
  agrees id w (ok co) = found_agrees co w

  -- A delete by podman's API leaves the same world as one by docker's, and it is answered with 200
  -- exactly if docker's is answered with 204.
  pub container_delete_agrees :
      (id : Str) (w : World db.Table K)
      → ((Libpod.container_delete db be cfg fresh now id w).1
          ≡ (Containers.container_delete db be cfg fresh now id w).1)
        × (((Libpod.container_delete db be cfg fresh now id w).0 ≡ status 200)
            ↔ ((Containers.container_delete db be cfg fresh now id w).0 ≡ status 204))
  unfolding Libpod.container_delete Containers.container_delete
  container_delete_agrees id w = agrees id w (get_container_by_name_or_id db id w.table)
