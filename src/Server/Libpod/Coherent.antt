-- ===== src/Server/Libpod/Coherent.antt =====
-- The containers that podman's handlers create, and that they leave every container coherent.
use kubedock.Base.{
  ℕ, ◌≡◌, inl, inr, sym, subst, Bool, false, List, [], ◌∷◌, ◌++◌, Option, none, some, is_nil, ok,
  err, result-cases, arith, Str, str_eq_instance, int_eq_instance,
}
use kubedock.Base.GoMap
use kubedock.Base.Text.{codes}
use kubedock.Model.Error.{Error}
use kubedock.Model.Container.{Container, connect_network}
use kubedock.Model.Container.Ports.{add_host_port}
use kubedock.Model.Records.{Network, Image}
use kubedock.Model.Database.{get_network_by_name, get_container_by_name_or_id, save_container}
use kubedock.Model.Database.Tables.{MemDb, IsMemDb}
use kubedock.Model.Database.Lookup.{container_keys}
use kubedock.Model.Database.Store.{save_parts}
use kubedock.Backend.Interface.{Backend, IsBackend}
use kubedock.Server.World.{Config, World, status, publish, new_status, update_container_status}
use kubedock.Server.Create.{with_image_ports}
use kubedock.Base.Text.Decimal.{sprint}
use kubedock.Server.Create.Stored.{IsNew, add_host_port-IsNew, insert_some}
use kubedock.Server.Containers.Coherent.{
  AllCoherent, idle-IsCoherent, insert-AllCoherent, poke-AllCoherent,
}
use kubedock.Server.Containers.Created.{idle_saved}
use kubedock.Server.Containers.Preserve.{Fine, new_status-IsCoherent, get_by_name_or_id-IsCoherent}
use kubedock.Server.Libpod.{container_wait}
use kubedock.Server.Libpod.Create.{
  ContainerCreateRequest, PortMapping, described, add_mappings, set_network_aliases, bind_list,
  connect_bridge, new_container, save_and_create, container_create,
}

add_mappings-IsNew :
    (ms : List PortMapping) (co co' : Container)
    → add_mappings ms co ≡ ok co'
    → IsNew co
    → IsNew co'
unfolding add_mappings IsNew
add_mappings-IsNew [] co co' h new = (ground arith, ground arith)
add_mappings-IsNew (m ∷ more) co co' h new =
    elim (result-cases (add_host_port co (sprint m.host_port) (sprint m.container_port))) [
      | inl (c, e) ↦
          let next : Container = record c {
            exposed_ports = GoMap.insert (sprint m.container_port) tt c.exposed_ports;
          } in
          add_mappings-IsNew more next co' (ground arith)
            (add_host_port-IsNew co c (sprint m.host_port) (sprint m.container_port) e new)
      | inr (f, e) ↦ absurd (ground arith)
    ]

module _ (nws : MemDb Network) (imgs : MemDb Image) (networks : nws.Table) (images : imgs.Table)
    (cfg : Config) where
  start-IsNew :
      (q : Str) (rq : ContainerCreateRequest)
      → IsNew (with_image_ports imgs images (described q cfg rq))
  unfolding with_image_ports described IsNew
  start-IsNew q rq = (ground arith, ground arith)

  connect_bridge_lem :
      (co co' : Container)
      → connect_bridge nws imgs networks images cfg co ≡ ok co'
      → IsNew co
      → IsNew co' × (is_nil co'.networks ≡ false)
  unfolding connect_bridge connect_network IsNew
  connect_bridge_lem co co' h new =
      elim (result-cases (get_network_by_name nws (codes "bridge") networks)) [
        | inl (nw, e) ↦ (
          (ground arith, ground arith),
          ground (arith, insert_some nws networks nw.id co.networks),
        )
        | inr (f, e) ↦ absurd (ground arith)
      ]

  new_container_steps :
      (q : Str) (rq : ContainerCreateRequest) (co co1 : Container)
      → new_container nws imgs networks images cfg q rq ≡ ok co
      → add_mappings rq.port_mappings (with_image_ports imgs images (described q cfg rq)) ≡ ok co1
      → let co2 = set_network_aliases co1 rq.network in
        connect_bridge nws imgs networks images cfg
          (record co2 { binds = co2.binds ++ bind_list rq.mounts })
        ≡ ok co
  unfolding new_container
  new_container_steps q rq co co1 h e = ground arith

  no_container :
      (q : Str) (rq : ContainerCreateRequest) (co : Container) (e : Error)
      → new_container nws imgs networks images cfg q rq ≡ ok co
      → add_mappings rq.port_mappings (with_image_ports imgs images (described q cfg rq)) ≡ err e
      → ◌≡◌ {A = ℕ} 0 1
  unfolding new_container
  no_container q rq co e h h' = ground arith

  aliased-IsNew :
      (co : Container) (rq : ContainerCreateRequest)
      → IsNew co
      → let co2 = set_network_aliases co rq.network in
        IsNew (record co2 { binds = co2.binds ++ bind_list rq.mounts })
  unfolding IsNew set_network_aliases
  aliased-IsNew co rq new = (ground arith, ground arith)

  pub new_container_lem :
      (q : Str) (rq : ContainerCreateRequest) (co : Container)
      → new_container nws imgs networks images cfg q rq ≡ ok co
      → IsNew co × (is_nil co.networks ≡ false)
  new_container_lem q rq co h =
      let start = with_image_ports imgs images (described q cfg rq) in
      elim (result-cases (add_mappings rq.port_mappings start)) [
        | inl (co1, e) ↦
            let co2 = set_network_aliases co1 rq.network in
            connect_bridge_lem (record co2 { binds = co2.binds ++ bind_list rq.mounts }) co
              (new_container_steps q rq co co1 h e)
              (aliased-IsNew co1 rq
                (add_mappings-IsNew rq.port_mappings start co1 e (start-IsNew q rq)))
        | inr (f, e) ↦ absurd (omega (arith, no_container q rq co f h e))
      ]

module _ {K : Type 0} (db : MemDb Container) (nws : MemDb Network) (imgs : MemDb Image)
    (networks : nws.Table) (images : imgs.Table) (cfg : Config) (fresh : Str) (now : ℕ)
    (laws : IsMemDb container_keys db) where
  saved_table :
      (co co' : Container) (t : db.Table) (w : World db.Table K)
      → save_container db fresh now co w.table ≡ ok (co', t)
      → (save_and_create db nws imgs networks images cfg fresh now co w).1.table ≡ t
  unfolding save_and_create publish
  saved_table co co' t w e = ground arith

  kept_table :
      (co : Container) (e : Error) (w : World db.Table K)
      → save_container db fresh now co w.table ≡ err e
      → (save_and_create db nws imgs networks images cfg fresh now co w).1.table ≡ w.table
  unfolding save_and_create publish
  kept_table co e w h = ground arith

  save_and_create-AllCoherent :
      (co : Container) (w : World db.Table K)
      → IsNew co
      → AllCoherent db w.table
      → AllCoherent db (save_and_create db nws imgs networks images cfg fresh now co w).1.table
  save_and_create-AllCoherent co w new all =
      elim (result-cases (save_container db fresh now co w.table)) [
        | inl ((co', t), saved) ↦
            let (e, inserted) = save_parts db laws fresh now co co' w.table t saved in
            subst (AllCoherent db) (sym (saved_table co co' t w saved)) (
              insert-AllCoherent db laws co' w.table t
                (idle-IsCoherent co' (idle_saved fresh now co co' new e)) all inserted)
        | inr (e, lost) ↦ subst (AllCoherent db) (sym (kept_table co e w lost)) all
      ]

  pub created :
      (rq : ContainerCreateRequest) (q : Str) (w : World db.Table K) (co : Container)
      → new_container nws imgs networks images cfg q rq ≡ ok co
      → container_create db nws imgs networks images cfg fresh now (some rq) q w
        ≡ save_and_create db nws imgs networks images cfg fresh now co w
  unfolding container_create
  created rq q w co n = ground arith

  pub refused :
      (rq : ContainerCreateRequest) (q : Str) (w : World db.Table K) (e : Error)
      → new_container nws imgs networks images cfg q rq ≡ err e
      → container_create db nws imgs networks images cfg fresh now (some rq) q w ≡ (status 500, w)
  unfolding container_create
  refused rq q w e n = ground arith

  pub create-AllCoherent :
      (body : Option ContainerCreateRequest) (q : Str) (w : World db.Table K)
      → AllCoherent db w.table
      → AllCoherent db (container_create db nws imgs networks images cfg fresh now body q w).1.table
  unfolding container_create
  create-AllCoherent none q w all = all
  create-AllCoherent (some rq) q w all =
      elim (result-cases (new_container nws imgs networks images cfg q rq)) [
        | inl (co, n) ↦
            subst (λ x. AllCoherent db x.1.table) (sym (created rq q w co n))
              (save_and_create-AllCoherent co w
                (new_container_lem nws imgs networks images cfg q rq co n).0 all)
        | inr (e, n) ↦ subst (λ x. AllCoherent db x.1.table) (sym (refused rq q w e n)) all
      ]

module _ {K : Type 0} (db : MemDb Container) (be : Backend K) (cfg : Config)
    (laws : IsMemDb container_keys db) (isbe : IsBackend be) where
  wait_found :
      (fresh : Str) (now : ℕ) (allowed : Bool) (id : Str) (w : World db.Table K) (co : Container)
      → get_container_by_name_or_id db id w.table ≡ ok co
      → (container_wait db be cfg fresh now allowed id w).1.table
        ≡ db.poke (new_status db be cfg fresh now allowed co w.cluster) w.table
  unfolding container_wait update_container_status
  wait_found fresh now allowed id w co h = ground arith

  wait_lost :
      (fresh : Str) (now : ℕ) (allowed : Bool) (id : Str) (w : World db.Table K) (e : Error)
      → get_container_by_name_or_id db id w.table ≡ err e
      → (container_wait db be cfg fresh now allowed id w).1.table ≡ w.table
  unfolding container_wait
  wait_lost fresh now allowed id w e h = ground arith

  pub wait-AllCoherent :
      (fresh : Str) (now : ℕ) (allowed : Bool) (id : Str) (w : World db.Table K)
      → Fine db w
      → AllCoherent db (container_wait db be cfg fresh now allowed id w).1.table
  wait-AllCoherent fresh now allowed id w all =
      elim (result-cases (get_container_by_name_or_id db id w.table)) [
        | inl (co, h) ↦ subst (AllCoherent db) (sym (wait_found fresh now allowed id w co h)) (
            poke-AllCoherent db laws (new_status db be cfg fresh now allowed co w.cluster) w.table
              (new_status-IsCoherent db be cfg fresh now laws isbe allowed co w.cluster
                (get_by_name_or_id-IsCoherent db be cfg fresh now laws isbe id w.table co all h))
              all)
        | inr (e, h) ↦ subst (AllCoherent db) (sym (wait_lost fresh now allowed id w e h)) all
      ]
