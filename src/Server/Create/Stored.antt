-- ===== src/Server/Create/Stored.antt =====
-- What ContainerCreate leaves in the table.
use kubedock.Base.{
  result-cases, ℕ, ◌≡◌, inl, inr, refl, sym, ap, subst, ◌∙◌, true, false, List, [], ◌∷◌, ◌++◌, some,
  is_nil, Result, ok, err, arith, Str, str_eq_instance, int_eq_instance,
}
use kubedock.Base.GoMap
use kubedock.Base.GoMap.{GoMap}
use kubedock.Base.Text.{codes}
use kubedock.Util.StringId.{validate_id, is_short_id, truncate_id}
use kubedock.Model.Error.{Error}
use kubedock.Model.Container.{Container, connect_network}
use kubedock.Model.Container.Ports.{add_host_port}
use kubedock.Model.Records.{Network, Image}
use kubedock.Model.Database.{get_container, save_container, get_network_by_name, with_id}
use kubedock.Model.Database.Tables.{MemDb, IsMemDb}
use kubedock.Model.Database.Lookup.{container_keys}
use kubedock.Model.Database.Store.{get-save_container, save_parts}
use kubedock.Server.World.{Config, World, status, publish}
use kubedock.Server.Networks.{add_network_aliases}
use kubedock.Server.Create.{
  EndpointConfig, ContainerCreateRequest, requested, add_bindings, add_all_bindings,
  with_image_ports, connect_mode, connect_endpoint, connect_endpoints, connect_default,
  new_container, container_create,
}

ok_same : (x y : Container) → ◌≡◌ {A = Result Error Container} (ok x) (ok y) → x ≡ y
ok_same x y h = cc

-- Not in the table and not started.
unfoldable pub IsNew : Container → Type 0
IsNew co = (co.id ≡ []) × (co.running ≡ false)

pub add_host_port-IsNew :
    (co co' : Container) (src dst : Str) → add_host_port co src dst ≡ ok co' → IsNew co → IsNew co'
unfolding add_host_port IsNew
add_host_port-IsNew co co' src dst h new = ground arith

-- A part of the handler that leaves a new container new.
unfoldable Keeps : (Container → Result Error Container) → Type 0
Keeps f = (co co' : Container) → f co ≡ ok co' → IsNew co → IsNew co'

unfoldable chain :
    (Container → Result Error Container)
    → (Container → Result Error Container)
    → Container
    → Result Error Container
chain f g co = elim (f co) [ err e ↦ err e | ok c ↦ g c ]

chained :
    (f g : Container → Result Error Container) (co co' : Container) (r : Result Error Container)
    → f co ≡ r
    → Keeps f
    → Keeps g
    → chain f g co ≡ ok co'
    → IsNew co
    → IsNew co'
unfolding chain Keeps
chained f g co co' (err e) b kf kg h new = absurd (ground arith)
chained f g co co' (ok c) b kf kg h new = kg c co' (ground arith) (kf co c b new)

chain-Keeps : (f g : Container → Result Error Container) → Keeps f → Keeps g → Keeps (chain f g)
unfolding Keeps
chain-Keeps f g kf kg co co' h new = chained f g co co' (f co) refl kf kg h new

done-Keeps : Keeps (λ co. ok co)
unfolding Keeps
done-Keeps co co' h new = subst IsNew (ok_same co co' h) new

add_bindings-Keeps : (dst : Str) (ports : List Str) → Keeps (add_bindings dst ports)
unfolding add_bindings chain Keeps
add_bindings-Keeps dst [] = done-Keeps
add_bindings-Keeps dst (src ∷ more) =
    chain-Keeps (λ co. add_host_port co src dst) (add_bindings dst more)
      (λ co co' h. add_host_port-IsNew co co' src dst h) (add_bindings-Keeps dst more)

add_all_bindings-Keeps : (bindings : GoMap Str (List Str)) → Keeps (add_all_bindings bindings)
unfolding add_all_bindings chain
add_all_bindings-Keeps [] = done-Keeps
add_all_bindings-Keeps ((dst, ports) ∷ more) =
    chain-Keeps (add_bindings dst ports) (add_all_bindings more) (add_bindings-Keeps dst ports)
      (add_all_bindings-Keeps more)

module _ (nws : MemDb Network) (networks : nws.Table) where
  connect_mode-Keeps : (net : Str) → Keeps (connect_mode nws networks net)
  unfolding connect_mode connect_network Keeps IsNew
  connect_mode-Keeps net co co' h new = ground arith

  connect_endpoint-Keeps : (endp : EndpointConfig) → Keeps (connect_endpoint nws networks endp)
  unfolding connect_endpoint connect_network add_network_aliases Keeps IsNew
  connect_endpoint-Keeps endp co co' h new = ground arith

  connect_endpoints-Keeps :
      (endps : GoMap Str EndpointConfig) → Keeps (connect_endpoints nws networks endps)
  unfolding connect_endpoints chain
  connect_endpoints-Keeps [] = done-Keeps
  connect_endpoints-Keeps ((n, endp) ∷ more) =
      chain-Keeps (connect_endpoint nws networks endp) (connect_endpoints nws networks more)
        (connect_endpoint-Keeps endp) (connect_endpoints-Keeps more)

  connect_default-Keeps : Keeps (connect_default nws networks)
  unfolding connect_default connect_network Keeps IsNew
  connect_default-Keeps co co' h new = ground arith

  pub insert_some : (k : Str) (m : GoMap Str (Unit {0})) → is_nil (GoMap.insert k tt m) ≡ false
  unfolding GoMap.insert
  insert_some k [] = refl
  insert_some k ((j, u) ∷ m) = ground arith

  connect_default-some :
      (co co' : Container) → connect_default nws networks co ≡ ok co' → is_nil co'.networks ≡ false
  unfolding connect_default connect_network
  connect_default-some co co' h =
      elim (result-cases (get_network_by_name nws (codes "bridge") networks)) [
        | inl (nw, found) ↦ ground (arith, insert_some nw.id co.networks)
        | inr (e, lost) ↦ ground arith
      ]

last_step :
    (f g : Container → Result Error Container) (co co' : Container) (r : Result Error Container)
    → f co ≡ r
    → chain f g co ≡ ok co'
    → (c : Container) × (g c ≡ ok co')
unfolding chain
last_step f g co co' (err e) b h = absurd (ground arith)
last_step f g co co' (ok c) b h = (c, ground arith)

module _ (nws : MemDb Network) (imgs : MemDb Image) (networks : nws.Table) (images : imgs.Table)
    (cfg : Config) where
  start-IsNew :
      (q : Str) (rq : ContainerCreateRequest)
      → IsNew (with_image_ports imgs images (requested q cfg rq))
  unfolding with_image_ports requested IsNew
  start-IsNew q rq = (ground arith, ground arith)

  new_container-chain :
      (q : Str) (rq : ContainerCreateRequest)
      → new_container nws imgs networks images cfg q rq
        ≡ chain
            (add_all_bindings rq.host_config.port_bindings)
            (chain (connect_mode nws networks rq.host_config.network_mode) (
              chain
                (connect_endpoints nws networks rq.endpoints_config)
                (connect_default nws networks)))
            (with_image_ports imgs images (requested q cfg rq))
  unfolding new_container chain
  new_container-chain q rq = refl

  pub new_container_lem :
      (q : Str) (rq : ContainerCreateRequest) (co : Container)
      → new_container nws imgs networks images cfg q rq ≡ ok co
      → IsNew co × (is_nil co.networks ≡ false)
  unfolding Keeps
  new_container_lem q rq co h =
      let a = add_all_bindings rq.host_config.port_bindings in
      let b = connect_mode nws networks rq.host_config.network_mode in
      let c = connect_endpoints nws networks rq.endpoints_config in
      let d = connect_default nws networks in
      let start = with_image_ports imgs images (requested q cfg rq) in
      let run = sym (new_container-chain q rq) ∙ h in
      let keeps =
        chain-Keeps a (chain b (chain c d)) (add_all_bindings-Keeps rq.host_config.port_bindings) (
          chain-Keeps b (chain c d) (connect_mode-Keeps nws networks rq.host_config.network_mode) (
            chain-Keeps c d (connect_endpoints-Keeps nws networks rq.endpoints_config)
              (connect_default-Keeps nws networks))) in
      let (co1, e1) = last_step a (chain b (chain c d)) start co (a start) refl run in
      let (co2, e2) = last_step b (chain c d) co1 co (b co1) refl e1 in
      let (co3, e3) = last_step c d co2 co (c co2) refl e2 in
      (keeps start co run (start-IsNew q rq), connect_default-some nws networks co3 co e3)

pub kept_fields :
    (fresh : Str) (now : ℕ) (co co' : Container)
    → with_id fresh now co ≡ co'
    → IsNew co
    → (co'.id ≡ fresh) × (co'.running ≡ false) × (co'.networks ≡ co.networks)
unfolding with_id IsNew
kept_fields fresh now co co' e new = (ground arith, ground arith, ground arith)

module _ {K : Type 0} (db : MemDb Container) (nws : MemDb Network) (imgs : MemDb Image)
    (networks : nws.Table) (images : imgs.Table) (cfg : Config) (fresh : Str) (now : ℕ)
    (laws : IsMemDb container_keys db) where
  pub created :
      (rq : ContainerCreateRequest) (q : Str) (w : World db.Table K) (r : Result Error Container)
      → new_container nws imgs networks images cfg q rq ≡ r
      → (container_create db nws imgs networks images cfg fresh now (some rq) q w).0 ≡ status 201
      → (co : Container) × (co' : Container) × (t : db.Table) × (new_container nws imgs networks
            images cfg q rq
          ≡ ok co)
        × (save_container db fresh now co w.table ≡ ok (co', t))
        × (container_create db nws imgs networks images cfg fresh now (some rq) q w
            ≡ (status 201, publish co'.id (codes "create") (record w { table = t })))
  unfolding container_create
  created rq q w (err e) n answered = absurd (ground arith)
  created rq q w (ok co) n answered = elim (result-cases (save_container db fresh now co w.table)) [
    | inl ((co', t), saved) ↦ (co, co', t, n, saved, ground arith)
    | inr (e, lost) ↦ absurd (ground arith)
  ]

  -- Where the fresh id is a full id, a create that is answered with 201 leaves in the table a
  -- container of that id that is not running and is in some network, and publishes its creation.
  pub container_create-stored :
      (rq : ContainerCreateRequest) (q : Str) (w : World db.Table K)
      → validate_id fresh ≡ ok tt
      → is_short_id (truncate_id fresh) ≡ true
      → (container_create db nws imgs networks images cfg fresh now (some rq) q w).0 ≡ status 201
      → let w' = (container_create db nws imgs networks images cfg fresh now (some rq) q w).1 in
        ((co : Container) × (get_container db fresh w'.table ≡ ok co)
          × (co.running ≡ false)
          × (is_nil co.networks ≡ false))
        × (w'.events ≡ w.events ++ record { id = fresh; action = codes "create" } ∷ [])
  unfolding publish IsNew
  container_create-stored rq q w full short answered =
      let (co, co', t, n, saved, e) =
        created rq q w (new_container nws imgs networks images cfg q rq) refl answered in
      let (new, connected) = new_container_lem nws imgs networks images cfg q rq co n in
      let (same, inserted) = save_parts db laws fresh now co co' w.table t saved in
      let (eid, idle, nets) = kept_fields fresh now co co' same new in
      let (eid', ename, found, found_short) =
        get-save_container db laws fresh now co co' w.table t new.0 full short saved in
      (
        (
          co',
          subst (λ u. get_container db fresh u.table ≡ ok co') (sym (ap (λ a. a.1) e))
              (subst (λ x. get_container db x t ≡ ok co') eid found),
          idle,
          ap is_nil nets ∙ connected,
        ),
        subst (λ u. u.events ≡ w.events ++ record { id = fresh; action = codes "create" } ∷ [])
            (sym (ap (λ a. a.1) e))
            (ap (λ x. w.events ++ record { id = x; action = codes "create" } ∷ []) eid),
      )
