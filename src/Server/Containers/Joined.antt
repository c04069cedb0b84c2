-- ===== src/Server/Containers/Joined.antt =====
-- NetworksConnect and NetworksDisconnect of internal/server/routes/docker/networks.go and the containers
-- that they save.
use kubedock.Base.{
  ℕ, ◌≡◌, inl, inr, ap, ◌∙◌, ◌⊎◌, refl, sym, subst, List, Option, none, some, Result, ok, err,
  arith, Str,
}
use kubedock.Model.Error.{Error}
use kubedock.Model.Container.{Container, connect_network, disconnect_network}
use kubedock.Model.Records.{Network}
use kubedock.Model.Database.{get_container, get_network_by_name_or_id}
use kubedock.Model.Database.Tables.{MemDb, IsMemDb}
use kubedock.Model.Database.Lookup.{container_keys}
use kubedock.Backend.Interface.{Backend, IsBackend}
use kubedock.Server.World.{Config, World, save}
use kubedock.Server.Containers.Coherent.{IsCoherent, AllCoherent, save-AllCoherent}
use kubedock.Server.Containers.Preserve.{Fine, get_container-IsCoherent}
use kubedock.Server.Networks.{
  Tables, save_changed, add_network_aliases, networks_connect, networks_disconnect,
}

module _ {K : Type 0} (db : MemDb Container) (be : Backend K) (cfg : Config) (fresh : Str) (now : ℕ)
    (laws : IsMemDb container_keys db) (isbe : IsBackend be) where
  module _ (nws : MemDb Network) where
    -- the table of a container that is saved, as the other handlers save it
    saved_table :
        (code : ℕ) (co : Container) (s : Tables db.Table nws.Table) (w : World db.Table K)
        → s.containers ≡ w.table
        → (save_changed db nws fresh now code co s).1.containers
          ≡ (save db be cfg fresh now co w).0.table
    unfolding save_changed save
    saved_table code co s w e = ground arith

    changed-Fine :
        (code : ℕ) (co : Container) (s : Tables db.Table nws.Table) (w : World db.Table K)
        → s.containers ≡ w.table
        → IsCoherent co
        → Fine db w
        → AllCoherent db (save_changed db nws fresh now code co s).1.containers
    changed-Fine code co s w e c all =
        subst (AllCoherent db) (sym (saved_table code co s w e))
          (save-AllCoherent db be cfg fresh now laws co w c all)

    connected-IsCoherent :
        (co : Container) (nw : Str) (aliases : List Str)
        → IsCoherent co
        → IsCoherent (add_network_aliases (connect_network co nw) aliases)
    unfolding add_network_aliases connect_network IsCoherent
    connected-IsCoherent co nw aliases c = c

    disconnected-IsCoherent :
        (co co' : Container) (nw : Str)
        → disconnect_network co nw ≡ ok co'
        → IsCoherent co
        → IsCoherent co'
    unfolding disconnect_network IsCoherent
    disconnected-IsCoherent co co' nw h c = ground arith

    module _ (s : Tables db.Table nws.Table) (w : World db.Table K)
        (e : s.containers ≡ w.table) where
      connect_found :
          (container id : Str) (aliases : List Str) (nw : Network) (co : Container)
          → get_network_by_name_or_id nws id s.networks ≡ ok nw
          → get_container db container s.containers ≡ ok co
          → networks_connect db nws fresh now (some (container, aliases)) id s
            ≡ save_changed db nws fresh now 201
                (add_network_aliases (connect_network co nw.id) aliases)
                s
      unfolding networks_connect
      connect_found container id aliases nw co hn hc = ground arith

      connect_lost :
          (container id : Str) (aliases : List Str) (er : Error)
          → (get_network_by_name_or_id nws id s.networks ≡ err er)
            ⊎ (get_container db container s.containers ≡ err er)
          → (networks_connect db nws fresh now (some (container, aliases)) id s).1 ≡ s
      unfolding networks_connect
      connect_lost container id aliases er h = ground arith

      connect_each-Fine :
          (container id : Str) (aliases : List Str) (rn : Result Error Network)
          (rc : Result Error Container)
          → get_network_by_name_or_id nws id s.networks ≡ rn
          → get_container db container s.containers ≡ rc
          → Fine db w
          → AllCoherent db
              (networks_connect db nws fresh now (some (container, aliases)) id s).1.containers
      connect_each-Fine container id aliases (err er) rc hn hc all =
          subst (AllCoherent db)
            (sym (ap (λ x. x.containers) (connect_lost container id aliases er (inl hn)) ∙ e)) all
      connect_each-Fine container id aliases (ok nw) (err er) hn hc all =
          subst (AllCoherent db)
            (sym (ap (λ x. x.containers) (connect_lost container id aliases er (inr hc)) ∙ e)) all
      connect_each-Fine container id aliases (ok nw) (ok co) hn hc all =
          subst (AllCoherent db)
            (sym (ap (λ a. a.1.containers) (connect_found container id aliases nw co hn hc)))
            (changed-Fine 201 (add_network_aliases (connect_network co nw.id) aliases) s w e
              (connected-IsCoherent co nw.id aliases (
                get_container-IsCoherent db be cfg fresh now laws isbe container s.containers co
                  (subst (AllCoherent db) (sym e) all) hc))
              all)

      pub networks_connect-Fine :
          (body : Option (Str × List Str)) (id : Str)
          → Fine db w
          → AllCoherent db (networks_connect db nws fresh now body id s).1.containers
      unfolding networks_connect
      networks_connect-Fine none id all = subst (AllCoherent db) (sym e) all
      networks_connect-Fine (some (container, aliases)) id all =
          connect_each-Fine container id aliases (get_network_by_name_or_id nws id s.networks)
            (get_container db container s.containers) refl refl all

      disconnect_lost :
          (container id : Str) (er : Error)
          → (get_network_by_name_or_id nws id s.networks ≡ err er)
            ⊎ (get_container db container s.containers ≡ err er)
          → (networks_disconnect db nws fresh now (some container) id s).1 ≡ s
      unfolding networks_disconnect
      disconnect_lost container id er h = ground arith

      disconnect_refused :
          (container id : Str) (nw : Network) (co : Container) (er : Error)
          → get_network_by_name_or_id nws id s.networks ≡ ok nw
          → get_container db container s.containers ≡ ok co
          → disconnect_network co nw.id ≡ err er
          → (networks_disconnect db nws fresh now (some container) id s).1 ≡ s
      unfolding networks_disconnect
      disconnect_refused container id nw co er hn hc h = ground arith

      disconnect_found :
          (container id : Str) (nw : Network) (co co' : Container)
          → get_network_by_name_or_id nws id s.networks ≡ ok nw
          → get_container db container s.containers ≡ ok co
          → disconnect_network co nw.id ≡ ok co'
          → ((networks_disconnect db nws fresh now (some container) id s).1 ≡ s)
            ⊎ ((networks_disconnect db nws fresh now (some container) id s).1
                ≡ (save_changed db nws fresh now 204 co' s).1)
      unfolding networks_disconnect
      disconnect_found container id nw co co' hn hc h = ground arith

      kept_or_changed :
          (t : Tables db.Table nws.Table) (code : ℕ) (co : Container)
          → IsCoherent co
          → Fine db w
          → (t ≡ s) ⊎ (t ≡ (save_changed db nws fresh now code co s).1)
          → AllCoherent db t.containers
      kept_or_changed t code co c all (inl h) =
          subst (AllCoherent db) (sym (ap (λ x. x.containers) h ∙ e)) all
      kept_or_changed t code co c all (inr h) =
          subst (AllCoherent db) (sym (ap (λ x. x.containers) h)) (changed-Fine code co s w e c all)

      disconnect_each-Fine :
          (container id : Str) (nw : Network) (co : Container) (r : Result Error Container)
          → get_network_by_name_or_id nws id s.networks ≡ ok nw
          → get_container db container s.containers ≡ ok co
          → disconnect_network co nw.id ≡ r
          → Fine db w
          → AllCoherent db (networks_disconnect db nws fresh now (some container) id s).1.containers
      disconnect_each-Fine container id nw co (err er) hn hc h all =
          subst (AllCoherent db)
            (sym (ap (λ x. x.containers) (disconnect_refused container id nw co er hn hc h) ∙ e))
            all
      disconnect_each-Fine container id nw co (ok co') hn hc h all =
          kept_or_changed (networks_disconnect db nws fresh now (some container) id s).1 204 co'
            (disconnected-IsCoherent co co' nw.id h (
              get_container-IsCoherent db be cfg fresh now laws isbe container s.containers co
                (subst (AllCoherent db) (sym e) all) hc))
            all (disconnect_found container id nw co co' hn hc h)

      disconnect_looked-Fine :
          (container id : Str) (rn : Result Error Network) (rc : Result Error Container)
          → get_network_by_name_or_id nws id s.networks ≡ rn
          → get_container db container s.containers ≡ rc
          → Fine db w
          → AllCoherent db (networks_disconnect db nws fresh now (some container) id s).1.containers
      disconnect_looked-Fine container id (err er) rc hn hc all =
          subst (AllCoherent db)
            (sym (ap (λ x. x.containers) (disconnect_lost container id er (inl hn)) ∙ e)) all
      disconnect_looked-Fine container id (ok nw) (err er) hn hc all =
          subst (AllCoherent db)
            (sym (ap (λ x. x.containers) (disconnect_lost container id er (inr hc)) ∙ e)) all
      disconnect_looked-Fine container id (ok nw) (ok co) hn hc all =
          disconnect_each-Fine container id nw co (disconnect_network co nw.id) hn hc refl all

      pub networks_disconnect-Fine :
          (body : Option Str) (id : Str)
          → Fine db w
          → AllCoherent db (networks_disconnect db nws fresh now body id s).1.containers
      unfolding networks_disconnect
      networks_disconnect-Fine none id all = subst (AllCoherent db) (sym e) all
      networks_disconnect-Fine (some container) id all =
          disconnect_looked-Fine container id (get_network_by_name_or_id nws id s.networks)
            (get_container db container s.containers) refl refl all
