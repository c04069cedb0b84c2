-- ===== src/Server/Networks/Connected.antt =====
-- A container that was connected to a network is shown in it.
use kubedock.Base.{
  ℕ, ◌≡◌, refl, sym, ap, subst, ◌∙◌, Bool, true, false, ◌&&◌, ◌||◌, List, [], ◌∷◌, some, is_nil,
  any_of, keep, Result, ok, err, arith, Str, str_eq, str_eq_refl, str_eq_instance,
}
use kubedock.Base.GoMap
use kubedock.Base.GoMap.{GoMap, lookup-insert}
use kubedock.Model.Error.{Error}
use kubedock.Model.Container.{Container, connect_network}
use kubedock.Model.Records.{Network}
use kubedock.Model.Database.{
  get_container, get_containers, save_container, with_id, get_network_by_name_or_id,
}
use kubedock.Model.Database.Tables.{MemDb, IsMemDb}
use kubedock.Model.Database.Lookup.{container_keys, network_keys}
use kubedock.Server.Networks.{
  Tables, in_network, networks_connect, save_changed, add_network_aliases,
}
use kubedock.Server.Networks.Attached.{connect_found, has_connected}
use kubedock.Server.Networks.Inspect.{NetworkInfo, names_of, network_info, networks_info}

-- The container of the id is attached to the network.
unfoldable attaches : Str → Str → Container → Bool
attaches k id co = GoMap.has k co.networks && str_eq co.id id

has-insert :
    (k j v : Str) (m : GoMap Str Str)
    → GoMap.has j (GoMap.insert k v m) ≡ (str_eq k j || GoMap.has j m)
unfolding GoMap.has
has-insert k j v m = ground (arith, lookup-insert k j v m)

names_has :
    (id : Str) (nw : Network) (cos : List Container) (names : GoMap Str Str)
    → GoMap.has id (names_of (in_network nw cos) names)
      ≡ (GoMap.has id names || any_of (attaches nw.id id) cos)
unfolding names_of in_network keep any_of attaches
names_has id nw [] names = ground arith
names_has id nw (co ∷ cos) names = ground (
  arith,
  names_has id nw cos names,
  names_has id nw cos (GoMap.insert co.id co.name names),
  has-insert co.id id co.name names,
)

module _ (db : MemDb Container) (nws : MemDb Network) (fresh : Str) (now : ℕ)
    (laws : IsMemDb network_keys nws) (claws : IsMemDb container_keys db) where
  saved_attaches :
      (k : Str) (co : Container) (s : Tables db.Table nws.Table) (r : Result Error db.Table)
      → db.insert (with_id fresh now co) s.containers ≡ r
      → GoMap.has k co.networks ≡ true
      → is_nil co.id ≡ false
      → (save_changed db nws fresh now 201 co s).0 ≡ 201
      → (any_of
            (attaches k co.id)
            (get_containers db (save_changed db nws fresh now 201 co s).1.containers)
          ≡ true)
        × ((save_changed db nws fresh now 201 co s).1.networks ≡ s.networks)
  unfolding save_changed save_container get_containers with_id attaches
  saved_attaches k co s (err e) h here named answered = absurd (ground arith)
  saved_attaches k co s (ok t) h here named answered =
      let shown =
        claws.insert_rows (attaches k co.id) co s.containers t (ground arith)
          (ground (arith, str_eq_refl co.id)) in
      (ground (arith, shown), ground arith)

  shown_in :
      (nw : Network) (id k : Str) (s : Tables db.Table nws.Table)
      → get_network_by_name_or_id nws id s.networks ≡ ok nw
      → any_of (attaches nw.id k) (get_containers db s.containers) ≡ true
      → (info : NetworkInfo) × (networks_info db nws id s ≡ (200, some info))
        × (info.name ≡ nw.name)
        × (GoMap.has k info.containers ≡ true)
  unfolding networks_info network_info
  shown_in nw id k s found attached = (
    network_info nw (get_containers db s.containers),
    ground arith,
    refl,
    ground (arith, names_has k nw (get_containers db s.containers) []),
  )

  -- After a container of the table was connected to a network with the answer 201, the details of
  -- the network, by the same name or id, are answered with 200 and show the container.
  pub networks_connect-info :
      (nw : Network) (co : Container) (id container : Str) (aliases : List Str)
      (s : Tables db.Table nws.Table)
      → get_network_by_name_or_id nws id s.networks ≡ ok nw
      → get_container db container s.containers ≡ ok co
      → is_nil co.id ≡ false
      → (networks_connect db nws fresh now (some (container, aliases)) id s).0 ≡ 201
      → let s' = (networks_connect db nws fresh now (some (container, aliases)) id s).1 in
        (info : NetworkInfo) × (networks_info db nws id s' ≡ (200, some info))
        × (info.name ≡ nw.name)
        × (GoMap.has co.id info.containers ≡ true)
  unfolding add_network_aliases connect_network
  networks_connect-info nw co id container aliases s found here named answered =
      let co' = add_network_aliases (connect_network co nw.id) aliases in
      let e = connect_found db nws fresh now laws claws nw co id container aliases s found here in
      let (attached, same) =
        saved_attaches nw.id co' s (db.insert (with_id fresh now co') s.containers) refl
          (has_connected db nws fresh now laws claws co nw.id aliases) named
          (sym (ap (λ a. a.0) e) ∙ answered) in
      subst
        (λ a.
          (info : NetworkInfo) × (networks_info db nws id a.1 ≡ (200, some info))
          × (info.name ≡ nw.name)
          × (GoMap.has co.id info.containers ≡ true))
        (sym e)
        (shown_in nw id co.id (save_changed db nws fresh now 201 co' s).1
          (subst (λ t. get_network_by_name_or_id nws id t ≡ ok nw) (sym same) found) attached)
