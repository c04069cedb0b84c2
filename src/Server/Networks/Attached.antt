-- ===== src/Server/Networks/Attached.antt =====
-- Networks that a container is attached to are not deleted.
use kubedock.Base.{
  result-cases, ℕ, ◌≡◌, ◌≢◌, inl, inr, refl, sym, ap, subst, ◌∙◌, Bool, true, false, Bool-cases,
  List, [], ◌∷◌, ◌++◌, any_of, keep, some, Result, ok, err, arith, Str, str_eq_instance,
  str_eq_refl,
}
use kubedock.Base.GoMap
use kubedock.Base.GoMap.{GoMap, lookup-insert}
use kubedock.Util.StringId.{is_short_id}
use kubedock.Model.Error.{Error}
use kubedock.Model.Container.{Container, connect_network}
use kubedock.Model.Records.{Network}
use kubedock.Model.Database.{
  get_container, get_containers, save_container, with_id, get_network, get_network_by_name_or_id,
  get_networks, delete_network, id_index, first_or_error,
}
use kubedock.Model.Database.Tables.{by_id, MemDb, IsMemDb}
use kubedock.Model.Database.Lookup.{container_keys, network_key, network_keys}
use kubedock.Server.Networks.{
  Tables, in_network, is_kept, networks_delete, networks_connect, prune_each, networks_prune,
  save_changed, add_network_aliases,
}

-- Some container is attached to the network of this id.
unfoldable pub is_attached : Str → List Container → Bool
is_attached k cos = any_of (λ co. GoMap.has k co.networks) cos

some_in_network :
    (nw : Network) (cos : List Container)
    → is_attached nw.id cos ≡ true
    → (co : Container) × (more : List Container) × (in_network nw cos ≡ co ∷ more)
unfolding is_attached any_of in_network keep
some_in_network nw [] h = absurd (ground arith)
some_in_network nw (co ∷ cos) h = elim (Bool-cases (GoMap.has nw.id co.networks)) [
  | inl here ↦ (co, in_network nw cos, ground arith)
  | inr later ↦ let (x, more, e) = some_in_network nw cos (ground arith) in (x, more, ground arith)
]

attached_kept :
    (nw : Network) (cos : List Container) → is_attached nw.id cos ≡ true → is_kept nw cos ≡ true
unfolding is_kept
attached_kept nw cos h = let (co, more, e) = some_in_network nw cos h in ground arith

other_id :
    (k : Str) (nw : Network) (cos : List Container)
    → is_attached k cos ≡ true
    → is_kept nw cos ≡ false
    → nw.id ≢ k
other_id k nw cos h free e = absurd (ground (arith, attached_kept nw cos (rw e h)))

module _ (db : MemDb Container) (nws : MemDb Network) (fresh : Str) (now : ℕ)
    (laws : IsMemDb network_keys nws) where
  deleted_other :
      (k : Str) (nw : Network) (t t' : nws.Table)
      → delete_network nws nw t ≡ ok t'
      → nw.id ≢ k
      → nws.first by_id k t' ≡ nws.first by_id k t
  unfolding delete_network network_key
  deleted_other k nw t t' h differ = (laws.delete_id nw t t' h).1 k differ

  prune_step :
      (k : Str) (cos : List Container) (nw : Network) (more : List Network) (names : List Str)
      (t : nws.Table) (r : Result Error nws.Table)
      → delete_network nws nw t ≡ r
      → is_attached k cos ≡ true
      → ((names' : List Str) (t' : nws.Table)
          → nws.first by_id k (prune_each db nws fresh now cos more names' t').2
            ≡ nws.first by_id k t')
      → nws.first by_id k (prune_each db nws fresh now cos (nw ∷ more) names t).2
        ≡ nws.first by_id k t
  unfolding prune_each
  prune_step k cos nw more names t (err e) h used rest = ground (arith, rest names t)
  prune_step k cos nw more names t (ok t') h used rest = ground (
    arith,
    rest names t,
    rest (names ++ nw.name ∷ []) t',
    deleted_other k nw t t' h,
    other_id k nw cos used,
  )

  prune_each_keeps :
      (k : Str) (cos : List Container) (l : List Network) (names : List Str) (t : nws.Table)
      → is_attached k cos ≡ true
      → nws.first by_id k (prune_each db nws fresh now cos l names t).2 ≡ nws.first by_id k t
  unfolding prune_each
  prune_each_keeps k cos [] names t used = refl
  prune_each_keeps k cos (nw ∷ more) names t used =
      prune_step k cos nw more names t (delete_network nws nw t) refl used
        (λ names' t'. prune_each_keeps k cos more names' t' used)

  delete_keeps :
      (k id : Str) (s : Tables db.Table nws.Table) (rn : Result Error Network)
      → get_network_by_name_or_id nws id s.networks ≡ rn
      → is_attached k (get_containers db s.containers) ≡ true
      → nws.first by_id k (networks_delete db nws fresh now id s).1.networks
        ≡ nws.first by_id k s.networks
  unfolding networks_delete
  delete_keeps k id s (err e) found used = ground arith
  delete_keeps k id s (ok nw) found used = elim (result-cases (delete_network nws nw s.networks)) [
    | inl (t, gone) ↦ ground (
      arith,
      deleted_other k nw s.networks t gone,
      other_id k nw (get_containers db s.containers) used,
    )
    | inr (e, failed) ↦ ground arith
  ]

  first-get_network :
      (k : Str) (t t' : nws.Table)
      → is_short_id k ≡ false
      → nws.first by_id k t' ≡ nws.first by_id k t
      → get_network nws k t' ≡ get_network nws k t
  unfolding get_network first_or_error id_index
  first-get_network k t t' long h = ground arith

  -- While some container of the table is attached to the network of an id that does not look like a
  -- short one, neither a delete of any network nor a prune changes what the lookup of that id finds.
  pub networks_keep_attached :
      (k id : Str) (s : Tables db.Table nws.Table)
      → is_short_id k ≡ false
      → is_attached k (get_containers db s.containers) ≡ true
      → (get_network nws k (networks_delete db nws fresh now id s).1.networks
          ≡ get_network nws k s.networks)
        × (get_network nws k (networks_prune db nws fresh now s).2.networks
            ≡ get_network nws k s.networks)
  unfolding networks_prune
  networks_keep_attached k id s long used = (
    first-get_network k s.networks (networks_delete db nws fresh now id s).1.networks long
        (delete_keeps k id s (get_network_by_name_or_id nws id s.networks) refl used),
    first-get_network k s.networks (networks_prune db nws fresh now s).2.networks long (
        prune_each_keeps k (get_containers db s.containers) (get_networks nws s.networks) []
          s.networks used),
  )

  module _ (claws : IsMemDb container_keys db) where
    saved_attached :
        (k : Str) (co : Container) (s : Tables db.Table nws.Table) (r : Result Error db.Table)
        → db.insert (with_id fresh now co) s.containers ≡ r
        → GoMap.has k co.networks ≡ true
        → (save_changed db nws fresh now 201 co s).0 ≡ 201
        → (is_attached k (get_containers db (save_changed db nws fresh now 201 co s).1.containers)
            ≡ true)
          × ((save_changed db nws fresh now 201 co s).1.networks ≡ s.networks)
    unfolding save_changed save_container get_containers is_attached with_id
    saved_attached k co s (err e) h here answered = absurd (ground arith)
    saved_attached k co s (ok t) h here answered =
        let attached =
          claws.insert_rows (λ c. GoMap.has k c.networks) (with_id fresh now co) s.containers t h in
        (ground (arith, attached), ground arith)

    pub connect_found :
        (nw : Network) (co : Container) (id container : Str) (aliases : List Str)
        (s : Tables db.Table nws.Table)
        → get_network_by_name_or_id nws id s.networks ≡ ok nw
        → get_container db container s.containers ≡ ok co
        → networks_connect db nws fresh now (some (container, aliases)) id s
          ≡ save_changed db nws fresh now 201
              (add_network_aliases (connect_network co nw.id) aliases)
              s
    unfolding networks_connect
    connect_found nw co id container aliases s found here = ground arith

    connect_lost :
        (nw : Network) (e : Error) (id container : Str) (aliases : List Str)
        (s : Tables db.Table nws.Table)
        → get_network_by_name_or_id nws id s.networks ≡ ok nw
        → get_container db container s.containers ≡ err e
        → (networks_connect db nws fresh now (some (container, aliases)) id s).0 ≡ 404
    unfolding networks_connect
    connect_lost nw e id container aliases s found here = ground arith

    pub has_connected :
        (co : Container) (k : Str) (aliases : List Str)
        → GoMap.has k (add_network_aliases (connect_network co k) aliases).networks ≡ true
    unfolding add_network_aliases connect_network GoMap.has
    has_connected co k aliases = ground (arith, lookup-insert k k tt co.networks, str_eq_refl k)

    attached_403 :
        (nw : Network) (id : Str) (s : Tables db.Table nws.Table)
        → get_network_by_name_or_id nws id s.networks ≡ ok nw
        → is_attached nw.id (get_containers db s.containers) ≡ true
        → networks_delete db nws fresh now id s ≡ (403, s)
    unfolding networks_delete
    attached_403 nw id s found used =
        ground (arith, attached_kept nw (get_containers db s.containers) used)

    connected :
        (nw : Network) (id container : Str) (aliases : List Str) (s : Tables db.Table nws.Table)
        (r : Result Error Container)
        → get_container db container s.containers ≡ r
        → get_network_by_name_or_id nws id s.networks ≡ ok nw
        → (networks_connect db nws fresh now (some (container, aliases)) id s).0 ≡ 201
        → let s' = (networks_connect db nws fresh now (some (container, aliases)) id s).1 in
          (is_attached nw.id (get_containers db s'.containers) ≡ true) × (s'.networks ≡ s.networks)
    connected nw id container aliases s (err e) here found answered =
        absurd (ground (arith, connect_lost nw e id container aliases s found here))
    connected nw id container aliases s (ok co) here found answered =
        let co' = add_network_aliases (connect_network co nw.id) aliases in
        let e = connect_found nw co id container aliases s found here in
        subst
          (λ a.
            (is_attached nw.id (get_containers db a.1.containers) ≡ true)
            × (a.1.networks ≡ s.networks))
          (sym e)
          (saved_attached nw.id co' s (db.insert (with_id fresh now co') s.containers) refl
            (has_connected co nw.id aliases) (sym (ap (λ a. a.0) e) ∙ answered))

    -- After a container was connected to a network with the answer 201, a delete of that network is
    -- refused with 403 and changes nothing.
    pub networks_connect-delete :
        (nw : Network) (id container : Str) (aliases : List Str) (s : Tables db.Table nws.Table)
        → get_network_by_name_or_id nws id s.networks ≡ ok nw
        → (networks_connect db nws fresh now (some (container, aliases)) id s).0 ≡ 201
        → let s' = (networks_connect db nws fresh now (some (container, aliases)) id s).1 in
          networks_delete db nws fresh now id s' ≡ (403, s')
    networks_connect-delete nw id container aliases s found answered =
        let (used, same) =
          connected nw id container aliases s (get_container db container s.containers) refl found
            answered in
        attached_403 nw id (networks_connect db nws fresh now (some (container, aliases)) id s).1
          (subst (λ t. get_network_by_name_or_id nws id t ≡ ok nw) (sym same) found) used
