-- ===== src/Server/Networks.antt =====
-- internal/server/routes/docker/networks.go and util.go: the handlers of networks.
pub mod Attached
pub mod Inspect
pub mod Connected
pub mod Tests
use kubedock.Base.{
  ℕ, Bool, true, false, ◌||◌, ◌++◌, List, [], ◌∷◌, Option, none, some, is_nil, keep, if◌then◌else◌,
  Result, ok, err, Str, str_eq_instance,
}
use kubedock.Base.GoMap
use kubedock.Base.GoMap.{GoMap}
use kubedock.Base.Text.{to_lower}
use kubedock.Model.Error.{Error}
use kubedock.Model.Container.{Container, connect_network, disconnect_network}
use kubedock.Model.Records.{Network, blank_network, is_predefined}
use kubedock.Model.Database.{
  get_container, get_containers, save_container, get_network_by_name_or_id, get_networks,
  save_network, delete_network,
}
use kubedock.Model.Database.Tables.{MemDb}

-- The tables of containers and of networks.
pub record Tables (T N : Type 0) : Type 0 where
  pub containers : T
  pub networks : N

-- The loops of addNetworkAliases over one list, after those over the lists before it.
unfoldable pub add_aliases :
    List Str → List Str → GoMap Str (Unit {0}) → List Str × GoMap Str (Unit {0})
add_aliases [] aliases seen = (aliases, seen)
add_aliases (a ∷ more) aliases seen =
    let skipped = add_aliases more aliases seen in
    let added = add_aliases more (aliases ++ to_lower a ∷ []) (GoMap.insert (to_lower a) tt seen) in
    if GoMap.has a seen then skipped else added

-- addNetworkAliases
unfoldable pub add_network_aliases : Container → List Str → Container
unfolding add_aliases
add_network_aliases co more =
    let (own, seen) = add_aliases co.network_aliases [] ((co.short_id, tt) ∷ []) in
    let (all, seen') = add_aliases more own seen in record co { network_aliases = all }

-- getContainersInNetwork
unfoldable pub in_network : Network → List Container → List Container
in_network nw cos = keep (λ co. GoMap.has nw.id co.networks) cos

-- The test of NetworksDelete and NetworksPrune.
unfoldable pub is_kept : Network → List Container → Bool
unfolding in_network
is_kept nw cos = is_predefined nw || (elim (in_network nw cos) [ [] ↦ false | co ∷ more ↦ true ])

-- `fresh` and `now` are what GenerateRandomID and time.Now return, if they are called. The status
-- of an answer is its number. A body that cannot be read is `none`.
module _ (db : MemDb Container) (nws : MemDb Network) (fresh : Str) (now : ℕ) where
  -- NetworksCreate: the name and the labels of the request
  unfoldable pub networks_create :
      Option (Str × GoMap Str Str) → Tables db.Table nws.Table → ℕ × Tables db.Table nws.Table
  networks_create body s = elim body [
    | none ↦ (500, s)
    | some (name, labels) ↦
        elim (save_network nws fresh now (record blank_network { name = name; labels = labels })
          s.networks) [ err e ↦ (500, s) | ok (nw, t) ↦ (201, record s { networks = t }) ]
  ]

  -- NetworksDelete
  unfoldable pub networks_delete : Str → Tables db.Table nws.Table → ℕ × Tables db.Table nws.Table
  unfolding is_kept
  networks_delete id s = elim (get_network_by_name_or_id nws id s.networks) [
    | err e ↦ (404, s)
    | ok nw ↦
        if is_kept nw (get_containers db s.containers)
        then (403, s)
        else (elim (delete_network nws nw s.networks) [
          | err e ↦ (404, s)
          | ok t ↦ (204, record s { networks = t })
        ])
  ]

  -- SaveContainer of a container that was changed through its pointer
  unfoldable pub save_changed :
      ℕ → Container → Tables db.Table nws.Table → ℕ × Tables db.Table nws.Table
  unfolding save_container
  save_changed done co s = elim (save_container db fresh now co s.containers) [
    | err e ↦ (500, record s { containers = db.poke co s.containers })
    | ok (co', t) ↦ (done, record s { containers = t })
  ]

  -- NetworksConnect: the container and the aliases of the request
  unfoldable pub networks_connect :
      Option (Str × List Str) → Str → Tables db.Table nws.Table → ℕ × Tables db.Table nws.Table
  unfolding save_changed add_network_aliases
  networks_connect body id s = elim body [
    | none ↦ (500, s)
    | some (container, aliases) ↦ elim (get_network_by_name_or_id nws id s.networks) [
      | err e ↦ (404, s)
      | ok nw ↦ elim (get_container db container s.containers) [
        | err e ↦ (404, s)
        | ok co ↦ save_changed 201 (add_network_aliases (connect_network co nw.id) aliases) s
      ]
    ]
  ]

  -- NetworksDisconnect: the container of the request
  unfoldable pub networks_disconnect :
      Option Str → Str → Tables db.Table nws.Table → ℕ × Tables db.Table nws.Table
  unfolding save_changed
  networks_disconnect body id s = elim body [
    | none ↦ (500, s)
    | some container ↦ elim (get_network_by_name_or_id nws id s.networks) [
      | err e ↦ (404, s)
      | ok nw ↦ elim (get_container db container s.containers) [
        | err e ↦ (404, s)
        | ok co ↦ if is_predefined nw then (500, s) else (elim (disconnect_network co nw.id) [
          | err e ↦ (404, s)
          | ok co' ↦ save_changed 204 co' s
        ])
      ]
    ]
  ]

  -- The loop of NetworksPrune: `cos` are the containers, which no round changes; the names are
  -- those of the networks that were deleted.
  unfoldable pub prune_each :
      List Container → List Network → List Str → nws.Table → ℕ × List Str × nws.Table
  unfolding is_kept
  prune_each cos [] names t = (201, names, t)
  prune_each cos (nw ∷ more) names t =
      let skipped = prune_each cos more names t in
      if is_kept nw cos then skipped else (elim (delete_network nws nw t) [
        | err e ↦ (404, names, t)
        | ok t' ↦ prune_each cos more (names ++ nw.name ∷ []) t'
      ])

  -- NetworksPrune
  unfoldable pub networks_prune :
      Tables db.Table nws.Table → ℕ × List Str × Tables db.Table nws.Table
  unfolding prune_each
  networks_prune s =
      let (code, names, t) =
        prune_each (get_containers db s.containers) (get_networks nws s.networks) [] s.networks in
      (code, names, record s { networks = t })
