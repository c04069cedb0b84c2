-- ===== src/Server/Libpod/Inspect/Agree.antt =====
-- What docker's and podman's details of a container have in common.
use kubedock.Base.{str_eq_instance, ℕ, ◌≡◌, ◌∷◌, none, some, map, Str}
use kubedock.Model.Error.{Error}
use kubedock.Model.Container.{Container}
use kubedock.Model.Records.{Network}
use kubedock.Model.Database.Tables.{MemDb}
use kubedock.Backend.Interface.{Backend}
use kubedock.Server.World.{Config, World}
use kubedock.Server.Ports
use kubedock.Base.GoMap
use kubedock.Base.GoMap.{GoMap}
use kubedock.Server.Inspect
use kubedock.Server.Libpod.Inspect.{Detail, detail, summary, Info}

-- The state and the labels are the same, where both show the details.
unfoldable pub SameDetail : Inspect.Detail → Detail → Type 0
SameDetail (Inspect.detail s c) (detail s' c') =
    (s ≡ s') × (c.image ≡ c'.image) × (c.labels ≡ c'.labels) × (c.env ≡ c'.env) × (c.cmd ≡ c'.cmd)
SameDetail (Inspect.detail s c) (summary created labels st su) = ⊥
SameDetail (Inspect.summary labels st su ports) d = ⊥

-- All but the form of the names, which docker shows with a slash before each.
unfoldable pub Agrees : Inspect.Info → Info → Type 0
Agrees i j =
    (i.id ≡ j.id)
    × (i.names ≡ map (λ n. b'/' ∷ n) j.names)
    × (i.image ≡ j.image)
    × (i.networks ≡ j.networks)
    × (i.host_ip ≡ j.host_ip)
    × (i.ports ≡ j.ports)
    × SameDetail i.rest j.rest

module _ {K : Type 0} (db : MemDb Container) (nws : MemDb Network) (be : Backend K)
    (networks : nws.Table) (cfg : Config) (fresh : Str) (now : ℕ) where
  -- the answers of ContainerInfo: both lost, or both found with details that agree
  unfoldable pub Same :
      Inspect.Answer Inspect.Info (World db.Table K)
      → Inspect.Answer Info (World db.Table K)
      → Type 0
  Same (r, none, w) (r', none, w') = (r ≡ r') × (w ≡ w')
  Same (r, none, w) (r', some j, w') = ⊥
  Same (r, some i, w) (r', none, w') = ⊥
  Same (r, some i, w) (r', some j, w') = (r ≡ r') × Agrees i j × (w ≡ w')
