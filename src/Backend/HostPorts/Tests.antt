-- ===== src/Backend/HostPorts/Tests.antt =====
-- A container with one port that is bound and one that is not.
use kubedock.Base.{
  any_of, str_eq, ℕ, ◌+◌, ◌≡◌, refl, false, [], ◌∷◌, Option, none, some, All, arith,
  int_eq_instance,
}
use kubedock.Base.GoMap
use kubedock.Base.Int.{pos, negsuc}
use kubedock.Base.Text.{parse_int64, split, codes}
use kubedock.Model.Container.{Container, blank}
use kubedock.Model.Container.Ports.{get_container_tcp_ports}
use kubedock.Backend.HostPorts.{map_container_tcp_ports, forward_each}
use kubedock.Backend.HostPorts.Mapped.{Unused, Distinct, Reached, map_container_tcp_ports_lem}

-- ports from 40000 on
unfoldable listen : ℕ → Option ℕ
listen n = some (40000 + n)

listen-Distinct : Distinct listen
unfolding Distinct listen
listen-Distinct i j p e e' = ground arith

abbrev web : Container
web = record blank {
  exposed_ports = (codes "80/tcp", tt) ∷ (codes "443/tcp", tt) ∷ [];
  host_ports = (pos 8080, pos 80) ∷ [];
}

nothing_mapped : Unused listen 0 web.mapped_ports
unfolding Unused GoMap.has GoMap.lookup
nothing_mapped i p le e = refl

mapped : (map_container_tcp_ports listen web).1 ≡ false
unfolding map_container_tcp_ports get_container_tcp_ports split codes parse_int64 str_eq any_of
    listen
mapped = refl

map_container_tcp_ports_lem_example :
    All (λ pp. Reached pp (map_container_tcp_ports listen web).0) (get_container_tcp_ports web)
    × (map_container_tcp_ports (λ n. none) (map_container_tcp_ports listen web).0
        ≡ ((map_container_tcp_ports listen web).0, false))
map_container_tcp_ports_lem_example =
    map_container_tcp_ports_lem listen listen-Distinct web (λ n. none) nothing_mapped mapped

forwarded :
    (forward_each ((pos 8080, pos 80) ∷ (negsuc 442, pos 443) ∷ []) 7 web).1
    ≡ (pos 8080, pos 80) ∷ []
unfolding forward_each
forwarded = refl
