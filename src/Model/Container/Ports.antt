-- ===== src/Model/Container/Ports.antt =====
-- The ports of a container: internal/model/types/container.go.
pub mod TcpPort
pub mod Service
use kubedock.Base.{
  ℤ, Bool, true, false, ◌||◌, List, [], ◌∷◌, Option, none, some, is_nil, if◌then◌else◌, Result, ok,
  err, Str, str_eq, int_eq_instance,
}
use kubedock.Base.Int.{neg, is_neg}
use kubedock.Base.GoMap
use kubedock.Base.GoMap.{GoMap}
use kubedock.Base.Text.{codes, split, parse_int64}
use kubedock.Model.Error.{Error, invalid_port, unsupported_protocol}
use kubedock.Model.Container.{Container}

unfoldable pub check_protocol : Str → ℤ → Result Error ℤ
check_protocol proto pp =
    if str_eq proto (codes "tcp") then ok pp else err (unsupported_protocol proto)

-- getTCPPort
unfoldable pub get_tcp_port : Str → Result Error ℤ
unfolding check_protocol
get_tcp_port p = elim (split b'/' p) [
  | [] ↦ err (invalid_port p)
  | n ∷ [] ↦ elim (parse_int64 n) [ none ↦ err (invalid_port p) | some pp ↦ ok pp ]
  | n ∷ proto ∷ [] ↦ elim (parse_int64 n) [
    | none ↦ err (invalid_port p)
    | some pp ↦ check_protocol proto pp
  ]
  | n ∷ proto ∷ x ∷ xs ↦ err (invalid_port p)
]

-- getTCPPorts: what cannot be parsed is logged and left out
unfoldable pub get_tcp_ports : GoMap Str (Unit {0}) → List ℤ
unfolding get_tcp_port
get_tcp_ports [] = []
get_tcp_ports ((p, u) ∷ ports) =
    let rest = get_tcp_ports ports in elim (get_tcp_port p) [ err e ↦ rest | ok pp ↦ pp ∷ rest ]

unfoldable pub get_container_tcp_ports : Container → List ℤ
unfolding get_tcp_ports
get_container_tcp_ports co = get_tcp_ports co.exposed_ports

unfoldable pub get_image_tcp_ports : Container → List ℤ
unfolding get_tcp_ports
get_image_tcp_ports co = get_tcp_ports co.image_ports

-- AddHostPort: an empty source or "0" is a random port, kept as the negative destination
unfoldable pub add_host_port : Container → Str → Str → Result Error Container
add_host_port co src dst = elim (get_tcp_port dst) [
  | err e ↦ err e
  | ok dp ↦
      if is_nil src || str_eq src (codes "0")
      then ok (record co { host_ports = GoMap.insert (neg dp) dp co.host_ports })
      else (elim (parse_int64 src) [
        | none ↦ err (invalid_port dst)
        | some sp ↦ ok (record co { host_ports = GoMap.insert sp dp co.host_ports })
      ])
]

-- ports[pp] = pp for each port
unfoldable pub add_same : List ℤ → GoMap ℤ ℤ → GoMap ℤ ℤ
add_same [] ports = ports
add_same (pp ∷ pps) ports = add_same pps (GoMap.insert pp pp ports)

-- The closure `add` of GetServicePorts.
unfoldable pub add_ports : GoMap ℤ ℤ → GoMap ℤ ℤ → GoMap ℤ ℤ
add_ports [] ports = ports
add_ports ((src, dst) ∷ prts) ports =
    add_ports prts (GoMap.insert (if is_neg src then dst else src) dst ports)

unfoldable pub get_service_ports : Container → GoMap ℤ ℤ
unfolding add_same add_ports
get_service_ports co = add_ports co.mapped_ports (
    add_ports co.host_ports
      (add_same (get_container_tcp_ports co) (add_same (get_image_tcp_ports co) [])))
