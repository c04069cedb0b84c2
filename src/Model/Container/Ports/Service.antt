-- ===== src/Model/Container/Ports/Service.antt =====
-- Which port of a container each port of its service leads to.
use kubedock.Base.{
  ℤ, ◌≡◌, refl, List, [], ◌∷◌, Option, none, some, if◌then◌else◌, any_of, arith, int_eq_instance,
}
use kubedock.Base.Int.{is_neg, int_eq, int_eq_iff}
use kubedock.Base.GoMap
use kubedock.Base.GoMap.{GoMap, lookup-insert}
use kubedock.Model.Container.{Container}
use kubedock.Model.Container.Ports.{
  get_container_tcp_ports, get_image_tcp_ports, add_same, add_ports, get_service_ports,
}

abbrev pub or_else : Option ℤ → Option ℤ → Option ℤ
or_else (some a) b = some a
or_else none b = b

-- The service port of an entry: its source, or its destination where the source is negative.
abbrev pub service_port : ℤ × ℤ → ℤ
service_port (src, dst) = if is_neg src then dst else src

-- What the last entry for a service port leads to.
unfoldable pub assigned : ℤ → GoMap ℤ ℤ → Option ℤ
assigned k [] = none
assigned k (e ∷ m) = or_else (assigned k m) (if int_eq (service_port e) k then some e.1 else none)

unfoldable pub listed : ℤ → List ℤ → Option ℤ
listed k ps = if any_of (λ p. int_eq p k) ps then some k else none

lookup-add_ports :
    (k : ℤ) (m ports : GoMap ℤ ℤ)
    → GoMap.lookup k (add_ports m ports) ≡ or_else (assigned k m) (GoMap.lookup k ports)
unfolding add_ports assigned
lookup-add_ports k [] ports = refl
lookup-add_ports k ((src, dst) ∷ m) ports =
    let key = service_port (src, dst) in
    ground (arith, lookup-add_ports k m (GoMap.insert key dst ports), lookup-insert key k dst ports)

lookup-add_same :
    (k : ℤ) (ps : List ℤ) (ports : GoMap ℤ ℤ)
    → GoMap.lookup k (add_same ps ports) ≡ or_else (listed k ps) (GoMap.lookup k ports)
unfolding add_same listed any_of
lookup-add_same k [] ports = refl
lookup-add_same k (p ∷ ps) ports = ground (
  arith,
  lookup-add_same k ps (GoMap.insert p p ports),
  lookup-insert p k p ports,
  int_eq_iff p k,
)

lookup-nil : (k : ℤ) → GoMap.lookup {V = ℤ} k [] ≡ none
unfolding GoMap.lookup
lookup-nil k = refl

-- A port of the service leads where the mapped ports say; if they do not name it, where the host
-- ports say; if neither does, to the port of the same number that the container or its image
-- exposes; and there are no other ports.
pub get_service_ports_lem :
    (co : Container) (k : ℤ)
    → GoMap.lookup k (get_service_ports co)
      ≡ or_else (assigned k co.mapped_ports) (
          or_else
            (assigned k co.host_ports)
            (or_else (listed k (get_container_tcp_ports co)) (listed k (get_image_tcp_ports co))))
unfolding get_service_ports
get_service_ports_lem co k =
    let images = add_same (get_image_tcp_ports co) [] in
    let exposed = add_same (get_container_tcp_ports co) images in
    ground (
      arith,
      lookup-add_ports k co.mapped_ports (add_ports co.host_ports exposed),
      lookup-add_ports k co.host_ports exposed,
      lookup-add_same k (get_container_tcp_ports co) images,
      lookup-add_same k (get_image_tcp_ports co) [],
      lookup-nil k,
    )
