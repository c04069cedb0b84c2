-- ===== src/Backend/Services.antt =====
-- The services of a container: getServices, createServices and getContainerPorts of
-- internal/backend/deploy.go.
pub mod Wanted
pub mod Tests
use kubedock.Base.{
  ℕ, ℤ, ◌-◌, ◌%◌, ◌^◌, Bool, true, false, ◌&&◌, ◌||◌, List, [], ◌∷◌, ◌++◌, Option, none, some,
  is_nil, ltb, ◌==◌, if◌then◌else◌, Str, str_eq_instance,
}
use kubedock.Base.GoMap
use kubedock.Base.GoMap.{GoMap}
use kubedock.Base.Int.{pos, negsuc, neg_ℕ}
use kubedock.Base.Text.{codes, is_lower, is_digit, to_lower}
use kubedock.Model.Container.{Container}
use kubedock.Model.Container.Ports.{get_service_ports, get_container_tcp_ports}
use kubedock.Backend.Deploy.{Defaults, get_labels, get_annotations, get_pod_match_labels}
use kubedock.Base.Text.Decimal.{sprint}

-- int32(n): the conversion wraps around.
unfoldable pub to_int32 : ℤ → ℤ
to_int32 (pos n) = let r = n % 2 ^ 32 in if ltb r (2 ^ 31) then pos r else neg_ℕ (2 ^ 32 - r)
to_int32 (negsuc n) =
    let r = n % 2 ^ 32 in if ltb r (2 ^ 31) then negsuc r else pos (2 ^ 32 - 1 - r)

-- corev1.ServicePort, whose protocol is TCP
pub record ServicePort : Type 0 where
  pub name : Str
  pub port : ℤ
  pub target_port : ℤ

-- corev1.Service
pub record Service : Type 0 where
  pub name : Str
  pub labels : GoMap Str Str
  pub annotations : GoMap Str Str
  pub selector : GoMap Str Str
  pub ports : List ServicePort

-- corev1.ContainerPort, whose protocol is TCP
pub record ContainerPort : Type 0 where
  pub name : Str
  pub container_port : ℤ

-- The end of the pattern ^[a-z]([-a-z0-9]*[a-z0-9])?$
unfoldable pub valid_rest : Str → Bool
valid_rest [] = true
valid_rest (c ∷ []) = is_lower c || is_digit c
valid_rest (c ∷ d ∷ s) = (is_lower c || is_digit c || (c == b'-')) && valid_rest (d ∷ s)

unfoldable pub valid_alias : Str → Bool
unfolding valid_rest
valid_alias [] = false
valid_alias (c ∷ s) = is_lower c && valid_rest s

-- The loop that gathers the aliases.
unfoldable pub gather : List Str → GoMap Str (Unit {0}) → GoMap Str (Unit {0})
gather [] aliases = aliases
gather (alias ∷ more) aliases = gather more (GoMap.insert (to_lower alias) tt aliases)

unfoldable pub gather_all : Container → GoMap Str (Unit {0})
unfolding gather
gather_all co =
    let named = if is_nil co.hostname then [] else GoMap.insert (to_lower co.hostname) tt [] in
    gather co.network_aliases named

-- The loop over the ports.
unfoldable pub service_ports : GoMap ℤ ℤ → List ServicePort
unfolding to_int32 sprint
service_ports [] = []
service_ports ((src, dst) ∷ more) =
    record {
      name = codes "tcp-" ++ sprint src ++ b'-' ∷ sprint dst;
      port = to_int32 src;
      target_port = to_int32 dst;
    }
    ∷ service_ports more

-- The service of an alias.
unfoldable pub new_service : Defaults → Container → GoMap ℤ ℤ → Str → Service
unfolding service_ports
new_service defaults co ports alias = record {
  name = alias;
  labels = get_labels defaults [] co;
  annotations = get_annotations defaults [] co;
  selector = get_pod_match_labels co;
  ports = service_ports ports;
}

-- The loop over the aliases.
unfoldable pub services_of : Defaults → Container → GoMap ℤ ℤ → GoMap Str (Unit {0}) → List Service
unfolding valid_alias new_service
services_of defaults co ports [] = []
services_of defaults co ports ((alias, u) ∷ more) =
    let rest = services_of defaults co ports more in
    if valid_alias alias then new_service defaults co ports alias ∷ rest else rest

-- getServices
unfoldable pub get_services : Bool → Defaults → Container → List Service
unfolding services_of gather_all
get_services disable_services defaults co =
    let ports = get_service_ports co in
    if disable_services
    then []
    else if is_nil ports
    then []
    else services_of defaults co ports (gather_all co)

-- getContainerPorts
unfoldable pub container_ports : List ℤ → List ContainerPort
unfolding to_int32 sprint
container_ports [] = []
container_ports (pp ∷ more) =
    record { name = codes "kd-tcp-" ++ sprint pp; container_port = to_int32 pp }
    ∷ container_ports more

unfoldable pub get_container_ports : Container → List ContainerPort
unfolding container_ports
get_container_ports co = container_ports (get_container_tcp_ports co)

-- The error of a Create: IsAlreadyExists or another one.
pub data CreateError : Type 0 where
  already_exists other_error : CreateError

-- `create` is Services(namespace).Create.
module _ {K : Type 0} (create : Service → K → K × Option CreateError) where
  -- The loop of createServices, up to the first error.
  unfoldable pub create_each : List Service → K → K × Option CreateError
  create_each [] k = (k, none)
  create_each (svc ∷ more) k =
      let (k1, e) = create svc k in
      let rest = create_each more k1 in elim e [ none ↦ rest | some x ↦ (k1, some x) ]

  -- createServices
  unfoldable pub create_services : Bool → Defaults → Container → K → K × Option CreateError
  unfolding create_each
  create_services disable_services defaults co k =
      create_each (get_services disable_services defaults co) k
