-- ===== src/Backend/Services/Tests.antt =====
-- The services of a container with a hostname and aliases.
use kubedock.Base.{
  ◌≡◌, refl, false, ◌&&◌, not, [], ◌∷◌, length, keep, is_nil, if◌then◌else◌, map, str_eq,
  str_eq_instance, none, List, Option, some, Str,
}
use kubedock.Base.Int.{pos, negsuc}
use kubedock.Base.GoMap
use kubedock.Base.Text.{to_lower, parse_int64, split, codes}
use kubedock.Model.Container.{Container, blank}
use kubedock.Model.Container.Ports.{get_image_tcp_ports, get_container_tcp_ports, get_service_ports}
use kubedock.Backend.Deploy.{Defaults}
use kubedock.Backend.Services.{
  Service, to_int32, valid_alias, get_services, already_exists, CreateError, create_services,
}
use kubedock.Backend.Services.Wanted.{is_wanted, get_services_lem}

abbrev defaults : Defaults
defaults = record { labels = []; system_labels = []; annotations = [] }

abbrev web : Container
web = record blank {
  hostname = codes "Web";
  network_aliases = codes "web" ∷ codes "db_1" ∷ codes "Api-2" ∷ [];
  exposed_ports = (codes "80/tcp", tt) ∷ [];
}

get_services_lem_example :
    length (keep (λ s. str_eq s.name (codes "web")) (get_services false defaults web)) ≡ (
      if not false
        && not (is_nil (get_service_ports web))
        && valid_alias (codes "web")
        && is_wanted web (codes "web")
      then 1
      else 0)
get_services_lem_example = get_services_lem false defaults web (codes "web")

service_names :
    map (λ s. s.name) (get_services false defaults web) ≡ codes "web" ∷ codes "api-2" ∷ []
unfolding get_services get_service_ports get_container_tcp_ports split codes parse_int64 str_eq
    GoMap.insert get_image_tcp_ports to_lower
service_names = refl

wraps : to_int32 (pos 4294967376) ≡ pos 80
unfolding to_int32
wraps = refl

wraps_negative : to_int32 (pos 2147483648) ≡ negsuc 2147483647
unfolding to_int32
wraps_negative = refl

-- a cluster that lists its services, and takes no two of one name
unfoldable create : Service → List Str → List Str × Option CreateError
create s k =
    if is_nil (keep (λ n. str_eq n s.name) k) then (s.name ∷ k, none) else (k, some already_exists)

creates :
    create_services create false defaults web (codes "api-2" ∷ [])
    ≡ (codes "web" ∷ codes "api-2" ∷ [], some already_exists)
unfolding create_services get_services get_service_ports get_container_tcp_ports split codes
    parse_int64 str_eq GoMap.insert get_image_tcp_ports to_lower create keep
creates = refl
