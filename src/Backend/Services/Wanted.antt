-- ===== src/Backend/Services/Wanted.antt =====
-- Which services a container has.
use kubedock.Base.{
  ℕ, ℤ, suc, ◌≡◌, Bool, ◌&&◌, ◌||◌, not, List, [], ◌∷◌, length, keep, is_nil, any_of, ◌==◌,
  if◌then◌else◌, arith, Str, str_eq, str_eq_iff, str_eq_instance, int_eq_instance,
}
use kubedock.Base.GoMap
use kubedock.Base.GoMap.{GoMap}
use kubedock.Base.Text.{to_lower}
use kubedock.Model.Container.{Container}
use kubedock.Model.Container.Ports.{get_service_ports}
use kubedock.Backend.Deploy.{Defaults}
use kubedock.Backend.Services.{
  valid_alias, gather, gather_all, new_service, services_of, get_services,
}

-- The number of entries of a key.
unfoldable entries : Str → GoMap Str (Unit {0}) → ℕ
entries a [] = 0
entries a ((k, u) ∷ m) = if str_eq k a then suc (entries a m) else entries a m

entries-insert :
    (a k : Str) (m : GoMap Str (Unit {0}))
    → entries a (GoMap.insert k tt m)
      ≡ (if str_eq k a then (if entries a m == 0 then 1 else entries a m) else entries a m)
unfolding entries GoMap.insert
entries-insert a k [] = ground arith
entries-insert a k ((j, u) ∷ m) =
    ground (arith, entries-insert a k m, str_eq_iff k a, str_eq_iff j k, str_eq_iff j a)

-- The name is one of the aliases in lower case.
unfoldable pub is_alias : Str → List Str → Bool
is_alias a aliases = any_of (λ x. str_eq (to_lower x) a) aliases

entries-gather :
    (a : Str) (aliases : List Str) (m : GoMap Str (Unit {0}))
    → entries a (gather aliases m)
      ≡ (if entries a m == 0 then (if is_alias a aliases then 1 else 0) else entries a m)
unfolding gather is_alias any_of
entries-gather a [] m = ground arith
entries-gather a (x ∷ more) m =
    ground (
      arith,
      entries-gather a more (GoMap.insert (to_lower x) tt m),
      entries-insert a (to_lower x) m,
    )

services-entries :
    (defaults : Defaults) (co : Container) (ports : GoMap ℤ ℤ) (a : Str) (m : GoMap Str (Unit {0}))
    → length (keep (λ s. str_eq s.name a) (services_of defaults co ports m))
      ≡ (if valid_alias a then entries a m else 0)
unfolding services_of new_service entries keep
services-entries defaults co ports a [] = ground arith
services-entries defaults co ports a ((k, u) ∷ m) =
    ground (arith, services-entries defaults co ports a m, str_eq_iff k a)

-- The name is the container's hostname or one of its aliases, in lower case.
unfoldable pub is_wanted : Container → Str → Bool
unfolding is_alias
is_wanted co a =
    is_alias a co.network_aliases || (not (is_nil co.hostname) && str_eq (to_lower co.hostname) a)

entries-all :
    (co : Container) (a : Str) → entries a (gather_all co) ≡ (if is_wanted co a then 1 else 0)
unfolding gather_all is_wanted entries GoMap.insert
entries-all co a = ground (
  arith,
  entries-gather a co.network_aliases [],
  entries-gather a co.network_aliases ((to_lower co.hostname, tt) ∷ []),
)

-- Where services are not disabled and the container has a port, it has exactly one service for
-- each name that is its hostname or an alias in lower case and fits the pattern, and none of any
-- other name; else it has none.
pub get_services_lem :
    (disable_services : Bool) (defaults : Defaults) (co : Container) (a : Str)
    → length (keep (λ s. str_eq s.name a) (get_services disable_services defaults co)) ≡ (
        if not disable_services
          && not (is_nil (get_service_ports co))
          && valid_alias a
          && is_wanted co a
        then 1
        else 0)
unfolding get_services keep
get_services_lem disable_services defaults co a =
    ground (
      arith,
      services-entries defaults co (get_service_ports co) a (gather_all co),
      entries-all co a,
    )
