-- ===== src/Server/Ports/Available.antt =====
-- Which host ports are shown for a port of a container.
use kubedock.Base.{
  ℤ, ◌≡◌, refl, Bool, false, ◌||◌, ◌&&◌, not, List, [], ◌∷◌, ◌++◌, is_nil, any_of, if◌then◌else◌,
  arith, int_eq_instance,
}
use kubedock.Base.Int.{is_neg, int_eq, int_eq_iff}
use kubedock.Base.GoMap
use kubedock.Base.GoMap.{GoMap, lookup-insert}
use kubedock.Model.Container.{Container}
use kubedock.Model.Container.Ports.{get_service_ports}
use kubedock.Server.World.{Config}
use kubedock.Server.Ports.{
  add_available, get_available_ports, once, once_each, get_network_settings_ports,
}

-- The host port is listed for the port.
unfoldable pub lists : ℤ → ℤ → GoMap ℤ (List ℤ) → Bool
lists src dst ports = any_of (int_eq src) (GoMap.get_or dst [] ports)

-- The map sends the host port to the port.
unfoldable pub sends : ℤ → ℤ → GoMap ℤ ℤ → Bool
sends src dst prts = any_of (λ e. int_eq src e.0 && int_eq dst e.1) prts

any_of-snoc :
    (src x : ℤ) (xs : List ℤ)
    → any_of (int_eq src) (xs ++ x ∷ []) ≡ (any_of (int_eq src) xs || int_eq src x)
unfolding any_of
any_of-snoc src x [] = ground arith
any_of-snoc src x (y ∷ xs) = ground (arith, any_of-snoc src x xs)

lists-insert :
    (src dst s d : ℤ) (ports : GoMap ℤ (List ℤ))
    → lists src dst (GoMap.insert d (GoMap.get_or d [] ports ++ s ∷ []) ports)
      ≡ (lists src dst ports || (int_eq src s && int_eq dst d))
unfolding lists GoMap.get_or
lists-insert src dst s d ports = ground (
  arith,
  lookup-insert d dst (GoMap.get_or d [] ports ++ s ∷ []) ports,
  int_eq_iff d dst,
  int_eq_iff dst d,
  any_of-snoc src s (GoMap.get_or d [] ports),
)

pub lists-add_available :
    (src dst : ℤ) (prts : GoMap ℤ ℤ) (ports : GoMap ℤ (List ℤ))
    → lists src dst (add_available prts ports)
      ≡ (lists src dst ports || (not (is_neg src) && sends src dst prts))
unfolding add_available sends any_of
lists-add_available src dst [] ports = ground arith
lists-add_available src dst ((s, d) ∷ prts) ports = ground (
  arith,
  lists-add_available src dst prts ports,
  int_eq_iff src s,
  lists-add_available src dst prts (GoMap.insert d (GoMap.get_or d [] ports ++ s ∷ []) ports),
  lists-insert src dst s d ports,
)

once-any_of :
    (src : ℤ) (seen xs : List ℤ)
    → any_of (int_eq src) (once seen xs)
      ≡ (any_of (int_eq src) xs && not (any_of (int_eq src) seen))
unfolding once any_of
once-any_of src seen [] = refl
once-any_of src seen (x ∷ xs) = ground (
  arith,
  once-any_of src seen xs,
  once-any_of src (x ∷ seen) xs,
  int_eq_iff src x,
  int_eq_iff x src,
)

get_or-once_each :
    (dst : ℤ) (ports : GoMap ℤ (List ℤ))
    → GoMap.get_or dst [] (once_each ports) ≡ once [] (GoMap.get_or dst [] ports)
unfolding once_each GoMap.get_or GoMap.lookup once
get_or-once_each dst [] = refl
get_or-once_each dst ((d, xs) ∷ ports) = ground (arith, get_or-once_each dst ports)

pub lists-once_each :
    (src dst : ℤ) (ports : GoMap ℤ (List ℤ)) → lists src dst (once_each ports) ≡ lists src dst ports
unfolding lists any_of
lists-once_each src dst ports =
    ground (arith, get_or-once_each dst ports, once-any_of src [] (GoMap.get_or dst [] ports))

pub lists_none : (src dst : ℤ) → lists src dst [] ≡ false
unfolding lists GoMap.get_or GoMap.lookup any_of
lists_none src dst = refl

-- A host port is shown for a port of a container that has a host address exactly if it is not
-- negative and a mapping sends it there: one of the host ports or the mapped ports where ports are
-- forwarded or proxied, and one of the service's ports otherwise.
pub get_network_settings_ports_lem :
    (cfg : Config) (co : Container) (src dst : ℤ)
    → is_nil co.host_ip ≡ false
    → lists src dst (get_network_settings_ports cfg co) ≡ (
        not (is_neg src)
        && (if cfg.port_forward || cfg.reverse_proxy
            then sends src dst co.host_ports || sends src dst co.mapped_ports
            else sends src dst (get_service_ports co)))
unfolding get_network_settings_ports get_available_ports
get_network_settings_ports_lem cfg co src dst h = ground (
  arith,
  lists-once_each src dst (get_available_ports cfg co),
  lists_none src dst,
  lists-add_available src dst co.host_ports [],
  lists-add_available src dst co.mapped_ports (add_available co.host_ports []),
  lists-add_available src dst (get_service_ports co) [],
)
