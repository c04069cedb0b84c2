-- ===== src/Server/Ports/Shown.antt =====
-- The lists of ports of internal/server/routes, beside the ports of the network settings.
use kubedock.Base.{
  ℤ, ◌≡◌, refl, ap, ◌∙◌, Bool, true, false, ◌||◌, ◌&&◌, not, List, [], ◌∷◌, is_nil, any_of,
  if◌then◌else◌, none, some, arith, int_eq_instance, Str, zero, suc,
}
use kubedock.Base.Int.{pos, negsuc, is_neg, int_eq, int_eq_iff}
use kubedock.Base.GoMap.{GoMap}
use kubedock.Model.Container.{Container}
use kubedock.Model.Container.Ports.{get_service_ports}
use kubedock.Server.World.{Config}
use kubedock.Server.Ports.{
  add_available, get_available_ports, get_network_settings_ports, list_each, PortEntry, port_entry,
  get_container_ports,
}
use kubedock.Server.Libpod.Ports.{InfoEntry, info_entry, get_container_info_ports}
use kubedock.Server.Libpod.Ports.Same.{available_same, info_each_same}
use kubedock.Server.Ports.Available.{lists, sends, lists-add_available, lists-once_each, lists_none}
use kubedock.Server.Ports.Entries.{add_shown}

-- the entries of an available port, where `q` asks for one host port and one port
module _ {E : Type 0} (entry : ℤ → ℤ → E) (q : E → Bool) (src dst : ℤ)
    (asks : (d s : ℤ) → is_neg s ≡ false → q (entry d s) ≡ (int_eq src s && int_eq dst d)) where
  sent :
      (prts : GoMap ℤ ℤ)
      → any_of (λ e. not (is_neg e.0) && q (entry e.1 e.0)) prts
        ≡ (not (is_neg src) && sends src dst prts)
  unfolding any_of sends
  sent [] = ground arith
  sent ((s, d) ∷ prts) = ground (arith, sent prts, asks d s, int_eq_iff src s)

  added :
      (prts : GoMap ℤ ℤ) (ports : GoMap ℤ (List ℤ))
      → any_of q (list_each entry ports) ≡ lists src dst ports
      → any_of q (list_each entry (add_available prts ports))
        ≡ lists src dst (add_available prts ports)
  added prts ports h =
      ground
        (arith, add_shown entry q prts ports, sent prts, lists-add_available src dst prts ports)

  none_shown : any_of q (list_each entry []) ≡ lists src dst []
  unfolding any_of list_each
  none_shown = ground (arith, lists_none src dst)

  chosen :
      (b : Bool) (x y : GoMap ℤ (List ℤ))
      → any_of q (list_each entry x) ≡ lists src dst x
      → any_of q (list_each entry y) ≡ lists src dst y
      → any_of q (list_each entry (if b then x else y)) ≡ lists src dst (if b then x else y)
  chosen true x y hx hy = hx
  chosen false x y hx hy = hy

  shown :
      (cfg : Config) (co : Container)
      → any_of q (list_each entry (get_available_ports cfg co))
        ≡ lists src dst (get_available_ports cfg co)
  unfolding get_available_ports
  shown cfg co =
      chosen (cfg.port_forward || cfg.reverse_proxy)
        (add_available co.mapped_ports (add_available co.host_ports []))
        (add_available (get_service_ports co) [])
        (added co.mapped_ports (add_available co.host_ports []) (added co.host_ports [] none_shown))
        (added (get_service_ports co) [] none_shown)

  shown_where :
      (cfg : Config) (co : Container) (b : Bool)
      → is_nil co.host_ip ≡ b
      → any_of q (if is_nil co.host_ip then [] else list_each entry (get_available_ports cfg co))
        ≡ lists src dst (get_network_settings_ports cfg co)
  unfolding get_network_settings_ports any_of
  shown_where cfg co true h = ground (arith, lists_none src dst)
  shown_where cfg co false h =
      ground (arith, shown cfg co, lists-once_each src dst (get_available_ports cfg co))

-- The entry is of this host port and this port; one without a public port has the host port 0.
unfoldable pub shows : ℤ → ℤ → PortEntry → Bool
shows src dst p =
    int_eq dst p.private_port
    && (elim p.public_port [ none ↦ int_eq src (pos 0) | some public ↦ int_eq src public ])

unfoldable pub shows_info : ℤ → ℤ → InfoEntry → Bool
shows_info src dst p = int_eq src p.host_port && int_eq dst p.container_port

shows_entry :
    (ip : Str) (src dst d s : ℤ)
    → is_neg s ≡ false
    → shows src dst (port_entry ip d s) ≡ (int_eq src s && int_eq dst d)
unfolding shows port_entry
shows_entry ip src dst d (pos zero) h = ground arith
shows_entry ip src dst d (pos (suc n)) h = ground arith
shows_entry ip src dst d (negsuc n) h = absurd (ground arith)

shows_info_entry :
    (ip : Str) (src dst d s : ℤ)
    → shows_info src dst (info_entry ip d s) ≡ (int_eq src s && int_eq dst d)
unfolding shows_info info_entry
shows_info_entry ip src dst d s = refl

info_ports :
    (cfg : Config) (co : Container)
    → get_container_info_ports cfg co ≡ (
        if is_nil co.host_ip
        then []
        else list_each (info_entry co.host_ip) (get_available_ports cfg co))
unfolding get_container_info_ports
info_ports cfg co =
    ground (arith, available_same cfg co, info_each_same co.host_ip (get_available_ports cfg co))

-- The ports that docker's list of containers shows, those that podman's list and details show, and
-- those of the network settings are the same pairs of a host port and a port, where docker's list
-- leaves the host port 0 out of its entry.
pub get_container_ports_lem :
    (cfg : Config) (co : Container) (src dst : ℤ)
    → (any_of (shows src dst) (get_container_ports cfg co)
        ≡ lists src dst (get_network_settings_ports cfg co))
      × (any_of (shows_info src dst) (get_container_info_ports cfg co)
          ≡ lists src dst (get_network_settings_ports cfg co))
unfolding get_container_ports
get_container_ports_lem cfg co src dst = (
  shown_where (port_entry co.host_ip) (shows src dst) src dst
      (λ d s h. shows_entry co.host_ip src dst d s h) cfg co (is_nil co.host_ip) refl,
  ap (any_of (shows_info src dst)) (info_ports cfg co)
      ∙ shown_where (info_entry co.host_ip) (shows_info src dst) src dst
          (λ d s h. shows_info_entry co.host_ip src dst d s) cfg co (is_nil co.host_ip) refl,
)
