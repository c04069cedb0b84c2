-- ===== src/Backend/Start/Same.antt =====
-- What the loops over ports of internal/backend leave alone in a container.
use kubedock.Base.{
  ℕ, ℤ, suc, ◌≡◌, refl, sym, subst, ◌∙◌, inl, inr, Bool-cases, List, [], ◌∷◌, Option, Option-cases,
  int_eq_instance,
}
use kubedock.Base.Int.{pos, is_neg}
use kubedock.Base.GoMap.{GoMap}
use kubedock.Model.Container.{Container, map_port, add_stop_channel}
use kubedock.Model.Container.Ports.{get_container_tcp_ports}
use kubedock.Backend.Interface.{SameState}
use kubedock.Backend.HostPorts.{is_bound, map_each, map_container_tcp_ports, forward_each}

pub same_itself : (co : Container) → SameState co co
same_itself co = record {
  same_id = refl;
  same_short_id = refl;
  same_name = refl;
  same_running = refl;
  same_completed = refl;
  same_stopped = refl;
  same_killed = refl;
}

same_but_mapped : (co : Container) (m : GoMap ℤ ℤ) → SameState co (record co { mapped_ports = m })
same_but_mapped co m = record {
  same_id = refl;
  same_short_id = refl;
  same_name = refl;
  same_running = refl;
  same_completed = refl;
  same_stopped = refl;
  same_killed = refl;
}

same_but_stops : (co : Container) (cs : List ℕ) → SameState co (record co { stop_channels = cs })
same_but_stops co cs = record {
  same_id = refl;
  same_short_id = refl;
  same_name = refl;
  same_running = refl;
  same_completed = refl;
  same_stopped = refl;
  same_killed = refl;
}

pub same_again : (a b c : Container) → SameState a b → SameState b c → SameState a c
same_again a b c f g = record {
  same_id = g.same_id ∙ f.same_id;
  same_short_id = g.same_short_id ∙ f.same_short_id;
  same_name = g.same_name ∙ f.same_name;
  same_running = g.same_running ∙ f.same_running;
  same_completed = g.same_completed ∙ f.same_completed;
  same_stopped = g.same_stopped ∙ f.same_stopped;
  same_killed = g.same_killed ∙ f.same_killed;
}

mapped_only :
    (listen : ℕ → Option ℕ) (n : ℕ) (pps : List ℤ) (co : Container)
    → (m : GoMap ℤ ℤ) × ((map_each listen n pps co).0 ≡ record co { mapped_ports = m })
unfolding map_each map_port
mapped_only listen n [] co = (co.mapped_ports, refl)
mapped_only listen n (pp ∷ more) co = elim (Bool-cases (is_bound pp co)) [
  | inl b ↦ rw b (mapped_only listen n more co)
  | inr b ↦ elim (Option-cases (listen n)) [
    | inl e ↦ rw (b, e) (co.mapped_ports, refl)
    | inr (p, e) ↦ rw (b, e) (mapped_only listen (suc n) more (map_port co (pos p) pp))
  ]
]

forward_stops :
    (ports : GoMap ℤ ℤ) (stop : ℕ) (co : Container)
    → (cs : List ℕ) × ((forward_each ports stop co).0 ≡ record co { stop_channels = cs })
unfolding forward_each add_stop_channel
forward_stops [] stop co = (co.stop_channels, refl)
forward_stops ((src, dst) ∷ more) stop co = elim (Bool-cases (is_neg src)) [
  | inl b ↦ rw b (forward_stops more stop co)
  | inr b ↦ rw b (forward_stops more (suc stop) (add_stop_channel co stop))
]

pub mapped_same :
    (listen : ℕ → Option ℕ) (co : Container) → SameState co (map_container_tcp_ports listen co).0
unfolding map_container_tcp_ports
mapped_same listen co =
    let (m, e) = mapped_only listen 0 (get_container_tcp_ports co) co in
    subst (SameState co) (sym e) (same_but_mapped co m)

pub forwarded_same :
    (ports : GoMap ℤ ℤ) (stop : ℕ) (co : Container) → SameState co (forward_each ports stop co).0
forwarded_same ports stop co =
    let (cs, e) = forward_stops ports stop co in subst (SameState co) (sym e) (same_but_stops co cs)
