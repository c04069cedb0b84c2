-- ===== src/Backend/HostPorts/Mapped.antt =====
-- Every port of a container is reachable from the host.
use kubedock.Base.{
  ℕ, ℤ, suc, ◌≤◌, ◌≡◌, ◌⊎◌, ◌&&◌, refl, sym, ap, subst, ◌∙◌, inl, inr, true, false, List, [], ◌∷◌,
  Option, some, any_of, All, Bool-cases, Option-cases, arith, int_eq_instance,
}
use kubedock.Base.GoMap
use kubedock.Base.GoMap.{GoMap}
use kubedock.Base.Int.{pos, is_pos, int_eq, int_eq_iff}
use kubedock.Model.Container.{Container, map_port}
use kubedock.Model.Container.Ports.{get_tcp_ports, get_container_tcp_ports}
use kubedock.Server.Ports.Available.{sends}
use kubedock.Backend.HostPorts.{is_bound, map_each, map_container_tcp_ports}

-- Some port of the host leads to the port: a host port that the client gave and that is a number of
-- a port, or a port that was mapped.
unfoldable pub Reached : ℤ → Container → Type 0
Reached pp co =
    (src : ℤ) × (((is_pos src ≡ true) × (sends src pp co.host_ports ≡ true))
      ⊎ (sends src pp co.mapped_ports ≡ true))

sends_host :
    (pp : ℤ) (m : GoMap ℤ ℤ)
    → any_of (λ e. is_pos e.0 && int_eq e.1 pp) m ≡ true
    → (src : ℤ) × (is_pos src ≡ true) × (sends src pp m ≡ true)
unfolding any_of sends
sends_host pp [] h = absurd (ground arith)
sends_host pp ((s, d) ∷ m) h = elim (Bool-cases (is_pos s && int_eq d pp)) [
  | inl here ↦ (s, ground arith, ground (arith, int_eq_iff s s, int_eq_iff d pp, int_eq_iff pp d))
  | inr later ↦ let (src, p, e) = sends_host pp m (ground arith) in (src, p, ground arith)
]

sends_mapped :
    (pp : ℤ) (m : GoMap ℤ ℤ)
    → any_of (λ e. int_eq e.1 pp) m ≡ true
    → (src : ℤ) × (sends src pp m ≡ true)
unfolding any_of sends
sends_mapped pp [] h = absurd (ground arith)
sends_mapped pp ((s, d) ∷ m) h = elim (Bool-cases (int_eq d pp)) [
  | inl here ↦ (s, ground (arith, int_eq_iff s s, int_eq_iff d pp, int_eq_iff pp d))
  | inr later ↦ let (src, e) = sends_mapped pp m (ground arith) in (src, ground arith)
]

bound-Reached : (pp : ℤ) (co : Container) → is_bound pp co ≡ true → Reached pp co
unfolding is_bound Reached
bound-Reached pp co h =
    elim (Bool-cases (any_of (λ e. is_pos e.0 && int_eq e.1 pp) co.host_ports)) [
      | inl host ↦ let (src, p, e) = sends_host pp co.host_ports host in (src, inl (p, e))
      | inr none_host ↦
          let (src, e) = sends_mapped pp co.mapped_ports (ground arith) in (src, inr e)
    ]

bound_each-Reached :
    (co : Container) (pps : List ℤ)
    → All (λ pp. is_bound pp co ≡ true) pps
    → All (λ pp. Reached pp co) pps
bound_each-Reached co [] h = tt
bound_each-Reached co (pp ∷ pps) h = (bound-Reached pp co h.0, bound_each-Reached co pps h.1)

-- No port that is listened on from the n-th call on is one of the map.
unfoldable pub Unused : (ℕ → Option ℕ) → ℕ → GoMap ℤ ℤ → Type 0
Unused listen n m = (i p : ℕ) → n ≤ i → listen i ≡ some p → GoMap.has (pos p) m ≡ false

-- Two calls take two ports, since the first listener is still open.
unfoldable pub Distinct : (ℕ → Option ℕ) → Type 0
Distinct listen = (i j p : ℕ) → listen i ≡ some p → listen j ≡ some p → i ≡ j

has_other :
    (k j v : ℤ) (m : GoMap ℤ ℤ)
    → int_eq k j ≡ false
    → GoMap.has j m ≡ false
    → GoMap.has j (GoMap.insert k v m) ≡ false
unfolding GoMap.has
has_other k j v m d h = ground (arith, GoMap.lookup-insert k j v m)

any_dst-new :
    (k v pp : ℤ) (m : GoMap ℤ ℤ)
    → int_eq v pp ≡ true
    → any_of (λ e. int_eq e.1 pp) (GoMap.insert k v m) ≡ true
unfolding any_of GoMap.insert
any_dst-new k v pp [] h = ground arith
any_dst-new k v pp ((j, w) ∷ m) h = ground (arith, any_dst-new k v pp m)

any_dst-old :
    (k v pp : ℤ) (m : GoMap ℤ ℤ)
    → GoMap.has k m ≡ false
    → any_of (λ e. int_eq e.1 pp) m ≡ true
    → any_of (λ e. int_eq e.1 pp) (GoMap.insert k v m) ≡ true
unfolding any_of GoMap.insert GoMap.has GoMap.lookup
any_dst-old k v pp [] n h = ground arith
any_dst-old k v pp ((j, w) ∷ m) n h = ground (arith, any_dst-old k v pp m)

pos_apart : (p q : ℕ) → (p ≡ q → ◌≡◌ {A = ℕ} 0 1) → int_eq (pos p) (pos q) ≡ false
pos_apart p q h = ground arith

module _ (listen : ℕ → Option ℕ) (distinct : Distinct listen) where
  u_at :
      (n p : ℕ) (co : Container)
      → listen n ≡ some p
      → Unused listen n co.mapped_ports
      → GoMap.has (pos p) co.mapped_ports ≡ false
  unfolding Unused
  u_at n p co e u = u n p (omega arith) e

  bound_new : (pp : ℤ) (p : ℕ) (co : Container) → is_bound pp (map_port co (pos p) pp) ≡ true
  unfolding is_bound map_port
  bound_new pp p co = ground (arith, any_dst-new (pos p) pp pp co.mapped_ports, int_eq_iff pp pp)

  bound_old :
      (pp qq : ℤ) (p : ℕ) (co : Container)
      → GoMap.has (pos p) co.mapped_ports ≡ false
      → is_bound qq co ≡ true
      → is_bound qq (map_port co (pos p) pp) ≡ true
  unfolding is_bound map_port
  bound_old pp qq p co n h = ground (arith, any_dst-old (pos p) pp qq co.mapped_ports)

  next-Unused :
      (n p : ℕ) (pp : ℤ) (co : Container)
      → listen n ≡ some p
      → Unused listen n co.mapped_ports
      → Unused listen (suc n) (map_port co (pos p) pp).mapped_ports
  unfolding Unused map_port Distinct
  next-Unused n p pp co e h i q le e' =
      has_other (pos p) (pos q) pp co.mapped_ports
        (pos_apart p q (λ same. omega (arith, distinct n i q (e ∙ ap some same) e')))
        (h i q (omega arith) e')

  -- what is bound stays bound
  kept :
      (n : ℕ) (pps : List ℤ) (co : Container) (qq : ℤ)
      → Unused listen n co.mapped_ports
      → is_bound qq co ≡ true
      → is_bound qq (map_each listen n pps co).0 ≡ true
  unfolding map_each
  kept n [] co qq u h = h
  kept n (pp ∷ more) co qq u h = elim (Bool-cases (is_bound pp co)) [
    | inl b ↦ ground (arith, kept n more co qq u h)
    | inr b ↦ elim (Option-cases (listen n)) [
      | inl e ↦ ground arith
      | inr (p, e) ↦
          let next = map_port co (pos p) pp in
          let rest =
            kept (suc n) more next qq (next-Unused n p pp co e u)
              (bound_old pp qq p co (u_at n p co e u) h) in
          ground arith
    ]
  ]

  map_each-All :
      (n : ℕ) (pps : List ℤ) (co : Container)
      → Unused listen n co.mapped_ports
      → (map_each listen n pps co).1 ≡ false
      → All (λ pp. is_bound pp (map_each listen n pps co).0 ≡ true) pps
  unfolding map_each
  map_each-All n [] co u h = tt
  map_each-All n (pp ∷ more) co u h = elim (Bool-cases (is_bound pp co)) [
    | inl b ↦
        let same : map_each listen n (pp ∷ more) co ≡ map_each listen n more co = ground arith in
        subst (λ r. All (λ qq. is_bound qq r.0 ≡ true) (pp ∷ more)) (sym same)
          (kept n more co pp u b, map_each-All n more co u (ground arith))
    | inr b ↦ elim (Option-cases (listen n)) [
      | inl e ↦ absurd (ground arith)
      | inr (p, e) ↦
          let next = map_port co (pos p) pp in
          let u' = next-Unused n p pp co e u in
          let same : map_each listen n (pp ∷ more) co ≡ map_each listen (suc n) more next =
            ground arith in
          subst (λ r. All (λ qq. is_bound qq r.0 ≡ true) (pp ∷ more)) (sym same)
            (
              kept (suc n) more next pp u' (bound_new pp p co),
              map_each-All (suc n) more next u' (ground arith),
            )
    ]
  ]

  same_exposed :
      (n : ℕ) (pps : List ℤ) (co : Container)
      → (map_each listen n pps co).0.exposed_ports ≡ co.exposed_ports
  unfolding map_each map_port
  same_exposed n [] co = refl
  same_exposed n (pp ∷ more) co = elim (Option-cases (listen n)) [
    | inl e ↦ ground (arith, same_exposed n more co)
    | inr (p, e) ↦
        ground (arith, same_exposed n more co, same_exposed (suc n) more (map_port co (pos p) pp))
  ]

  again :
      (listen' : ℕ → Option ℕ) (n : ℕ) (pps : List ℤ) (co : Container)
      → All (λ pp. is_bound pp co ≡ true) pps
      → map_each listen' n pps co ≡ (co, false)
  unfolding map_each
  again listen' n [] co h = refl
  again listen' n (pp ∷ more) co h = rw (h.0) (again listen' n more co h.1)

  -- Where no two calls listen on one port and none on a port that is mapped already, and there is
  -- no error: to every TCP port that the container exposes leads a port of the host, which is a
  -- positive host port of the client or a mapped one; and to map the ports again changes nothing,
  -- whatever the host's ports are then.
  pub map_container_tcp_ports_lem :
      (co : Container) (listen' : ℕ → Option ℕ)
      → Unused listen 0 co.mapped_ports
      → (map_container_tcp_ports listen co).1 ≡ false
      → let co' = (map_container_tcp_ports listen co).0 in
        All (λ pp. Reached pp co') (get_container_tcp_ports co)
        × (map_container_tcp_ports listen' co' ≡ (co', false))
  unfolding map_container_tcp_ports get_container_tcp_ports
  map_container_tcp_ports_lem co listen' u h =
      let pps = get_container_tcp_ports co in
      let bound = map_each-All 0 pps co u h in
      (
        bound_each-Reached (map_each listen 0 pps co).0 pps bound,
        again listen' 0 (get_container_tcp_ports (map_each listen 0 pps co).0)
            (map_each listen 0 pps co).0
            (subst
              (λ x. All (λ pp. is_bound pp (map_each listen 0 pps co).0 ≡ true) (get_tcp_ports x))
              (sym (same_exposed 0 pps co)) bound),
      )
