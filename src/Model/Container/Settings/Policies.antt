-- ===== src/Model/Container/Settings/Policies.antt =====
-- Pull policies and resource quantities.
use kubedock.Base.{
  ◌≡◌, refl, ap, ◌∙◌, false, [], ◌∷◌, Option, none, some, is_nil, if◌then◌else◌, Result, ok, err,
  arith, Str, str_eq, str_eq_instance, inl, inr, ◌⊎◌,
}
use kubedock.Base.GoMap
use kubedock.Base.GoMap.{GoMap, insert_swap}
use kubedock.Base.Text.{to_lower, codes}
use kubedock.Model.Label
use kubedock.Model.Error.{Error, invalid_resource, invalid_quantity}
use kubedock.Model.Container.{Container}
use kubedock.Model.Container.Settings.{
  PullPolicy, pull_policy_of, Resources, request_limit, set_resource, get_resource_requirements,
  cpu_kind, memory_kind,
}

to_lower_idem : (s : Str) → to_lower (to_lower s) ≡ to_lower s
unfolding to_lower
to_lower_idem [] = refl
to_lower_idem (c ∷ s) = ground (arith, to_lower_idem s)

-- Labels that differ only in the case of their letters choose the same policy: where one chooses a
-- policy the other does.
pub pull_policy_of_case :
    (p q : Str) (c : PullPolicy)
    → to_lower p ≡ to_lower q
    → pull_policy_of p ≡ ok c
    → pull_policy_of q ≡ ok c
unfolding pull_policy_of to_lower
pull_policy_of_case [] [] c e h = h
pull_policy_of_case [] (d ∷ q) c e h = absurd (cc)
pull_policy_of_case (d ∷ p) [] c e h = absurd (cc)
pull_policy_of_case (d ∷ p) (d' ∷ q) c e h = ground arith

Result-cases : {E A : Type 0} (r : Result E A) → ((e : E) × (r ≡ err e)) ⊎ ((a : A) × (r ≡ ok a))
Result-cases (err e) = inl (e, refl)
Result-cases (ok a) = inr (a, refl)

cpu_not_memory : str_eq (codes "cpu") (codes "memory") ≡ false
unfolding str_eq codes
cpu_not_memory = refl

module _ {Q : Type 0} (parse_quantity : Str → Option Q) where
  -- What a label asks for: a request, and perhaps a limit.
  quantities : Str → Str → Result Error (Q × Option Q)
  quantities r l = elim (parse_quantity r) [
    | none ↦ err (invalid_quantity r)
    | some rq ↦ if is_nil l then ok (rq, none) else (elim (parse_quantity l) [
      | none ↦ err (invalid_quantity l)
      | some lt ↦ ok (rq, some lt)
    ])
  ]

  plan : GoMap Str Str → Str → Result Error (Option (Q × Option Q))
  plan labels labl = elim (GoMap.lookup labl labels) [
    | none ↦ ok none
    | some rls ↦ elim (request_limit rls) [
      | none ↦ err (invalid_resource rls)
      | some (r, l) ↦ elim (quantities r l) [ err e ↦ err e | ok q ↦ ok (some q) ]
    ]
  ]

  apply : Str → Option (Q × Option Q) → Resources Q → Resources Q
  apply typ none req = req
  apply typ (some (rq, none)) req = record req { requests = GoMap.insert typ rq req.requests }
  apply typ (some (rq, some lt)) req = record {
    requests = GoMap.insert typ rq req.requests;
    limits = GoMap.insert typ lt req.limits;
  }

  set_resource-plan :
      (labels : GoMap Str Str) (typ labl : Str) (req : Resources Q)
      → set_resource parse_quantity labels typ labl req
        ≡ elim (plan labels labl) [ err e ↦ err e | ok q ↦ ok (apply typ q req) ]
  unfolding set_resource plan quantities apply
  set_resource-plan labels typ labl req = ground arith

  -- Equal at every key.
  abbrev SameMap : GoMap Str Q → GoMap Str Q → Type 0
  SameMap m m' = (k : Str) → GoMap.lookup k m ≡ GoMap.lookup k m'

  run_plans :
      (co : Container) (a b : Str × Str) (req : Resources Q)
      → get_resource_requirements parse_quantity co (a ∷ b ∷ []) req ≡ elim (plan co.labels a.1) [
        | err e ↦ err e
        | ok p ↦ elim (plan co.labels b.1) [
          | err e ↦ err e
          | ok q ↦ ok (apply b.0 q (apply a.0 p req))
        ]
      ]
  unfolding get_resource_requirements
  run_plans co (ta, la) (tb, lb) req = elim (Result-cases (plan co.labels la)) [
    | inl (e, h) ↦ ground (arith, set_resource-plan co.labels ta la req)
    | inr (p, h) ↦ ground (
      arith,
      set_resource-plan co.labels ta la req,
      set_resource-plan co.labels tb lb (apply ta p req),
    )
  ]

  swap_none :
      (a b : Str) (p : Q × Option Q) (req : Resources Q)
      → SameMap
          (apply b none (apply a (some p) req)).requests
          (apply a (some p) (apply b none req)).requests
        × SameMap
            (apply b none (apply a (some p) req)).limits
            (apply a (some p) (apply b none req)).limits
  unfolding apply
  swap_none a b p req = (λ k. refl, λ k. refl)

  swap :
      (a b : Str) (p q : Option (Q × Option Q)) (req : Resources Q)
      → str_eq a b ≡ false
      → SameMap (apply b q (apply a p req)).requests (apply a p (apply b q req)).requests
        × SameMap (apply b q (apply a p req)).limits (apply a p (apply b q req)).limits
  unfolding apply
  swap a b none q req differ = (λ k. refl, λ k. refl)
  swap a b (some (rp, lp)) none req differ = swap_none a b (rp, lp) req
  swap a b (some (rp, none)) (some (rq, none)) req differ =
      (λ k. insert_swap a b k rp rq req.requests differ, λ k. refl)
  swap a b (some (rp, none)) (some (rq, some lq)) req differ =
      (λ k. insert_swap a b k rp rq req.requests differ, λ k. refl)
  swap a b (some (rp, some lp)) (some (rq, none)) req differ =
      (λ k. insert_swap a b k rp rq req.requests differ, λ k. refl)
  swap a b (some (rp, some lp)) (some (rq, some lq)) req differ = (
    λ k. insert_swap a b k rp rq req.requests differ,
    λ k. insert_swap a b k lp lq req.limits differ,
  )

  -- The requirements do not depend on the order in which the loop visits "cpu" and "memory": where
  -- one order succeeds the other does, with the same request and the same limit for every name.
  pub get_resource_requirements_order :
      (co : Container) (req req1 : Resources Q)
      → get_resource_requirements parse_quantity co (cpu_kind ∷ memory_kind ∷ []) req ≡ ok req1
      → (req2 : Resources Q) × (get_resource_requirements parse_quantity co
            (memory_kind ∷ cpu_kind ∷ [])
            req
          ≡ ok req2)
        × SameMap req1.requests req2.requests
        × SameMap req1.limits req2.limits
  get_resource_requirements_order co req req1 h =
      elim (Result-cases (plan co.labels Label.request_cpu)) [
        | inl (e, hp) ↦ absurd (ground (arith, run_plans co cpu_kind memory_kind req))
        | inr (p, hp) ↦ elim (Result-cases (plan co.labels Label.request_memory)) [
          | inl (e, hq) ↦ absurd (ground (arith, run_plans co cpu_kind memory_kind req))
          | inr (q, hq) ↦
              let e : req1 ≡ apply (codes "memory") q (apply (codes "cpu") p req) =
                ground (arith, run_plans co cpu_kind memory_kind req) in
              let same = swap (codes "cpu") (codes "memory") p q req cpu_not_memory in
              (
                apply (codes "cpu") p (apply (codes "memory") q req),
                ground (arith, run_plans co memory_kind cpu_kind req),
                λ k. ap (λ (r : Resources Q). GoMap.lookup k r.requests) e ∙ same.0 k,
                λ k. ap (λ (r : Resources Q). GoMap.lookup k r.limits) e ∙ same.1 k,
              )
        ]
      ]
