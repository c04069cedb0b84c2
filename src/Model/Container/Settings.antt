-- ===== src/Model/Container/Settings.antt =====
-- The getters of internal/model/types/container.go that turn labels into pod settings.
pub mod NodeSelector
pub mod Policies
use kubedock.Base.{
  ℕ, ℤ, Bool, true, false, ◌||◌, ◌&&◌, not, List, [], ◌∷◌, ◌++◌, Option, none, some, is_nil, keep,
  ◌==◌, if◌then◌else◌, Result, ok, err, Str, str_eq, str_eq_instance,
}
use kubedock.Base.Int.{pos}
use kubedock.Base.GoMap
use kubedock.Base.GoMap.{GoMap}
use kubedock.Base.Text.{codes, cut, split, to_lower, parse_int64}
use kubedock.Model.Label
use kubedock.Model.Error.{
  Error, invalid_pull_policy, invalid_resource, invalid_quantity, invalid_node_selector, not_int64,
}
use kubedock.Model.Container.{Container}

-- GetEnvVar: the loop over the entries; one with no '=' is skipped
unfoldable pub parse_env : List Str → List (Str × Str)
parse_env [] = []
parse_env (e ∷ es) =
    let rest = parse_env es in elim (cut b'=' e) [ none ↦ rest | some (k, v) ↦ (k, v) ∷ rest ]

unfoldable pub get_env_var : Container → List (Str × Str)
unfolding parse_env
get_env_var co = parse_env co.env

pub data PullPolicy : Type 0 where
  if_not_present always never : PullPolicy

unfoldable pub policies : GoMap Str PullPolicy
policies =
    (codes "default", if_not_present)
    ∷ (codes "notpresent", if_not_present)
    ∷ (codes "ifnotpresent", if_not_present)
    ∷ (codes "always", always)
    ∷ (codes "allways", always)
    ∷ (codes "never", never)
    ∷ []

-- GetImagePullPolicy, by the value of its label
unfoldable pub pull_policy_of : Str → Result Error PullPolicy
unfolding policies
pull_policy_of p =
    if is_nil p then ok if_not_present else (elim (GoMap.lookup (to_lower p) policies) [
      | some c ↦ ok c
      | none ↦ err (invalid_pull_policy p)
    ])

unfoldable pub get_image_pull_policy : Container → Result Error PullPolicy
unfolding pull_policy_of
get_image_pull_policy co = pull_policy_of (GoMap.get_or Label.pull_policy [] co.labels)

-- A corev1.ResourceRequirements over the quantities `Q` of kubernetes.
pub record Resources (Q : Type 0) : Type 0 where
  pub requests : GoMap Str Q
  pub limits : GoMap Str Q

-- strings.ReplaceAll(s, " ", "")
unfoldable pub drop_spaces : Str → Str
drop_spaces s = keep (λ c. not (c == b' ')) s

-- The request and the limit of a label: one part, or two of which an empty first one takes the
-- value of the second.
unfoldable pub request_limit : Str → Option (Str × Str)
unfolding drop_spaces
request_limit rls = elim (split b',' (drop_spaces rls)) [
  | [] ↦ none
  | r ∷ [] ↦ some (r, [])
  | r ∷ l ∷ [] ↦ some (if is_nil r && not (is_nil l) then l else r, l)
  | r ∷ l ∷ x ∷ xs ↦ none
]

module _ {Q : Type 0} (parse_quantity : Str → Option Q) where
  -- The writes to `Requests` and to `Limits` of one round.
  unfoldable pub set_quantities : Str → Str → Str → Resources Q → Result Error (Resources Q)
  set_quantities typ r l req = elim (parse_quantity r) [
    | none ↦ err (invalid_quantity r)
    | some rq ↦
        let req' : Resources Q = record req { requests = GoMap.insert typ rq req.requests } in
        if is_nil l then ok req' else (elim (parse_quantity l) [
          | none ↦ err (invalid_quantity l)
          | some lt ↦ ok (record req' { limits = GoMap.insert typ lt req'.limits })
        ])
  ]

  -- One round of the loop: `typ` is "cpu" or "memory".
  unfoldable pub set_resource : GoMap Str Str → Str → Str → Resources Q → Result Error (Resources Q)
  unfolding set_quantities request_limit
  set_resource labels typ labl req = elim (GoMap.lookup labl labels) [
    | none ↦ ok req
    | some rls ↦ elim (request_limit rls) [
      | none ↦ err (invalid_resource rls)
      | some (r, l) ↦ set_quantities typ r l req
    ]
  ]

  -- GetResourceRequirements; the list is the loop's map, in the order in which `range` visits it. The
  -- maps of the argument are values: that the code writes into those of the pod template, where that
  -- has them, is not modelled.
  unfoldable pub get_resource_requirements :
      Container → List (Str × Str) → Resources Q → Result Error (Resources Q)
  unfolding set_resource
  get_resource_requirements co [] req = ok req
  get_resource_requirements co ((typ, labl) ∷ order) req =
      elim (set_resource co.labels typ labl req) [
        | err e ↦ err e
        | ok req' ↦ get_resource_requirements co order req'
      ]

-- The loop's map of GetResourceRequirements.
abbrev pub cpu_kind : Str × Str
cpu_kind = (codes "cpu", Label.request_cpu)

abbrev pub memory_kind : Str × Str
memory_kind = (codes "memory", Label.request_memory)

-- splitNodeSelector
unfoldable pub split_node_selector : Str → Result Error (Str × Str)
split_node_selector selector = elim (split b'=' selector) [
  | k ∷ v ∷ [] ↦ ok (k, v)
  | _ ↦ err (invalid_node_selector selector)
]

-- The loop of GetNodeSelector.
unfoldable pub add_selectors : List Str → GoMap Str Str → Result Error (GoMap Str Str)
unfolding split_node_selector
add_selectors [] nodesel = ok nodesel
add_selectors (s ∷ ss) nodesel = elim (split_node_selector s) [
  | ok (k, v) ↦ add_selectors ss (GoMap.insert k v nodesel)
  | err e ↦ err e
]

unfoldable pub get_node_selector : Container → GoMap Str Str → Result Error (GoMap Str Str)
unfolding add_selectors
get_node_selector co nodesel =
    let selector = GoMap.get_or Label.node_selector [] co.labels in
    if is_nil selector then ok nodesel else add_selectors (split b',' selector) nodesel

unfoldable pub get_service_account_name : Container → Str → Str
get_service_account_name co current = elim (GoMap.lookup Label.service_account co.labels) [
  | some sa ↦ sa
  | none ↦ if is_nil current then codes "default" else current
]

unfoldable pub get_active_deadline_seconds : Container → Result Error (Option ℤ)
get_active_deadline_seconds co = elim (GoMap.lookup Label.active_deadline_seconds co.labels) [
  | none ↦ ok none
  | some ads ↦ elim (parse_int64 ads) [ none ↦ err (not_int64 ads) | some n ↦ ok (some n) ]
]

-- strings.Split(user, ":")[0]
unfoldable pub user_part : Str → Str
user_part user = elim (split b':' user) [ [] ↦ [] | u ∷ us ↦ u ]

-- What is kept of a corev1.PodSecurityContext: its RunAsUser.
pub record SecurityContext : Type 0 where
  pub run_as_user : Option ℤ

-- The user id behind the runas-user label, which is not empty.
unfoldable pub run_as : Str → Result Error (Option SecurityContext)
unfolding user_part
run_as user =
    let u = if str_eq (user_part user) (codes "root") then codes "0" else user in
    elim (parse_int64 u) [
      | none ↦ err (not_int64 u)
      | some n ↦ ok (some (record { run_as_user = some n }))
    ]

-- GetPodSecurityContext; `none` is a nil context
unfoldable pub get_pod_security_context :
    Container → Option SecurityContext → Result Error (Option SecurityContext)
unfolding run_as
get_pod_security_context co context =
    let user = GoMap.get_or Label.runas_user [] co.labels in
    if is_nil user then ok context else run_as user
