-- ===== src/Server/Create/Labels.antt =====
-- Which setting wins in the labels of a new container.
use kubedock.Base.{
  ◌≡◌, refl, ◌∙◌, Bool, false, not, [], ◌∷◌, ◌++◌, Option, none, some, is_nil, if◌then◌else◌, arith,
  Str, str_eq, str_eq_refl, str_eq_instance,
}
use kubedock.Base.Int.{pos, int_eq, is_neg}
use kubedock.Base.GoMap
use kubedock.Base.GoMap.{GoMap, lookup-insert}
use kubedock.Base.Text.{codes}
use kubedock.Model.Label
use kubedock.Server.World.{Config}
use kubedock.Server.Create.{
  ContainerCreateRequest, set_default, set_if, request_labels, user_labels, setting_labels,
}
use kubedock.Base.Text.Decimal.{sprint}

skip_default :
    (key value k : Str) (labels : GoMap Str Str)
    → str_eq key k ≡ false
    → GoMap.lookup k (set_default key value labels) ≡ GoMap.lookup k labels
unfolding set_default
skip_default key value k labels h = ground (arith, lookup-insert key k value labels)

skip_if :
    (test : Bool) (key value k : Str) (labels : GoMap Str Str)
    → str_eq key k ≡ false
    → GoMap.lookup k (set_if test key value labels) ≡ GoMap.lookup k labels
unfolding set_if
skip_if test key value k labels h = ground (arith, lookup-insert key k value labels)

skip_insert :
    (key value k : Str) (labels : GoMap Str Str)
    → str_eq key k ≡ false
    → GoMap.lookup k (GoMap.insert key value labels) ≡ GoMap.lookup k labels
skip_insert key value k labels h = ground (arith, lookup-insert key k value labels)

insert_found :
    (key value : Str) (labels : GoMap Str Str)
    → GoMap.lookup key (GoMap.insert key value labels) ≡ some value
insert_found key value labels = ground (arith, lookup-insert key key value labels, str_eq_refl key)

-- The labels of `setting_labels` are not k.
pub record IsOther (k : Str) : Type 0 where
  pub no_prefix : str_eq Label.name_prefix k ≡ false
  pub no_cpu : str_eq Label.request_cpu k ≡ false
  pub no_memory : str_eq Label.request_memory k ≡ false
  pub no_policy : str_eq Label.pull_policy k ≡ false
  pub no_selector : str_eq Label.node_selector k ≡ false
  pub no_deadline : str_eq Label.active_deadline_seconds k ≡ false
  pub no_account : str_eq Label.service_account k ≡ false

setting_skips :
    (cfg : Config) (rq : ContainerCreateRequest) (labels : GoMap Str Str) (k : Str)
    → IsOther k
    → GoMap.lookup k (setting_labels cfg rq labels) ≡ GoMap.lookup k labels
unfolding setting_labels
setting_skips cfg rq labels k o =
    let l3 = set_default Label.name_prefix cfg.name_prefix labels in
    let l4 = set_default Label.request_cpu cfg.request_cpu l3 in
    let l5 = set_default Label.request_memory cfg.request_memory l4 in
    let l6 = set_default Label.pull_policy cfg.pull_policy l5 in
    let l7 = set_default Label.node_selector cfg.node_selector l6 in
    let deadline =
      if is_neg cfg.active_deadline_seconds then [] else sprint cfg.active_deadline_seconds in
    let l8 = set_default Label.active_deadline_seconds deadline l7 in
    let has_memory =
      if int_eq rq.host_config.memory (pos 0) then false else not cfg.ignore_container_memory in
    let l9 = set_if has_memory Label.request_memory (sprint rq.host_config.memory) l8 in
    let cpu = sprint rq.host_config.nano_cpus ++ b'n' ∷ [] in
    let has_cpu = not (int_eq rq.host_config.nano_cpus (pos 0)) in
    let l10 = set_if has_cpu Label.request_cpu cpu l9 in
    skip_insert Label.service_account cfg.service_account k l10 o.no_account
    ∙ skip_if has_cpu Label.request_cpu cpu k l9 o.no_cpu
    ∙ skip_if has_memory Label.request_memory (sprint rq.host_config.memory) k l8 o.no_memory
    ∙ skip_default Label.active_deadline_seconds deadline k l7 o.no_deadline
    ∙ skip_default Label.node_selector cfg.node_selector k l6 o.no_selector
    ∙ skip_default Label.pull_policy cfg.pull_policy k l5 o.no_policy
    ∙ skip_default Label.request_memory cfg.request_memory k l4 o.no_memory
    ∙ skip_default Label.request_cpu cfg.request_cpu k l3 o.no_cpu
    ∙ skip_default Label.name_prefix cfg.name_prefix k labels o.no_prefix

runas-IsOther : IsOther Label.runas_user
unfolding codes str_eq
runas-IsOther = record {
  no_prefix = refl;
  no_cpu = refl;
  no_memory = refl;
  no_policy = refl;
  no_selector = refl;
  no_deadline = refl;
  no_account = refl;
}

-- Who runs the container: the user of the request, else the client's label, else the setting.
abbrev pub run_as_of : Str → Option Str → Str → Option Str
run_as_of (c ∷ user) label setting = some (c ∷ user)
run_as_of [] (some v) setting = some v
run_as_of [] none [] = none
run_as_of [] none (c ∷ setting) = some (c ∷ setting)

lookup-user_labels :
    (cfg : Config) (rq : ContainerCreateRequest) (labels : GoMap Str Str)
    → GoMap.lookup Label.runas_user (user_labels cfg rq labels)
      ≡ run_as_of rq.user (GoMap.lookup Label.runas_user labels) cfg.runas_user
unfolding user_labels set_if set_default GoMap.has
lookup-user_labels cfg rq labels =
    let key = Label.runas_user in
    ground (
      arith,
      lookup-insert key key rq.user (set_default key cfg.runas_user labels),
      lookup-insert key key cfg.runas_user labels,
      str_eq_refl key,
    )

user_skips :
    (cfg : Config) (rq : ContainerCreateRequest) (labels : GoMap Str Str) (k : Str)
    → str_eq Label.runas_user k ≡ false
    → GoMap.lookup k (user_labels cfg rq labels) ≡ GoMap.lookup k labels
unfolding user_labels
user_skips cfg rq labels k h =
    skip_if (not (is_nil rq.user)) Label.runas_user rq.user k
      (set_default Label.runas_user cfg.runas_user labels) h
    ∙ skip_default Label.runas_user cfg.runas_user k labels h

account_set :
    (cfg : Config) (rq : ContainerCreateRequest) (labels : GoMap Str Str)
    → GoMap.lookup Label.service_account (setting_labels cfg rq labels) ≡ some cfg.service_account
unfolding setting_labels
account_set cfg rq labels = insert_found Label.service_account cfg.service_account _

-- The labels of a new container: the service account is the configured one whatever the client
-- asks for; the user of the request wins over the client's label, and that over the setting; a
-- label that none of the settings is about is the client's.
pub request_labels_lem :
    (cfg : Config) (rq : ContainerCreateRequest)
    → (GoMap.lookup Label.service_account (request_labels cfg rq) ≡ some cfg.service_account)
      × (GoMap.lookup Label.runas_user (request_labels cfg rq)
          ≡ run_as_of rq.user (GoMap.lookup Label.runas_user rq.labels) cfg.runas_user)
      × ((k : Str)
          → IsOther k
          → str_eq Label.runas_user k ≡ false
          → GoMap.lookup k (request_labels cfg rq) ≡ GoMap.lookup k rq.labels)
unfolding request_labels
request_labels_lem cfg rq =
    let labels = user_labels cfg rq rq.labels in
    (
      account_set cfg rq labels,
      setting_skips cfg rq labels Label.runas_user runas-IsOther
          ∙ lookup-user_labels cfg rq rq.labels,
      λ k o differs. setting_skips cfg rq labels k o ∙ user_skips cfg rq rq.labels k differs,
    )
