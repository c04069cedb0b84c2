-- ===== src/Model/Container/Tests.antt =====
-- A container with labels and ports.
use kubedock.Base.Text.Split.{join}
use kubedock.Base.{
  keep, str_eq, str_eq_instance, int_eq_instance, ◌≡◌, refl, ◌≤◌, true, [], ◌∷◌, some, ok, Str,
  replicate, length, all_of,
}
use kubedock.Base.Int.{pos}
use kubedock.Base.Text.{split, codes, to_lower}
use kubedock.Base.GoMap
use kubedock.Base.GoMap.{GoMap}
use kubedock.Util.StringId.{is_short_id}
use kubedock.Model.Label
use kubedock.Model.Container.{Container, blank}
use kubedock.Model.Container.PodName.{get_pod_name}
use kubedock.Model.Container.PodName.DnsLabel.{
  is_dns_label, get_pod_name-is_dns_label, get_pod_name_injective,
}
use kubedock.Model.Container.Settings.{
  get_node_selector, pull_policy_of, always, Resources, get_resource_requirements, cpu_kind,
  memory_kind,
}
use kubedock.Model.Container.Settings.NodeSelector.{
  is_plain, format_selector, insert_each, get_node_selector-format,
}

abbrev web : Container
web = record blank {
  short_id = replicate 12 b'a';
  name = codes "My_Web--Server";
  labels =
      (Label.node_selector, codes "disk=ssd,zone=a")
      ∷ (Label.request_cpu, codes "1")
      ∷ (Label.request_memory, codes "2")
      ∷ [];
  mapped_ports = (pos 80, pos 8080) ∷ [];
  host_ports = (pos 80, pos 9090) ∷ [];
}

abbrev other : Container
other = record web { short_id = replicate 12 b'a' }

web_short : is_short_id web.short_id ≡ true
unfolding is_short_id all_of
web_short = refl

get_pod_name-is_dns_label_example :
    (length (get_pod_name web) ≤ 45) × (is_dns_label (get_pod_name web) ≡ true)
get_pod_name-is_dns_label_example = get_pod_name-is_dns_label web web_short

get_pod_name_injective_example : web.short_id ≡ other.short_id
get_pod_name_injective_example = get_pod_name_injective web other web_short web_short refl

selectors_plain :
    all_of is_plain ((codes "disk", codes "ssd") ∷ (codes "zone", codes "a") ∷ []) ≡ true
unfolding all_of codes
selectors_plain = refl

web_selector :
    GoMap.get_or Label.node_selector [] web.labels
    ≡ format_selector ((codes "disk", codes "ssd") ∷ (codes "zone", codes "a") ∷ [])
unfolding format_selector GoMap.get_or join str_eq codes
web_selector = refl

get_node_selector-format_example :
    get_node_selector web []
    ≡ ok (insert_each ((codes "disk", codes "ssd") ∷ (codes "zone", codes "a") ∷ []) [])
get_node_selector-format_example =
    get_node_selector-format web (codes "disk", codes "ssd") ((codes "zone", codes "a") ∷ []) []
      selectors_plain web_selector

same_lower : to_lower (codes "Always") ≡ to_lower (codes "aLWAYS")
unfolding codes to_lower
same_lower = refl

always_policy : pull_policy_of (codes "Always") ≡ ok always
unfolding pull_policy_of codes GoMap.lookup str_eq to_lower
always_policy = refl

abbrev quantities : Resources Str
quantities = record {
  requests = (codes "cpu", codes "1") ∷ (codes "memory", codes "2") ∷ [];
  limits = [];
}

abbrev none_yet : Resources Str
none_yet = record { requests = []; limits = [] }

web_resources :
    get_resource_requirements some web (cpu_kind ∷ memory_kind ∷ []) none_yet ≡ ok quantities
unfolding get_resource_requirements GoMap.lookup str_eq codes split keep GoMap.insert
web_resources = refl
