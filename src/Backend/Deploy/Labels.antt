-- ===== src/Backend/Deploy/Labels.antt =====
-- The labels of what is deployed for a container.
use kubedock.Base.{
  ◌≡◌, refl, Bool, true, ◌&&◌, [], ◌∷◌, all_of, arith, Str, str_eq, str_eq_refl, str_eq_instance,
}
use kubedock.Base.GoMap
use kubedock.Base.GoMap.{GoMap, lookup-insert}
use kubedock.Base.Text.{codes}
use kubedock.Model.Container.{Container}
use kubedock.Backend.Names.{to_kubernetes_key, to_kubernetes_value}
use kubedock.Backend.Names.Keys.{is_key, is_plain, is_segment_byte, plain-is_key, value_text}
use kubedock.Base.Text.{split}
use kubedock.Backend.Names.Valid.{is_label_text, to_kubernetes-is_label_text}
use kubedock.Backend.Delete.{Meta, selected}
use kubedock.Backend.Deploy.{Defaults, add_each, add_container_labels, get_labels}

-- A key and a value that kubernetes takes for a label.
unfoldable pub is_label : Str × Str → Bool
is_label (k, v) = is_key k && is_label_text is_segment_byte v

all_of-insert :
    (k v : Str) (m : GoMap Str Str)
    → is_label (k, v) ≡ true
    → all_of is_label m ≡ true
    → all_of is_label (GoMap.insert k v m) ≡ true
unfolding all_of GoMap.insert
all_of-insert k v [] h hs = ground arith
all_of-insert k v ((j, w) ∷ m) h hs = ground (arith, all_of-insert k v m)

all_of-add_each :
    (more m : GoMap Str Str)
    → all_of is_label more ≡ true
    → all_of is_label m ≡ true
    → all_of is_label (add_each more m) ≡ true
unfolding all_of add_each
all_of-add_each [] m h hs = hs
all_of-add_each ((k, v) ∷ more) m h hs =
    ground (arith, all_of-insert k v m, all_of-add_each more (GoMap.insert k v m))

converted :
    (k v : Str) → is_plain k ≡ true → is_label (to_kubernetes_key k, to_kubernetes_value v) ≡ true
unfolding is_label
converted k v h = ground (
  arith,
  plain-is_key k h,
  value_text (to_kubernetes_value v) ((to_kubernetes-is_label_text v).1),
)

all_of-add_container_labels :
    (more m : GoMap Str Str)
    → all_of (λ e. is_plain e.0) more ≡ true
    → all_of is_label m ≡ true
    → all_of is_label (add_container_labels more m) ≡ true
unfolding add_container_labels all_of
all_of-add_container_labels [] m plain hs = hs
all_of-add_container_labels ((k, v) ∷ more) m plain hs = ground (
  arith,
  converted k v,
  all_of-insert (to_kubernetes_key k) (to_kubernetes_value v) m,
  all_of-add_container_labels more m,
  all_of-add_container_labels more (GoMap.insert (to_kubernetes_key k) (to_kubernetes_value v) m),
)

own_key : is_key (codes "kubedock.containerid") ≡ true
unfolding is_key codes split all_of
own_key = refl

own_label :
    (v : Str)
    → is_label_text is_segment_byte v ≡ true
    → is_label (codes "kubedock.containerid", v) ≡ true
unfolding is_label
own_label v h = ground (arith, own_key)

-- If each key of the client's labels has a letter or a digit and no slash, kubernetes takes all the
-- labels of the result, if it takes those of the pod template, the configured ones and the short id
-- of the container: each key is a name of 1 to 63 bytes, with a DNS name and one slash before it at
-- most, and each value has at most 63 bytes.
pub get_labels-is_label :
    (defaults : Defaults) (labels : GoMap Str Str) (co : Container)
    → all_of is_label labels ≡ true
    → all_of is_label defaults.labels ≡ true
    → all_of is_label defaults.system_labels ≡ true
    → all_of (λ e. is_plain e.0) co.labels ≡ true
    → is_label_text is_segment_byte co.short_id ≡ true
    → all_of is_label (get_labels defaults labels co) ≡ true
unfolding get_labels
get_labels-is_label defaults labels co template default system plain short =
    let base = add_each defaults.labels labels in
    let client = add_container_labels co.labels base in
    let all = add_each defaults.system_labels client in
    all_of-insert (codes "kubedock.containerid") co.short_id all (own_label co.short_id short) (
      all_of-add_each defaults.system_labels client system (
        all_of-add_container_labels co.labels base plain
          (all_of-add_each defaults.labels labels default template)))

-- What is deployed with the labels of a container is selected by a delete of a container exactly if
-- the two have the same short id, whatever labels the client gave.
pub get_labels-selected :
    (defaults : Defaults) (labels : GoMap Str Str) (co co' : Container) (o : Meta)
    → o.labels ≡ get_labels defaults labels co
    → selected (codes "kubedock.containerid", co'.short_id) o ≡ str_eq co.short_id co'.short_id
unfolding selected get_labels
get_labels-selected defaults labels co co' o e =
    let key = codes "kubedock.containerid" in
    let all =
      add_each defaults.system_labels
        (add_container_labels co.labels (add_each defaults.labels labels)) in
    ground (arith, lookup-insert key key co.short_id all, str_eq_refl key)
