-- ===== src/Model/Container/Settings/NodeSelector.antt =====
-- Node selectors as text: GetNodeSelector against the format that the README describes.
use kubedock.Base.{
  ℕ, ◌≡◌, refl, Bool, true, false, ◌&&◌, List, [], ◌∷◌, ◌++◌, is_nil, map, all_of, ok, arith, Str,
  str_eq_instance, &&_parts,
}
use kubedock.Base.GoMap
use kubedock.Base.GoMap.{GoMap}
use kubedock.Base.Text.{split}
use kubedock.Base.Text.Split.{join, lacks, split-lacks, split-append}
use kubedock.Model.Label
use kubedock.Model.Container.{Container}
use kubedock.Model.Container.Settings.{split_node_selector, add_selectors, get_node_selector}

-- key=value
unfoldable pub format_pair : Str × Str → Str
format_pair (k, v) = k ++ b'=' ∷ v

-- key1=value1,key2=value2
unfoldable pub format_selector : List (Str × Str) → Str
unfolding format_pair
format_selector kvs = join b',' (map format_pair kvs)

-- The entries written to the map, in their order.
unfoldable pub insert_each : List (Str × Str) → GoMap Str Str → GoMap Str Str
insert_each [] m = m
insert_each ((k, v) ∷ kvs) m = insert_each kvs (GoMap.insert k v m)

-- No comma and no equals sign in a key or a value.
abbrev pub is_plain : Str × Str → Bool
is_plain (k, v) = lacks b'=' k && lacks b'=' v && lacks b',' k && lacks b',' v

lacks-append :
    (sep : ℕ) (s t : Str) → lacks sep s ≡ true → lacks sep t ≡ true → lacks sep (s ++ t) ≡ true
unfolding all_of
lacks-append sep [] t h k = k
lacks-append sep (c ∷ s) t h k = ground (arith, lacks-append sep s t)

pair_lacks : (e : Str × Str) → is_plain e ≡ true → lacks b',' (format_pair e) ≡ true
unfolding format_pair all_of
pair_lacks (k, v) h = lacks-append b',' k (b'=' ∷ v) (ground arith) (ground arith)

split-pair :
    (k v : Str) → is_plain (k, v) ≡ true → split_node_selector (format_pair (k, v)) ≡ ok (k, v)
unfolding split_node_selector format_pair
split-pair k v h = ground (arith, split-append b'=' k v, split-lacks b'=' v)

split-selector :
    (e : Str × Str) (kvs : List (Str × Str))
    → all_of is_plain (e ∷ kvs) ≡ true
    → split b',' (format_selector (e ∷ kvs)) ≡ map format_pair (e ∷ kvs)
unfolding format_selector join all_of
split-selector e [] h =
    split-lacks b',' (format_pair e) (pair_lacks e (&&_parts (is_plain e) true h).0)
split-selector e (e' ∷ kvs) h =
    let (he, hs) = &&_parts (is_plain e) (all_of is_plain (e' ∷ kvs)) h in
    ground (
      arith,
      split-append b',' (format_pair e) (format_selector (e' ∷ kvs)) (pair_lacks e he),
      split-selector e' kvs hs,
    )

add_selectors-map :
    (kvs : List (Str × Str)) (m : GoMap Str Str)
    → all_of is_plain kvs ≡ true
    → add_selectors (map format_pair kvs) m ≡ ok (insert_each kvs m)
unfolding add_selectors insert_each all_of
add_selectors-map [] m h = refl
add_selectors-map ((k, v) ∷ kvs) m h =
    let (he, hs) = &&_parts (is_plain (k, v)) (all_of is_plain kvs) h in
    ground (arith, split-pair k v he, add_selectors-map kvs (GoMap.insert k v m) hs)

not_nil : (e : Str × Str) (kvs : List (Str × Str)) → is_nil (format_selector (e ∷ kvs)) ≡ false
unfolding format_selector format_pair join
not_nil ([], v) [] = refl
not_nil (c ∷ k, v) [] = refl
not_nil ([], v) (e ∷ kvs) = refl
not_nil (c ∷ k, v) (e ∷ kvs) = refl

-- A selector label that is written in the documented format adds its entries, in their order, to
-- the selector of the pod template, if no key or value holds a comma or an equals sign.
pub get_node_selector-format :
    (co : Container) (e : Str × Str) (kvs : List (Str × Str)) (nodesel : GoMap Str Str)
    → all_of is_plain (e ∷ kvs) ≡ true
    → GoMap.get_or Label.node_selector [] co.labels ≡ format_selector (e ∷ kvs)
    → get_node_selector co nodesel ≡ ok (insert_each (e ∷ kvs) nodesel)
unfolding get_node_selector
get_node_selector-format co e kvs nodesel plain label =
    ground
      (arith, split-selector e kvs plain, add_selectors-map (e ∷ kvs) nodesel plain, not_nil e kvs)
