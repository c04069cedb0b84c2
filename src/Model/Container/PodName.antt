-- ===== src/Model/Container/PodName.antt =====
-- GetPodName of internal/model/types/container.go.
pub mod Parts
pub mod DnsLabel
use kubedock.Base.{
  ℕ, Bool, true, false, ◌||◌, ◌&&◌, List, [], ◌∷◌, ◌++◌, Option, none, some, length, take, keep,
  ltb, ◌==◌, if◌then◌else◌, Str, str_eq_instance,
}
use kubedock.Base.GoMap
use kubedock.Base.Text.{codes, is_alnum, to_lower, replace_byte}
use kubedock.Model.Label
use kubedock.Model.Container.{Container}

-- [A-Za-z0-9-]
abbrev pub is_name_byte : ℕ → Bool
is_name_byte c = is_alnum c || (c == b'-')

-- strings.ReplaceAll(name, "--", "-"): pairs from the left, each once
unfoldable pub squeeze : Str → Str
squeeze [] = []
squeeze (c ∷ []) = c ∷ []
squeeze (c ∷ d ∷ s) =
    let pair = squeeze s in
    let single = squeeze (d ∷ s) in if (c == b'-') && (d == b'-') then b'-' ∷ pair else c ∷ single

-- The pattern ^[^A-Za-z0-9]+ replaced by nothing.
unfoldable pub strip_front : Str → Str
strip_front [] = []
strip_front (c ∷ s) = let rest = strip_front s in if is_alnum c then c ∷ s else rest

unfoldable pub full_name : Container → Str
full_name co = elim (GoMap.lookup Label.name_prefix co.labels) [
  | some prefix ↦ prefix ++ b'-' ∷ co.name
  | none ↦ codes "kubedock-" ++ co.name
]

-- The name with '_' replaced and what is no name byte taken out, cut to 32 bytes.
unfoldable pub clean_name : Str → Str
clean_name name =
    let clean = keep is_name_byte (replace_byte b'_' b'-' name) in
    if ltb 32 (length clean) then take 32 clean else clean

unfoldable pub get_pod_name : Container → Str
unfolding full_name clean_name squeeze strip_front
get_pod_name co = to_lower (strip_front (squeeze (clean_name (full_name co) ++ b'-' ∷ co.short_id)))
