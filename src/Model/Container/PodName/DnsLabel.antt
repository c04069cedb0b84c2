-- ===== src/Model/Container/PodName/DnsLabel.antt =====
-- Pod names are names that kubernetes takes, and tell containers apart.
use kubedock.Base.{
  ℕ, ◌≤◌, ◌<◌, ◌≡◌, refl, sym, ap, ap₂, ◌∙◌, Bool, true, false, ◌||◌, ◌&&◌, [], ◌∷◌, ◌++◌,
  append_assoc, length, drop, all_of, leb, ◌==◌, arith, length-append, drop-append_self, Str,
}
use kubedock.Base.Text.{is_digit, is_lower, to_lower}
use kubedock.Util.StringId.{is_hex, is_short_id}
use kubedock.Model.Container.{Container}
use kubedock.Model.Container.PodName.{
  is_name_byte, squeeze, strip_front, clean_name, full_name, get_pod_name,
}
use kubedock.Model.Container.PodName.Parts.{
  all_of-weaken, append-all_of, clean_name_bounds, squeeze-all_of, length-squeeze, squeeze-append,
  strip_front-append, strip_front-all_of, length-strip_front, length-to_lower, to_lower-append,
  to_lower_hex,
}

-- [a-z0-9]
abbrev is_edge : ℕ → Bool
is_edge c = is_lower c || is_digit c

-- [-a-z0-9]
abbrev is_inner : ℕ → Bool
is_inner c = is_edge c || (c == b'-')

abbrev ends_well : Str → Bool
ends_well [] = false
ends_well (c ∷ []) = is_edge c
ends_well (c ∷ d ∷ s) = ends_well (d ∷ s)

abbrev starts_well : Str → Bool
starts_well [] = false
starts_well (c ∷ s) = is_edge c

-- A DNS label of RFC 1123, which kubernetes wants of a pod's name and of a service's selector.
abbrev pub is_dns_label : Str → Bool
is_dns_label s = leb (length s) 63 && all_of is_inner s && starts_well s && ends_well s

lower-all_of : (s : Str) → all_of is_name_byte s ≡ true → all_of is_inner (to_lower s) ≡ true
unfolding all_of to_lower
lower-all_of [] h = refl
lower-all_of (c ∷ s) h = ground (arith, lower-all_of s)

-- What is left of a name in front of the id begins with a letter or a digit.
starts-strip_front :
    (s t : Str) → starts_well t ≡ true → starts_well (to_lower (strip_front s) ++ t) ≡ true
unfolding strip_front to_lower
starts-strip_front [] t h = h
starts-strip_front (c ∷ s) t h = ground (arith, starts-strip_front s t h)

ends-append : (s t : Str) → ends_well t ≡ true → ends_well (s ++ t) ≡ true
ends-append s [] h = cc
ends-append [] (d ∷ t) h = h
ends-append (c ∷ []) (d ∷ t) h = h
ends-append (c ∷ c' ∷ s) (d ∷ t) h = ends-append (c' ∷ s) (d ∷ t) h

ends_hex : (s : Str) → all_of is_hex s ≡ true → 0 < length s → ends_well s ≡ true
unfolding all_of
ends_hex [] h n = absurd (omega arith)
ends_hex (c ∷ []) h n = ground arith
ends_hex (c ∷ d ∷ s) h n = ends_hex (d ∷ s) (ground arith) (omega arith)

starts_hex : (s : Str) → all_of is_hex s ≡ true → 0 < length s → starts_well s ≡ true
unfolding all_of
starts_hex [] h n = absurd (omega arith)
starts_hex (c ∷ s) h n = ground arith

short_id_parts : (s : Str) → is_short_id s ≡ true → (length s ≡ 12) × (all_of is_hex s ≡ true)
unfolding is_short_id
short_id_parts s h = ground arith

-- What stands before the short id in a pod's name.
abbrev front : Container → Str
front co = to_lower (strip_front (squeeze (clean_name (full_name co) ++ b'-' ∷ [])))

get_pod_name_split :
    (co : Container) → is_short_id co.short_id ≡ true → get_pod_name co ≡ front co ++ co.short_id
unfolding get_pod_name
get_pod_name_split co h =
    let (n, hex) = short_id_parts co.short_id h in
    let p = clean_name (full_name co) in
    let q = p ++ b'-' ∷ [] in
    let pos : 0 < length co.short_id = omega arith in
    let step1 : squeeze (p ++ b'-' ∷ co.short_id) ≡ squeeze q ++ co.short_id =
      ap squeeze (sym (append_assoc p (b'-' ∷ []) co.short_id))
      ∙ squeeze-append q co.short_id hex pos in
    ap (λ r. to_lower (strip_front r)) step1
    ∙ ap to_lower (strip_front-append (squeeze q) co.short_id hex pos)
    ∙ to_lower-append (strip_front (squeeze q)) co.short_id
    ∙ ap (λ r. front co ++ r) (to_lower_hex co.short_id hex)

length-front : (co : Container) → length (front co) ≤ 33
length-front co =
    let p = clean_name (full_name co) in
    let q = squeeze (p ++ b'-' ∷ []) in
    omega (
      arith,
      length-to_lower (strip_front q),
      length-strip_front q,
      length-squeeze (p ++ b'-' ∷ []),
      length-append p (b'-' ∷ []),
      (clean_name_bounds (full_name co)).0,
    )

front-is_inner : (co : Container) → all_of is_inner (front co) ≡ true
unfolding all_of
front-is_inner co =
    let p = clean_name (full_name co) in
    let q = p ++ b'-' ∷ [] in
    lower-all_of (strip_front (squeeze q)) (
      strip_front-all_of (squeeze q) (
        squeeze-all_of q
          (append-all_of is_name_byte p (b'-' ∷ []) (clean_name_bounds (full_name co)).1 refl)))

hex-is_inner : (s : Str) → all_of is_hex s ≡ true → all_of is_inner s ≡ true
hex-is_inner s = all_of-weaken is_hex is_inner s (λ c h. ground arith)

-- The name of a pod is a DNS label of at most 45 bytes, whatever the name, the aliases and the
-- name-prefix label of the container are, if the container has a short id of twelve hex digits.
pub get_pod_name-is_dns_label :
    (co : Container)
    → is_short_id co.short_id ≡ true
    → (length (get_pod_name co) ≤ 45) × (is_dns_label (get_pod_name co) ≡ true)
get_pod_name-is_dns_label co h = rw (get_pod_name_split co h) (
    ground (
      arith,
      short_id_parts co.short_id h,
      length-append (front co) co.short_id,
      length-front co,
      append-all_of is_inner (front co) co.short_id,
      front-is_inner co,
      hex-is_inner co.short_id,
      ends-append (front co) co.short_id,
      ends_hex co.short_id,
      starts-strip_front (squeeze (clean_name (full_name co) ++ b'-' ∷ [])) co.short_id,
      starts_hex co.short_id,
    ))

-- Containers with different short ids have different pod names, if the short ids are twelve hex
-- digits.
pub get_pod_name_injective :
    (co co' : Container)
    → is_short_id co.short_id ≡ true
    → is_short_id co'.short_id ≡ true
    → get_pod_name co ≡ get_pod_name co'
    → co.short_id ≡ co'.short_id
get_pod_name_injective co co' h h' e =
    let same : front co ++ co.short_id ≡ front co' ++ co'.short_id =
      sym (get_pod_name_split co h) ∙ e ∙ get_pod_name_split co' h' in
    let n : length (front co) ≡ length (front co') = omega (
      arith,
      ap length same,
      length-append (front co) co.short_id,
      length-append (front co') co'.short_id,
      (short_id_parts co.short_id h).0,
      (short_id_parts co'.short_id h').0,
    ) in
    sym (drop-append_self (front co) co.short_id)
    ∙ ap₂ drop n same
    ∙ drop-append_self (front co') co'.short_id
