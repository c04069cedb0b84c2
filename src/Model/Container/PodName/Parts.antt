-- ===== src/Model/Container/PodName/Parts.antt =====
-- The steps of GetPodName, one by one.
use kubedock.Base.{
  ℕ, zero, suc, ◌≤◌, ◌<◌, ◌≡◌, refl, ap, Bool, true, false, [], ◌∷◌, ◌++◌, length, take, keep,
  all_of, ◌==◌, arith, length-take, &&_parts, Str,
}
use kubedock.Base.Text.{lower_byte, to_lower, replace_byte}
use kubedock.Util.StringId.{is_hex}
use kubedock.Model.Container.PodName.{is_name_byte, squeeze, strip_front, clean_name}

pub keep-all_of : (p : ℕ → Bool) (s : Str) → all_of p (keep p s) ≡ true
unfolding keep all_of
keep-all_of p [] = refl
keep-all_of p (c ∷ s) = ground (arith, keep-all_of p s)

pub take-all_of : (p : ℕ → Bool) (n : ℕ) (s : Str) → all_of p s ≡ true → all_of p (take n s) ≡ true
unfolding all_of
take-all_of p zero s h = refl
take-all_of p (suc n) [] h = refl
take-all_of p (suc n) (c ∷ s) h = ground (arith, take-all_of p n s)

pub append-all_of :
    (p : ℕ → Bool) (s t : Str) → all_of p s ≡ true → all_of p t ≡ true → all_of p (s ++ t) ≡ true
unfolding all_of
append-all_of p [] t h k = k
append-all_of p (c ∷ s) t h k = ground (arith, append-all_of p s t)

pub all_of-weaken :
    (p q : ℕ → Bool) (s : Str)
    → ((c : ℕ) → p c ≡ true → q c ≡ true)
    → all_of p s ≡ true
    → all_of q s ≡ true
unfolding all_of
all_of-weaken p q [] w h = refl
all_of-weaken p q (c ∷ s) w h = ground (arith, w c, all_of-weaken p q s w)

pub clean_name_bounds :
    (name : Str) → (length (clean_name name) ≤ 32) × (all_of is_name_byte (clean_name name) ≡ true)
unfolding clean_name
clean_name_bounds name =
    let clean = keep is_name_byte (replace_byte b'_' b'-' name) in
    let all = keep-all_of is_name_byte (replace_byte b'_' b'-' name) in
    ground (arith, length-take 32 clean, take-all_of is_name_byte 32 clean all)

pub squeeze-all_of :
    (s : Str) → all_of is_name_byte s ≡ true → all_of is_name_byte (squeeze s) ≡ true
unfolding squeeze all_of
squeeze-all_of [] h = refl
squeeze-all_of (c ∷ []) h = h
squeeze-all_of (c ∷ d ∷ s) h = ground (arith, squeeze-all_of s, squeeze-all_of (d ∷ s))

pub length-squeeze : (s : Str) → length (squeeze s) ≤ length s
unfolding squeeze
length-squeeze [] = omega arith
length-squeeze (c ∷ []) = omega arith
length-squeeze (c ∷ d ∷ s) = ground (arith, length-squeeze s, length-squeeze (d ∷ s))

hex_no_dash : (c : ℕ) → is_hex c ≡ true → (c == b'-') ≡ false
hex_no_dash c h = ground arith

pub squeeze_hex : (s : Str) → all_of is_hex s ≡ true → squeeze s ≡ s
unfolding squeeze all_of
squeeze_hex [] h = refl
squeeze_hex (c ∷ []) h = refl
squeeze_hex (c ∷ d ∷ s) h =
    let (hc, hs) = &&_parts (is_hex c) (all_of is_hex (d ∷ s)) h in
    rw (hex_no_dash c hc) (ap (λ r. c ∷ r) (squeeze_hex (d ∷ s) hs))

pub squeeze-append :
    (s t : Str) → all_of is_hex t ≡ true → 0 < length t → squeeze (s ++ t) ≡ squeeze s ++ t
unfolding squeeze all_of
squeeze-append s [] h n = absurd (omega arith)
squeeze-append [] (d ∷ t) h n = squeeze_hex (d ∷ t) h
squeeze-append (c ∷ []) (d ∷ t) h n = ground (arith, squeeze_hex (d ∷ t) h)
squeeze-append (c ∷ c' ∷ s) (d ∷ t) h n =
    ground (arith, squeeze-append s (d ∷ t) h n, squeeze-append (c' ∷ s) (d ∷ t) h n)

pub strip_front-append :
    (s t : Str) → all_of is_hex t ≡ true → 0 < length t → strip_front (s ++ t) ≡ strip_front s ++ t
unfolding strip_front all_of
strip_front-append s [] h n = absurd (omega arith)
strip_front-append [] (d ∷ t) h n = ground arith
strip_front-append (c ∷ s) (d ∷ t) h n = ground (arith, strip_front-append s (d ∷ t) h n)

pub strip_front-all_of :
    (s : Str) → all_of is_name_byte s ≡ true → all_of is_name_byte (strip_front s) ≡ true
unfolding strip_front all_of
strip_front-all_of [] h = refl
strip_front-all_of (c ∷ s) h = ground (arith, strip_front-all_of s)

pub length-strip_front : (s : Str) → length (strip_front s) ≤ length s
unfolding strip_front
length-strip_front [] = omega arith
length-strip_front (c ∷ s) = ground (arith, length-strip_front s)

pub length-to_lower : (s : Str) → length (to_lower s) ≡ length s
unfolding to_lower
length-to_lower [] = refl
length-to_lower (c ∷ s) = ap suc (length-to_lower s)

pub to_lower-append : (s t : Str) → to_lower (s ++ t) ≡ to_lower s ++ to_lower t
unfolding to_lower
to_lower-append [] t = refl
to_lower-append (c ∷ s) t = ap (λ r. lower_byte c ∷ r) (to_lower-append s t)

pub to_lower_hex : (s : Str) → all_of is_hex s ≡ true → to_lower s ≡ s
unfolding to_lower all_of
to_lower_hex [] h = refl
to_lower_hex (c ∷ s) h = ground (arith, to_lower_hex s)
