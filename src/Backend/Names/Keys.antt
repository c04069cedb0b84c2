-- ===== src/Backend/Names/Keys.antt =====
-- Which keys of the client's labels become keys that kubernetes takes.
use kubedock.Base.{
  ℕ, suc, ◌≡◌, refl, sym, subst, Bool, true, false, ◌&&◌, ◌||◌, not, [], ◌∷◌, length, take, keep,
  all_of, any_of, is_nil, leb, ◌==◌, if◌then◌else◌, arith, Str, &&_parts,
}
use kubedock.Base.Text.{split, is_alnum, is_digit, is_lower}
use kubedock.Base.Text.Split.{lacks, split-lacks}
use kubedock.Backend.Names.{
  front, outside, back, strip_front, cons_unless, strip_back, replace, cut_at, replace_each,
  replace_value_with_patterns, is_key_byte, is_value_byte, is_key_end, to_kubernetes_key,
}
use kubedock.Backend.Names.Valid.{
  starts_alnum, ends_alnum, is_label_text, cut_at-all_of, strip_back-all_of,
  to_kubernetes-is_label_text,
}

-- [-A-Za-z0-9_.]
abbrev pub is_segment_byte : ℕ → Bool
is_segment_byte c = is_alnum c || (c == b'-') || (c == b'_') || (c == b'.')

-- What kubernetes takes as the name of a label, and as one part of the DNS name before it.
abbrev pub is_segment : Str → Bool
is_segment s = not (is_nil s) && is_label_text is_segment_byte s

abbrev pub is_dns_part : Str → Bool
is_dns_part s =
    not (is_nil s)
    && all_of (λ c. is_lower c || is_digit c || (c == b'-')) s
    && starts_alnum s
    && ends_alnum s

-- The key of a label: a name of 1 to 63 bytes, or a DNS name of at most 253, a slash and a name.
unfoldable pub is_key : Str → Bool
is_key k = elim (split b'/' k) [
  | [] ↦ false
  | name ∷ [] ↦ is_segment name
  | prefix ∷ name ∷ [] ↦
      leb (length prefix) 253 && all_of is_dns_part (split b'.' prefix) && is_segment name
  | prefix ∷ name ∷ more ∷ rest ↦ false
]

-- A key with a letter or a digit, and without a slash.
unfoldable pub is_plain : Str → Bool
is_plain k = lacks b'/' k && any_of is_alnum k

strip_front-all_of : (p : ℕ → Bool) (s : Str) → all_of p s ≡ true → all_of p (strip_front s) ≡ true
unfolding strip_front all_of
strip_front-all_of p [] h = refl
strip_front-all_of p (c ∷ s) h = ground (arith, strip_front-all_of p s)

keep-keeps : (p q : ℕ → Bool) (s : Str) → all_of p s ≡ true → all_of p (keep q s) ≡ true
unfolding keep all_of
keep-keeps p q [] h = refl
keep-keeps p q (c ∷ s) h = ground (arith, keep-keeps p q s)

leads : Str → Bool
leads [] = false
leads (c ∷ s) = is_alnum c

leads-strip_front : (s : Str) → any_of is_alnum s ≡ true → leads (strip_front s) ≡ true
unfolding strip_front any_of leads
leads-strip_front [] h = absurd (ground arith)
leads-strip_front (c ∷ s) h = ground (arith, leads-strip_front s)

leads-take : (n : ℕ) (s : Str) → leads s ≡ true → leads (take (suc n) s) ≡ true
unfolding leads
leads-take n [] h = h
leads-take n (c ∷ s) h = h

leads-cut_at : (s : Str) → leads s ≡ true → leads (cut_at 63 s) ≡ true
unfolding cut_at
leads-cut_at s h = ground (arith, leads-take 62 s)

key_byte : (c : ℕ) → is_alnum c ≡ true → (is_key_byte c ≡ true) × (is_key_end c ≡ false)
key_byte c h = (ground arith, ground arith)

leads-keep : (s : Str) → leads s ≡ true → leads (keep is_key_byte s) ≡ true
unfolding leads keep
leads-keep [] h = h
leads-keep (c ∷ s) h = rw ((key_byte c h).0) h

leads-cons_unless :
    (c : ℕ) (r : Str) → is_alnum c ≡ true → leads (cons_unless is_key_end c r) ≡ true
unfolding leads cons_unless
leads-cons_unless c [] h = rw ((key_byte c h).1) h
leads-cons_unless c (d ∷ r) h = h

leads-strip_back : (s : Str) → leads s ≡ true → leads (strip_back is_key_end s) ≡ true
unfolding strip_back
leads-strip_back [] h = h
leads-strip_back (c ∷ s) h = leads-cons_unless c (strip_back is_key_end s) (unfold leads in h)

leads_some : (s : Str) → leads s ≡ true → is_nil s ≡ false
unfolding leads
leads_some [] h = absurd (ground arith)
leads_some (c ∷ s) h = refl

-- what the three patterns leave of a plain key
three_left :
    (k : Str)
    → is_plain k ≡ true
    → let r = replace_each (front ∷ outside is_key_byte ∷ back is_key_end ∷ []) k in
      (lacks b'/' r ≡ true) × (leads r ≡ true)
unfolding replace_each replace is_plain
three_left k h =
    let p : ℕ → Bool = λ c. not (c == b'/') in
    let (clean, some_alnum) = &&_parts (lacks b'/' k) (any_of is_alnum k) h in
    let a = cut_at 63 (strip_front k) in
    let b = cut_at 63 (keep is_key_byte a) in
    let all_a = cut_at-all_of p 63 (strip_front k) (strip_front-all_of p k clean) in
    let all_b = cut_at-all_of p 63 (keep is_key_byte a) (keep-keeps p is_key_byte a all_a) in
    let lead_a = leads-cut_at (strip_front k) (leads-strip_front k some_alnum) in
    let lead_b = leads-cut_at (keep is_key_byte a) (leads-keep a lead_a) in
    (
      cut_at-all_of p 63 (strip_back is_key_end b) (strip_back-all_of p is_key_end b all_b),
      leads-cut_at (strip_back is_key_end b) (leads-strip_back b lead_b),
    )

same_unless_nil : (r : Str) → (if is_nil r then [] else r) ≡ r
same_unless_nil [] = refl
same_unless_nil (c ∷ r) = refl

segment_bytes :
    (s : Str) → all_of is_key_byte s ≡ true → lacks b'/' s ≡ true → all_of is_segment_byte s ≡ true
unfolding all_of
segment_bytes [] h l = refl
segment_bytes (c ∷ s) h l = ground (arith, segment_bytes s)

segment_text :
    (s : Str)
    → is_label_text is_key_byte s ≡ true
    → lacks b'/' s ≡ true
    → is_nil s ≡ false
    → is_segment s ≡ true
segment_text s h l n = ground (arith, segment_bytes s)

segment-is_key : (s : Str) → lacks b'/' s ≡ true → is_segment s ≡ true → is_key s ≡ true
unfolding is_key
segment-is_key s l h = rw (is_key, split-lacks b'/' s l) h

pub plain-is_key : (k : Str) → is_plain k ≡ true → is_key (to_kubernetes_key k) ≡ true
unfolding to_kubernetes_key replace_value_with_patterns
plain-is_key k h =
    let r = replace_each (front ∷ outside is_key_byte ∷ back is_key_end ∷ []) k in
    let (l, lead) = three_left k h in
    let text =
      subst (λ s. is_label_text is_key_byte s ≡ true) (same_unless_nil r)
        ((to_kubernetes-is_label_text k).0) in
    subst (λ s. is_key s ≡ true) (sym (same_unless_nil r))
      (segment-is_key r l (segment_text r text l (leads_some r lead)))

value_bytes : (s : Str) → all_of is_value_byte s ≡ true → all_of is_segment_byte s ≡ true
unfolding all_of
value_bytes [] h = refl
value_bytes (c ∷ s) h = ground (arith, value_bytes s)

pub value_text :
    (s : Str) → is_label_text is_value_byte s ≡ true → is_label_text is_segment_byte s ≡ true
value_text s h = ground (arith, value_bytes s)
