-- ===== src/Backend/Names/Valid.antt =====
-- The length and the class of what the conversions to a key, a value and a volume name return.
use kubedock.Base.{
  ℕ, zero, suc, ◌≤◌, ◌≡◌, refl, Bool, true, false, ◌&&◌, [], ◌∷◌, length, take, keep, all_of,
  is_nil, leb, if◌then◌else◌, arith, length-take, Str, &&_parts,
}
use kubedock.Base.Text.{codes, is_alnum}
use kubedock.Backend.Names.{
  front, outside, back, strip_front, cons_unless, strip_back, replace, cut_at, replace_each,
  replace_value_with_patterns, is_key_byte, is_value_byte, is_name_byte, is_key_end, is_value_end,
  to_kubernetes_key, to_kubernetes_value, to_kubernetes_name,
}

abbrev pub starts_alnum : Str → Bool
starts_alnum [] = true
starts_alnum (c ∷ s) = is_alnum c

abbrev pub ends_alnum : Str → Bool
ends_alnum [] = true
ends_alnum (c ∷ []) = is_alnum c
ends_alnum (c ∷ d ∷ s) = ends_alnum (d ∷ s)

-- At most 63 bytes of a class, with a letter or a digit at either end where there is one.
abbrev pub is_label_text : (ℕ → Bool) → Str → Bool
is_label_text class s = leb (length s) 63 && all_of class s && starts_alnum s && ends_alnum s

-- The patterns of one conversion fit together: a byte of the class that is no letter or digit is
-- one that is stripped from the end.
Fits : (ℕ → Bool) → (ℕ → Bool) → Type 0
Fits class end =
    (c : ℕ)
    → (is_alnum c ≡ true → class c ≡ true)
      × (class c ≡ true → end c ≡ false → is_alnum c ≡ true)
      × (is_alnum c ≡ true → end c ≡ false)

starts-strip_front : (s : Str) → starts_alnum (strip_front s) ≡ true
unfolding strip_front
starts-strip_front [] = refl
starts-strip_front (c ∷ s) = ground (arith, starts-strip_front s)

starts-take : (n : ℕ) (s : Str) → starts_alnum s ≡ true → starts_alnum (take n s) ≡ true
starts-take zero s h = refl
starts-take (suc n) [] h = refl
starts-take (suc n) (c ∷ s) h = h

starts-cut_at : (n : ℕ) (s : Str) → starts_alnum s ≡ true → starts_alnum (cut_at n s) ≡ true
unfolding cut_at
starts-cut_at n s h = ground (arith, starts-take n s h)

length-cut_at : (n : ℕ) (s : Str) → length (cut_at n s) ≤ n
unfolding cut_at
length-cut_at n s = ground (arith, length-take n s)

pub take-all_of : (p : ℕ → Bool) (n : ℕ) (s : Str) → all_of p s ≡ true → all_of p (take n s) ≡ true
unfolding all_of
take-all_of p zero s h = refl
take-all_of p (suc n) [] h = refl
take-all_of p (suc n) (c ∷ s) h = ground (arith, take-all_of p n s)

pub cut_at-all_of :
    (p : ℕ → Bool) (n : ℕ) (s : Str) → all_of p s ≡ true → all_of p (cut_at n s) ≡ true
unfolding cut_at
cut_at-all_of p n s h = ground (arith, take-all_of p n s h)

-- A text that fits is not cut.
cut_at_short : (n : ℕ) (s : Str) → length s ≤ n → cut_at n s ≡ s
unfolding cut_at
cut_at_short n s h = ground arith

keep-all_of : (p : ℕ → Bool) (s : Str) → all_of p (keep p s) ≡ true
unfolding keep all_of
keep-all_of p [] = refl
keep-all_of p (c ∷ s) = ground (arith, keep-all_of p s)

starts-keep :
    (p : ℕ → Bool) (s : Str)
    → ((c : ℕ) → is_alnum c ≡ true → p c ≡ true)
    → starts_alnum s ≡ true
    → starts_alnum (keep p s) ≡ true
unfolding keep
starts-keep p [] w h = refl
starts-keep p (c ∷ s) w h = rw (w c h) h

length-strip_back : (e : ℕ → Bool) (s : Str) → length (strip_back e s) ≤ length s
unfolding strip_back
length-strip_back e [] = omega arith
length-strip_back e (c ∷ s) = go (strip_back e s) (length-strip_back e s)
  where
    go : (r : Str) → length r ≤ length s → length (cons_unless e c r) ≤ suc (length s)
    go [] h = ground arith
    go (d ∷ r) h = omega arith

pub strip_back-all_of :
    (p e : ℕ → Bool) (s : Str) → all_of p s ≡ true → all_of p (strip_back e s) ≡ true
unfolding strip_back all_of
strip_back-all_of p e [] h = refl
strip_back-all_of p e (c ∷ s) h =
    go (strip_back e s) (&&_parts (p c) (all_of p s) h).0
      (strip_back-all_of p e s (&&_parts (p c) (all_of p s) h).1)
  where
    go : (r : Str) → p c ≡ true → all_of p r ≡ true → all_of p (cons_unless e c r) ≡ true
    go [] h k = ground arith
    go (d ∷ r) h k = ground arith

ends-strip_back :
    (p e : ℕ → Bool) (s : Str) → Fits p e → all_of p s ≡ true → ends_alnum (strip_back e s) ≡ true
unfolding strip_back all_of
ends-strip_back p e [] f h = refl
ends-strip_back p e (c ∷ s) f h =
    let (hc, hs) = &&_parts (p c) (all_of p s) h in
    go (strip_back e s) hc (ends-strip_back p e s f hs)
  where
    go : (r : Str) → p c ≡ true → ends_alnum r ≡ true → ends_alnum (cons_unless e c r) ≡ true
    go [] h k = unfold Fits in ground (arith, f c)
    go (d ∷ r) h k = k

starts-strip_back :
    (p e : ℕ → Bool) (s : Str)
    → Fits p e
    → starts_alnum s ≡ true
    → starts_alnum (strip_back e s) ≡ true
unfolding strip_back
starts-strip_back p e [] f h = refl
starts-strip_back p e (c ∷ s) f h = go (strip_back e s)
  where
    go : (r : Str) → starts_alnum (cons_unless e c r) ≡ true
    go [] = unfold Fits in ground (arith, f c)
    go (d ∷ r) = h

label_text :
    (p : ℕ → Bool) (r : Str)
    → length r ≤ 63
    → all_of p r ≡ true
    → starts_alnum r ≡ true
    → ends_alnum r ≡ true
    → is_label_text p r ≡ true
label_text p r n a s e = let short : leb (length r) 63 ≡ true = ground arith in rw (short, a, s, e)

alnum_in_class : (p e : ℕ → Bool) → Fits p e → (c : ℕ) → is_alnum c ≡ true → p c ≡ true
unfolding Fits
alnum_in_class p e f c = (f c).0

-- The three patterns of a conversion, for a class and an end that fit together.
three_patterns :
    (p e : ℕ → Bool) (v : Str)
    → Fits p e
    → is_label_text p (replace_each (front ∷ outside p ∷ back e ∷ []) v) ≡ true
unfolding replace_each replace
three_patterns p e v f =
    let a = cut_at 63 (strip_front v) in
    let b = cut_at 63 (keep p a) in
    let r = strip_back e b in
    let sa = starts-cut_at 63 (strip_front v) (starts-strip_front v) in
    let sb = starts-cut_at 63 (keep p a) (starts-keep p a (λ c. alnum_in_class p e f c) sa) in
    let all = cut_at-all_of p 63 (keep p a) (keep-all_of p a) in
    let n : length r ≤ 63 = omega (arith, length-strip_back e b, length-cut_at 63 (keep p a)) in
    rw (cut_at_short 63 r n) (
      label_text p r n (strip_back-all_of p e b all) (starts-strip_back p e b f sb)
        (ends-strip_back p e b f all))

key-Fits : Fits is_key_byte is_key_end
unfolding Fits
key-Fits c = (λ h. ground arith, λ h k. ground arith, λ h. ground arith)

value-Fits : Fits is_value_byte is_value_end
unfolding Fits
value-Fits c = (λ h. ground arith, λ h k. ground arith, λ h. ground arith)

name-Fits : Fits is_name_byte is_value_end
unfolding Fits
name-Fits c = (λ h. ground arith, λ h k. ground arith, λ h. ground arith)

undef_is_label_text : is_label_text is_name_byte (codes "undef") ≡ true
unfolding codes all_of
undef_is_label_text = refl

-- Whatever the text, the three conversions return at most 63 bytes of their class, beginning and
-- ending with a letter or a digit; a key and a value may be empty, a name never is.
pub to_kubernetes-is_label_text :
    (v : Str)
    → (is_label_text is_key_byte (to_kubernetes_key v) ≡ true)
      × (is_label_text is_value_byte (to_kubernetes_value v) ≡ true)
      × (is_label_text is_name_byte (to_kubernetes_name v) ≡ true)
      × (is_nil (to_kubernetes_name v) ≡ false)
unfolding to_kubernetes_key to_kubernetes_value to_kubernetes_name replace_value_with_patterns
to_kubernetes-is_label_text v = (
  key (replace_each (front ∷ outside is_key_byte ∷ back is_key_end ∷ []) v)
      (three_patterns is_key_byte is_key_end v key-Fits),
  value (replace_each (front ∷ outside is_value_byte ∷ back is_value_end ∷ []) v)
      (three_patterns is_value_byte is_value_end v value-Fits),
  name (replace_each (front ∷ outside is_name_byte ∷ back is_value_end ∷ []) v)
      (three_patterns is_name_byte is_value_end v name-Fits),
  not_nil (replace_each (front ∷ outside is_name_byte ∷ back is_value_end ∷ []) v),
)
  where
    key :
        (r : Str)
        → is_label_text is_key_byte r ≡ true
        → is_label_text is_key_byte (if is_nil r then [] else r) ≡ true
    key [] h = h
    key (c ∷ r) h = h

    value :
        (r : Str)
        → is_label_text is_value_byte r ≡ true
        → is_label_text is_value_byte (if is_nil r then [] else r) ≡ true
    value [] h = h
    value (c ∷ r) h = h

    name :
        (r : Str)
        → is_label_text is_name_byte r ≡ true
        → is_label_text is_name_byte (if is_nil r then codes "undef" else r) ≡ true
    name [] h = undef_is_label_text
    name (c ∷ r) h = h

    not_nil : (r : Str) → is_nil (if is_nil r then codes "undef" else r) ≡ false
    not_nil [] = unfold codes in refl
    not_nil (c ∷ r) = refl
