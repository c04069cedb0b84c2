-- ===== src/Backend/Names.antt =====
-- internal/backend/util.go: texts made into keys, values and names that kubernetes takes. The
-- patterns are regular expressions over single bytes; what is not ASCII is in none of their classes.
pub mod Valid
pub mod Keys
pub mod Tests
use kubedock.Base.{
  ℕ, Bool, true, false, ◌||◌, List, [], ◌∷◌, length, take, keep, is_nil, ltb, ◌==◌, if◌then◌else◌,
  Str,
}
use kubedock.Base.Text.{codes, is_alnum}

-- One pattern of replaceValueWithPatterns: ^[^A-Za-z0-9]+, or [^...] anywhere, or [...]*$.
pub data Pattern : Type 0 where
  front : Pattern
  outside : (ℕ → Bool) → Pattern
  back : (ℕ → Bool) → Pattern

unfoldable pub strip_front : Str → Str
strip_front [] = []
strip_front (c ∷ s) = let rest = strip_front s in if is_alnum c then c ∷ s else rest

unfoldable pub cons_unless : (ℕ → Bool) → ℕ → Str → Str
cons_unless p c [] = if p c then [] else c ∷ []
cons_unless p c (d ∷ s) = c ∷ d ∷ s

-- The run of bytes in the class at the end is dropped.
unfoldable pub strip_back : (ℕ → Bool) → Str → Str
unfolding cons_unless
strip_back p [] = []
strip_back p (c ∷ s) = cons_unless p c (strip_back p s)

-- re.ReplaceAllString(v, "")
unfoldable pub replace : Pattern → Str → Str
unfolding strip_front strip_back
replace front v = strip_front v
replace (outside p) v = keep p v
replace (back p) v = strip_back p v

-- if len(v) > n { v = v[:n] }
unfoldable pub cut_at : ℕ → Str → Str
cut_at n v = if ltb n (length v) then take n v else v

-- The loop of replaceValueWithPatterns.
unfoldable pub replace_each : List Pattern → Str → Str
unfolding replace cut_at
replace_each [] v = v
replace_each (pt ∷ pts) v = replace_each pts (cut_at 63 (replace pt v))

unfoldable pub replace_value_with_patterns : Str → Str → List Pattern → Str
unfolding replace_each
replace_value_with_patterns v def pts = let r = replace_each pts v in if is_nil r then def else r

-- [A-Za-z0-9-\./]
abbrev pub is_key_byte : ℕ → Bool
is_key_byte c = is_alnum c || (c == b'-') || (c == b'.') || (c == b'/')

-- [A-Za-z0-9-\.]
abbrev pub is_value_byte : ℕ → Bool
is_value_byte c = is_alnum c || (c == b'-') || (c == b'.')

-- [A-Za-z0-9-]
abbrev pub is_name_byte : ℕ → Bool
is_name_byte c = is_alnum c || (c == b'-')

-- [-_\./]
abbrev pub is_key_end : ℕ → Bool
is_key_end c = (c == b'-') || (c == b'_') || (c == b'.') || (c == b'/')

-- [-_\.]
abbrev pub is_value_end : ℕ → Bool
is_value_end c = (c == b'-') || (c == b'_') || (c == b'.')

unfoldable pub to_kubernetes_key : Str → Str
to_kubernetes_key v =
    replace_value_with_patterns v [] (front ∷ outside is_key_byte ∷ back is_key_end ∷ [])

unfoldable pub to_kubernetes_value : Str → Str
to_kubernetes_value v =
    replace_value_with_patterns v [] (front ∷ outside is_value_byte ∷ back is_value_end ∷ [])

unfoldable pub to_kubernetes_name : Str → Str
to_kubernetes_name v =
    replace_value_with_patterns v (codes "undef")
      (front ∷ outside is_name_byte ∷ back is_value_end ∷ [])
