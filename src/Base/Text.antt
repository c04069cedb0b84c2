-- ===== src/Base/Text.antt =====
-- What the code uses of Go's `strings` and `strconv`, over byte sequences.
pub mod Split
pub mod Decimal
use Prim.Native.Char.{code}
use Prim.Native.String.{String}
use Prim.Native.Nat.{ℕ, ◌+◌, ◌-◌, ◌*◌, ◌^◌}
use mathlib.Core.Path.{◌≡◌, refl}
use mathlib.Core.Bool.{Bool, true, false, ◌&&◌, ◌||◌}
use mathlib.Core.List.{List, [], ◌∷◌, ◌++◌}
use mathlib.Core.Option.{Option, none, some}
use kubedock.Base.Tests.{leb, ◌==◌, if◌then◌else◌}
use kubedock.Base.Eq.{Str}
use kubedock.Base.Int.{ℤ, pos, neg_ℕ}

-- The bytes of an ASCII literal.
unfoldable pub codes : String → Str
codes String.[] = []
codes (String.◌∷◌ c s) = code c ∷ codes s

abbrev pub is_digit : ℕ → Bool
is_digit c = leb b'0' c && leb c b'9'

abbrev pub is_lower : ℕ → Bool
is_lower c = leb b'a' c && leb c b'z'

abbrev pub is_upper : ℕ → Bool
is_upper c = leb b'A' c && leb c b'Z'

-- [A-Za-z0-9]
abbrev pub is_alnum : ℕ → Bool
is_alnum c = is_upper c || is_lower c || is_digit c

-- strings.ToLower on ASCII; other bytes are left alone, where Go also changes letters beyond ASCII,
-- of which it maps U+212A and U+0130 to ASCII letters
unfoldable pub lower_byte : ℕ → ℕ
lower_byte c = if is_upper c then c + 32 else c

unfoldable pub to_lower : Str → Str
unfolding lower_byte
to_lower [] = []
to_lower (c ∷ s) = lower_byte c ∷ to_lower s

unfoldable pub cons_head : ℕ → List Str → List Str
cons_head c [] = (c ∷ []) ∷ []
cons_head c (p ∷ ps) = (c ∷ p) ∷ ps

-- strings.Split(s, sep) for a separator of one byte: at least one part
unfoldable pub split : ℕ → Str → List Str
unfolding cons_head
split sep [] = [] ∷ []
split sep (c ∷ s) = let rest = split sep s in if c == sep then [] ∷ rest else cons_head c rest

-- strings.Cut(s, sep): the parts before and after the first separator, if there is one
unfoldable pub cut : ℕ → Str → Option (Str × Str)
cut sep [] = none
cut sep (c ∷ s) =
    let rest = cut sep s in
    if c == sep then some ([], s) else elim rest [ none ↦ none | some (a, b) ↦ some (c ∷ a, b) ]

-- strings.HasPrefix
unfoldable pub has_prefix : Str → Str → Bool
has_prefix s [] = true
has_prefix [] (c ∷ p) = false
has_prefix (d ∷ s) (c ∷ p) = d == c && has_prefix s p

-- strings.Contains
unfoldable pub contains : Str → Str → Bool
unfolding has_prefix
contains [] p = has_prefix [] p
contains (c ∷ s) p = has_prefix (c ∷ s) p || contains s p

-- strings.TrimPrefix
unfoldable pub without_prefix : Str → Str → Option Str
without_prefix s [] = some s
without_prefix [] (c ∷ p) = none
without_prefix (d ∷ s) (c ∷ p) = let rest = without_prefix s p in if d == c then rest else none

unfoldable pub trim_prefix : Str → Str → Str
unfolding without_prefix
trim_prefix s p = elim (without_prefix s p) [ none ↦ s | some rest ↦ rest ]

-- strings.ReplaceAll(s, old, new) for a byte and a text
unfoldable pub replace_with : ℕ → Str → Str → Str
replace_with old new [] = []
replace_with old new (c ∷ s) = (if c == old then new else c ∷ []) ++ replace_with old new s

-- strings.ReplaceAll(s, old, new) for one byte each
unfoldable pub replace_byte : ℕ → ℕ → Str → Str
replace_byte old new [] = []
replace_byte old new (c ∷ s) = (if c == old then new else c) ∷ replace_byte old new s

-- the decimal digits behind the number read so far; `none` for any other byte
unfoldable pub scan_digits : ℕ → Str → Option ℕ
scan_digits n [] = some n
scan_digits n (c ∷ s) =
    let rest = scan_digits (n * 10 + (c - b'0')) s in if is_digit c then rest else none

-- one or more digits
unfoldable pub parse_digits : Str → Option ℕ
unfolding scan_digits
parse_digits [] = none
parse_digits (c ∷ s) = scan_digits 0 (c ∷ s)

abbrev pub within : ℕ → Option ℕ → Option ℕ
within top none = none
within top (some n) = if leb n top then some n else none

abbrev pub map_int : (ℕ → ℤ) → Option ℕ → Option ℤ
map_int f none = none
map_int f (some n) = some (f n)

-- strconv.ParseInt(s, 10, 64), and strconv.Atoi where `int` has 64 bits: an optional sign, digits,
-- and a value of 64 bits
unfoldable pub parse_int64 : Str → Option ℤ
unfolding parse_digits
parse_int64 [] = none
parse_int64 (c ∷ s) =
    if c == b'-'
    then map_int neg_ℕ (within (2 ^ 63) (parse_digits s))
    else if c == b'+'
    then map_int pos (within (2 ^ 63 - 1) (parse_digits s))
    else map_int pos (within (2 ^ 63 - 1) (parse_digits (c ∷ s)))

parse_int64_range : parse_int64 (codes "9223372036854775808") ≡ none
unfolding codes parse_int64
parse_int64_range = refl
