-- ===== src/Base/Text/Decimal/Parsed.antt =====
-- What `fmt` prints of an integer is what `strconv` reads.
use Prim.Native.Nat.{ℕ, zero, suc, ◌+◌, ◌-◌, ◌*◌, ◌/◌, ◌%◌, ◌^◌, ◌<◌}
use mathlib.Core.Path.{◌≡◌, refl, subst, ◌∙◌}
use mathlib.Core.Logic.{inl, inr}
use mathlib.Core.Bool.{Bool, true, false}
use mathlib.Core.List.{[], ◌∷◌, ◌++◌}
use mathlib.Core.Option.{some}
use native.Mathlib.Omega.{arith}
use kubedock.Base.Tests.{ltb, leb, Bool-cases}
use kubedock.Base.Eq.{Str}
use kubedock.Base.Int.{ℤ, pos, negsuc, neg_ℕ}
use kubedock.Base.Text.{is_digit, scan_digits, parse_digits, within, map_int, parse_int64}
use kubedock.Base.Text.Decimal.{digits, sprint}

-- one more digit behind a number that was read
scan_digits-last :
    (m k d : ℕ) (s : Str)
    → d < 10
    → scan_digits m s ≡ some k
    → scan_digits m (s ++ (48 + d) ∷ []) ≡ some (k * 10 + d)
unfolding scan_digits
scan_digits-last m k d [] small h = ground arith
scan_digits-last m k d (c ∷ s) small h =
    ground (arith, scan_digits-last (m * 10 + (c - b'0')) k d s small)

scan_digits-digits : (fuel n : ℕ) → n < fuel → scan_digits 0 (digits fuel n) ≡ some n
unfolding scan_digits digits
scan_digits-digits zero n enough = absurd (ground arith)
scan_digits-digits (suc fuel) n enough = elim (Bool-cases (ltb n 10)) [
  | inl e ↦ ground arith
  | inr e ↦ rw e (
      scan_digits-last 0 (n / 10) (n % 10) (digits fuel (n / 10)) (ground arith)
        (scan_digits-digits fuel (n / 10) (ground arith))
      ∙ ground arith)
]

parse_digits-last : (c : ℕ) (s : Str) → parse_digits (s ++ c ∷ []) ≡ scan_digits 0 (s ++ c ∷ [])
unfolding parse_digits
parse_digits-last c [] = refl
parse_digits-last c (d ∷ s) = refl

small_digits : (fuel n : ℕ) → ltb n 10 ≡ true → parse_digits (digits (suc fuel) n) ≡ some n
unfolding digits parse_digits scan_digits
small_digits fuel n e = ground arith

large_digits :
    (fuel n : ℕ)
    → ltb n 10 ≡ false
    → digits (suc fuel) n ≡ digits fuel (n / 10) ++ (48 + n % 10) ∷ []
unfolding digits
large_digits fuel n e = rw e refl

pub parse_digits-digits : (fuel n : ℕ) → n < fuel → parse_digits (digits fuel n) ≡ some n
parse_digits-digits zero n enough = absurd (ground arith)
parse_digits-digits (suc fuel) n enough = elim (Bool-cases (ltb n 10)) [
  | inl e ↦ small_digits fuel n e
  | inr e ↦ rw (large_digits fuel n e) (
      parse_digits-last (48 + n % 10) (digits fuel (n / 10))
      ∙ subst (λ s. scan_digits 0 s ≡ some n) (large_digits fuel n e)
          (scan_digits-digits (suc fuel) n enough))
]

-- a text that starts with a digit has no sign
pub parse_int64-digits :
    (n : ℕ) (s : Str)
    → parse_digits s ≡ some n
    → parse_int64 s ≡ map_int pos (within (2 ^ 63 - 1) (some n))
unfolding parse_int64 parse_digits scan_digits
parse_int64-digits n [] h = absurd (ground arith)
parse_int64-digits n (c ∷ s) h = elim (Bool-cases (is_digit c)) [
  | inr e ↦ absurd (ground arith)
  | inl e ↦ ground arith
]

-- The integers that strconv.ParseInt of 64 bits reads.
unfoldable pub is_int64 : ℤ → Bool
is_int64 (pos n) = leb n (2 ^ 63 - 1)
is_int64 (negsuc n) = leb (suc n) (2 ^ 63)

negative :
    (n : ℕ) (s : Str)
    → parse_digits s ≡ some n
    → leb n (2 ^ 63) ≡ true
    → parse_int64 (b'-' ∷ s) ≡ some (neg_ℕ n)
unfolding parse_int64
negative n s h small = rw (h, small) refl

positive :
    (n : ℕ) → leb n (2 ^ 63 - 1) ≡ true → map_int pos (within (2 ^ 63 - 1) (some n)) ≡ some (pos n)
positive n small = rw small refl

pub parse_int64-sprint : (i : ℤ) → is_int64 i ≡ true → parse_int64 (sprint i) ≡ some i
unfolding sprint is_int64
parse_int64-sprint (pos n) small =
    parse_int64-digits n (digits (suc n) n) (parse_digits-digits (suc n) n (ground arith))
    ∙ positive n small
parse_int64-sprint (negsuc n) small =
    let read = parse_digits-digits (suc (suc n)) (suc n) (ground arith) in
    negative (suc n) (digits (suc (suc n)) (suc n)) read small
