-- ===== src/Server/Logs/Numbers.antt =====
-- Which numbers of a request for a log are read.
use kubedock.Base.{
  ℕ, suc, ◌^◌, ◌-◌, ◌≡◌, ap, ◌∙◌, inl, inr, [], ◌∷◌, none, some, ltb, if◌then◌else◌, Bool-cases,
  arith, Str,
}
use kubedock.Base.Int.{pos}
use kubedock.Base.Text.{is_digit, scan_digits, parse_digits, within, map_int}
use kubedock.Base.Text.Decimal.{digits, sprint}
use kubedock.Base.Text.Decimal.Parsed.{parse_digits-digits}
use kubedock.Server.Logs.{parse_uint64, parse_unix}

unsigned :
    (n : ℕ) (s : Str)
    → parse_digits s ≡ some n
    → parse_unix s ≡ map_int pos (within (2 ^ 31 - 1) (some n))
unfolding parse_unix parse_digits scan_digits
unsigned n [] h = absurd (ground arith)
unsigned n (c ∷ s) h = elim (Bool-cases (is_digit c)) [
  | inr e ↦ absurd (ground arith)
  | inl e ↦ ground arith
]

-- Of the numbers of seconds and of lines that a client writes in decimal: `since` reads those below
-- 2^31 and `tail` those below 2^32, as they are, and each other number is as if it was not given.
pub parse-sprint :
    (n : ℕ)
    → (parse_unix (sprint (pos n)) ≡ (if ltb n (2 ^ 31) then some (pos n) else none))
      × (parse_uint64 (sprint (pos n)) ≡ (if ltb n (2 ^ 32) then some n else none))
unfolding sprint parse_uint64
parse-sprint n =
    let e = parse_digits-digits (suc n) n (omega arith) in
    (unsigned n (digits (suc n) n) e ∙ ground arith, ap (within (2 ^ 32 - 1)) e ∙ ground arith)
