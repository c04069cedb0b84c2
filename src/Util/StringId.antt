-- ===== src/Util/StringId.antt =====
-- internal/util/stringid/stringid.go: the identifiers of containers, networks, images and execs.
pub mod Generated
pub mod Tests
use kubedock.Base.{
  ℕ, zero, suc, ◌+◌, ◌-◌, ◌/◌, ◌%◌, Bool, true, false, ◌&&◌, ◌||◌, List, [], ◌∷◌, Option, none,
  some, length, take, all_of, ltb, leb, ◌==◌, if◌then◌else◌, Result, ok, err, Str,
}
use kubedock.Base.Text.{is_digit, cut, parse_int64}

abbrev pub short_len : ℕ
short_len = 12

-- [a-f0-9]
abbrev pub is_hex : ℕ → Bool
is_hex c = (leb b'a' c && leb c b'f') || is_digit c

-- the pattern ^[a-f0-9]{12}$
unfoldable pub is_short_id : Str → Bool
is_short_id id = length id == 12 && all_of is_hex id

-- the part behind the first ':', where there is one
unfoldable pub after_colon : Str → Str
after_colon id = elim (cut b':' id) [ none ↦ id | some (a, b) ↦ b ]

unfoldable pub truncate_id : Str → Str
unfolding after_colon cut
truncate_id id =
    let rest = after_colon id in if ltb short_len (length rest) then take short_len rest else rest

-- One digit of encoding/hex.
unfoldable pub hex_digit : ℕ → ℕ
hex_digit d = if ltb d 10 then b'0' + d else b'a' + (d - 10)

-- hex.EncodeToString
unfoldable pub hex_encode : List ℕ → Str
unfolding hex_digit
hex_encode [] = []
hex_encode (b ∷ bs) = hex_digit (b / 16) ∷ hex_digit (b % 16) ∷ hex_encode bs

-- strconv.ParseInt of the truncated id succeeds
unfoldable pub is_numeric : Str → Bool
is_numeric id = elim (parse_int64 (truncate_id id)) [ none ↦ false | some n ↦ true ]

-- What a call of `GenerateRandomID` comes to.
pub data Outcome : Type 0 where
  generated : Str → Outcome
  panicked : Outcome
  still_looping : Outcome

-- `rand k` is what the k-th `rand.Read` of the loop leaves in the buffer, `none` for an error. The
-- fuel bounds the rounds.
unfoldable pub generate_random_id : ℕ → (ℕ → Option (List ℕ)) → ℕ → Outcome
generate_random_id zero rand k = still_looping
generate_random_id (suc fuel) rand k =
    let again = generate_random_id fuel rand (suc k) in
    elim (rand k) [
      | none ↦ panicked
      | some b ↦ let text = hex_encode b in if is_numeric text then again else generated text
    ]

-- the pattern ^[a-f0-9]{64}$; the error carries the id that its message quotes
unfoldable pub validate_id : Str → Result Str (Unit {0})
validate_id id = if length id == 64 && all_of is_hex id then ok tt else err id
