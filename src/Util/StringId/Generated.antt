-- ===== src/Util/StringId/Generated.antt =====
-- What `GenerateRandomID`, `TruncateID` and `IsShortID` promise one another.
use kubedock.Base.{
  ℕ, zero, suc, ◌+◌, ◌*◌, ◌/◌, ◌%◌, ◌≤◌, ◌<◌, ◌≡◌, refl, Bool, true, false, List, [], ◌∷◌, Option,
  none, some, length, take, All, all_of, ok, arith, Bool-cases, inl, inr, Option-cases, length-take,
  Str,
}
use kubedock.Base.Text.{cut}
use kubedock.Util.StringId.{
  is_hex, is_short_id, after_colon, truncate_id, hex_digit, hex_encode, is_numeric, generated,
  generate_random_id, validate_id,
}

-- What `rand.Read` leaves in the buffer of the loop: 32 bytes.
abbrev pub IsBlock : List ℕ → Type 0
IsBlock b = (length b ≡ 32) × All (λ c. c < 256) b

-- A truncated id has at most twelve bytes.
pub length-truncate_id : (s : Str) → length (truncate_id s) ≤ 12
unfolding truncate_id
length-truncate_id s = ground (arith, length-take 12 (after_colon s))

hex_digit-is_hex : (d : ℕ) → d < 16 → is_hex (hex_digit d) ≡ true
unfolding hex_digit
hex_digit-is_hex d h = ground arith

length-hex_encode : (b : List ℕ) → length (hex_encode b) ≡ 2 * length b
unfolding hex_encode
length-hex_encode [] = refl
length-hex_encode (c ∷ b) = omega (arith, length-hex_encode b)

hex_encode-is_hex : (b : List ℕ) → All (λ c. c < 256) b → all_of is_hex (hex_encode b) ≡ true
unfolding hex_encode all_of
hex_encode-is_hex [] h = refl
hex_encode-is_hex (c ∷ b) h =
    ground (arith, hex_digit-is_hex (c / 16), hex_digit-is_hex (c % 16), hex_encode-is_hex b h.1)

cut_hex : (s : Str) → all_of is_hex s ≡ true → cut b':' s ≡ none
unfolding cut all_of
cut_hex [] h = refl
cut_hex (c ∷ s) h = ground (arith, cut_hex s)

take-all_of : (p : ℕ → Bool) (n : ℕ) (s : Str) → all_of p s ≡ true → all_of p (take n s) ≡ true
unfolding all_of
take-all_of p zero s h = refl
take-all_of p (suc n) [] h = refl
take-all_of p (suc n) (c ∷ s) h = ground (arith, take-all_of p n s)

truncate_hex :
    (s : Str) → all_of is_hex s ≡ true → length s ≡ 64 → is_short_id (truncate_id s) ≡ true
unfolding truncate_id is_short_id
truncate_hex s h n = ground (arith, cut_hex s h, take-all_of is_hex 12 s h, length-take 12 s)

hex_encode_valid :
    (b : List ℕ)
    → IsBlock b
    → (validate_id (hex_encode b) ≡ ok tt) × (is_short_id (truncate_id (hex_encode b)) ≡ true)
unfolding validate_id
hex_encode_valid b (n, h) = ground (
  arith,
  length-hex_encode b,
  hex_encode-is_hex b h,
  truncate_hex (hex_encode b) (hex_encode-is_hex b h),
)

-- If the random source gives blocks of 32 bytes, every id that is returned is a valid id, its short
-- form is a short id, and that is no number.
pub generate_random_id_sound :
    (fuel : ℕ) (rand : ℕ → Option (List ℕ)) (k : ℕ) (s : Str)
    → ((n : ℕ) (b : List ℕ) → rand n ≡ some b → IsBlock b)
    → generate_random_id fuel rand k ≡ generated s
    → (validate_id s ≡ ok tt) × (is_short_id (truncate_id s) ≡ true) × (is_numeric s ≡ false)
unfolding generate_random_id
generate_random_id_sound zero rand k s blocks h = cc
generate_random_id_sound (suc fuel) rand k s blocks h = elim (Option-cases (rand k)) [
  | inl failed ↦ absurd (ground arith)
  | inr (b, read) ↦ ground (
    arith,
    hex_encode_valid b (blocks k b read),
    generate_random_id_sound fuel rand (suc k) s blocks,
  )
]

-- The loop returns an id as soon as one of the rounds that the fuel covers draws an id that is not
-- numeric, if no read fails.
pub generate_random_id_returns :
    (fuel : ℕ) (rand : ℕ → Option (List ℕ)) (k j : ℕ) (reads : ℕ → List ℕ)
    → ((n : ℕ) → rand n ≡ some (reads n))
    → k ≤ j
    → j < k + fuel
    → is_numeric (hex_encode (reads j)) ≡ false
    → (s : Str) × (generate_random_id fuel rand k ≡ generated s)
unfolding generate_random_id
generate_random_id_returns zero rand k j reads total h h' numeric = absurd (omega arith)
generate_random_id_returns (suc fuel) rand k j reads total h h' numeric =
    elim (Bool-cases (is_numeric (hex_encode (reads k)))) [
      | inl again ↦
          let differs : suc k ≤ j = k_below again in
          let (s, e) =
            generate_random_id_returns fuel rand (suc k) j reads total differs (omega arith)
              numeric in
          (s, ground (arith, total k))
      | inr done ↦ (hex_encode (reads k), ground (arith, total k))
    ]
  where
    k_below : is_numeric (hex_encode (reads k)) ≡ true → suc k ≤ j
    k_below again = ground arith
