-- ===== src/Util/StringId/Tests.antt =====
-- Identifiers, run on concrete input.
use kubedock.Base.{
  ℕ, ◌≡◌, refl, false, List, Option, none, some, subst, zero, suc, replicate, arith,
}
use kubedock.Base.Text.{codes, parse_int64}
use kubedock.Util.StringId.{
  truncate_id, hex_encode, generate_random_id, generated, panicked, is_numeric,
}
use kubedock.Util.StringId.Generated.{IsBlock}

truncate_prefixed : truncate_id (codes "sha256:0123456789abcdef0123") ≡ codes "0123456789ab"
unfolding codes truncate_id
truncate_prefixed = refl

-- 32 zero bytes are drawn first, and make a numeric id; 32 bytes 0xab come next.
abbrev draws : ℕ → List ℕ
draws zero = replicate 32 0
draws (suc n) = replicate 32 0xab

abbrev rand : ℕ → Option (List ℕ)
rand n = some (draws n)

draws-IsBlock : (n : ℕ) → IsBlock (draws n)
draws-IsBlock zero = omega arith
draws-IsBlock (suc n) = omega arith

second_round : generate_random_id 5 rand 0 ≡ generated (hex_encode (draws 1))
unfolding generate_random_id is_numeric truncate_id hex_encode parse_int64
second_round = refl

failing : generate_random_id 5 (λ n. none) 0 ≡ panicked
unfolding generate_random_id
failing = refl

rand-IsBlock : (n : ℕ) (b : List ℕ) → rand n ≡ some b → IsBlock b
rand-IsBlock n b h = subst IsBlock (cc) (draws-IsBlock n)

second_numeric : is_numeric (hex_encode (draws 1)) ≡ false
unfolding is_numeric truncate_id hex_encode parse_int64
second_numeric = refl
