-- ===== src/Base/Text/Decimal.antt =====
-- Integers in decimal, as `fmt` prints them.
pub mod Parsed
use Prim.Native.Nat.{ℕ, zero, suc, ◌+◌, ◌/◌, ◌%◌}
use mathlib.Core.List.{[], ◌∷◌, ◌++◌}
use kubedock.Base.Tests.{ltb, if◌then◌else◌}
use kubedock.Base.Eq.{Str}
use kubedock.Base.Int.{ℤ, pos, negsuc}

-- fmt.Sprintf("%d", n); a number has at most as many digits as its successor is large
unfoldable pub digits : ℕ → ℕ → Str
digits zero n = []
digits (suc fuel) n =
    let front = digits fuel (n / 10) in
    if ltb n 10 then (48 + n) ∷ [] else front ++ (48 + n % 10) ∷ []

unfoldable pub sprint : ℤ → Str
unfolding digits
sprint (pos n) = digits (suc n) n
sprint (negsuc n) = b'-' ∷ digits (suc (suc n)) (suc n)
