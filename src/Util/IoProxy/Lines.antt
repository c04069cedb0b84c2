-- ===== src/Util/IoProxy/Lines.antt =====
-- The chunks that a buffer falls into: its complete lines, and what is behind the last newline.
use kubedock.Base.{
  ℕ, zero, suc, ◌≤◌, ◌<◌, ◌≡◌, refl, List, [], ◌∷◌, ◌++◌, none, some, length, take, drop, ◌==◌,
  if◌then◌else◌, arith, Str,
}
use kubedock.Util.IoProxy.{line_end}
use kubedock.Util.IoProxy.Frames.{concat}

unfoldable pub attach : ℕ → List Str × Str → List Str × Str
attach c ([], rest) = ([], c ∷ rest)
attach c (l ∷ ls, rest) = ((c ∷ l) ∷ ls, rest)

-- Each line keeps its newline.
unfoldable pub split_lines : Str → List Str × Str
unfolding attach
split_lines [] = ([], [])
split_lines (c ∷ s) =
    let (ls, rest) = split_lines s in
    if c == b'\n' then ((c ∷ []) ∷ ls, rest) else attach c (ls, rest)

attach-concat :
    (c : ℕ) (r : List Str × Str) → concat (attach c r).0 ++ (attach c r).1 ≡ c ∷ (concat r.0 ++ r.1)
unfolding attach concat
attach-concat c ([], rest) = refl
attach-concat c (l ∷ ls, rest) = refl

-- No byte of a buffer is lost or moved.
pub concat-split_lines : (s : Str) → concat (split_lines s).0 ++ (split_lines s).1 ≡ s
unfolding split_lines concat
concat-split_lines [] = refl
concat-split_lines (c ∷ s) = ground (arith, attach-concat c (split_lines s), concat-split_lines s)

-- No newline: the whole buffer is the rest.
pub split_lines-none : (s : Str) → line_end s ≡ none → split_lines s ≡ ([], s)
unfolding split_lines line_end
split_lines-none [] h = refl
split_lines-none (c ∷ s) h = ground (arith, split_lines-none s)

-- The first line is what `process` cuts off.
pub split_lines-some :
    (s : Str) (n : ℕ)
    → line_end s ≡ some n
    → (0 < n)
      × (n ≤ length s)
      × (split_lines s ≡ (take n s ∷ (split_lines (drop n s)).0, (split_lines (drop n s)).1))
unfolding split_lines line_end
split_lines-some [] n h = cc
split_lines-some (c ∷ s) zero h = absurd (ground arith)
split_lines-some (c ∷ s) (suc zero) h = ground (arith, split_lines-some s zero)
split_lines-some (c ∷ s) (suc (suc m)) h = ground (arith, split_lines-some s (suc m))
