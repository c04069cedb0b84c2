-- ===== src/Util/IoProxy/Frames.antt =====
-- The format of a framed stream, read back: what a docker client does with it.
use kubedock.Base.{
  ◌/◌, ◌%◌, ℕ, zero, suc, ◌+◌, ◌*◌, ◌^◌, ◌≤◌, ◌<◌, ◌≡◌, refl, ◌&&◌, List, [], ◌∷◌, ◌++◌,
  append_assoc, Option, none, some, length, take, drop, leb, ◌==◌, if◌then◌else◌, arith, All,
  length-append, take-append_self, drop-append_self, Str,
}
use kubedock.Util.IoProxy.{header}

-- The bytes of a chunk with its header before it.
unfoldable pub frame : ℕ → Str → Str
frame prefix p = header prefix p ++ p

unfoldable pub frames : ℕ → List Str → Str
frames prefix [] = []
frames prefix (p ∷ ps) = frame prefix p ++ frames prefix ps

unfoldable pub concat : List Str → Str
concat [] = []
concat (p ∷ ps) = p ++ concat ps

-- Reads a stream whose frames all have one prefix, and joins the chunks.
unfoldable pub demux : ℕ → ℕ → Str → Option Str
demux prefix fuel [] = some []
demux prefix (suc fuel) (t ∷ x ∷ y ∷ z ∷ a ∷ b ∷ c ∷ d ∷ rest) =
    let n = a * 2 ^ 24 + b * 2 ^ 16 + c * 2 ^ 8 + d in
    let later = demux prefix fuel (drop n rest) in
    if t == prefix && leb n (length rest)
    then elim later [ none ↦ none | some p ↦ some (take n rest ++ p) ]
    else none
demux prefix fuel s = none

be32_value :
    (n : ℕ)
    → n < 2 ^ 32
    → n / 2 ^ 24 % 256 * 2 ^ 24 + n / 2 ^ 16 % 256 * 2 ^ 16 + n / 2 ^ 8 % 256 * 2 ^ 8 + n % 256 ≡ n
be32_value n h = omega arith

demux-frame :
    (prefix fuel : ℕ) (p rest q : Str)
    → prefix < 256
    → length p < 2 ^ 32
    → demux prefix fuel rest ≡ some q
    → demux prefix (suc fuel) (frame prefix p ++ rest) ≡ some (p ++ q)
unfolding demux frame header
demux-frame prefix fuel p rest q small fits h = ground (
  arith,
  be32_value (length p) fits,
  take-append_self p rest,
  drop-append_self p rest,
  length-append p rest,
)

-- A stream of frames is read back as the chunks that were framed.
pub demux-frames :
    (prefix fuel : ℕ) (ps : List Str)
    → prefix < 256
    → length ps ≤ fuel
    → All (λ p. length p < 2 ^ 32) ps
    → demux prefix fuel (frames prefix ps) ≡ some (concat ps)
unfolding frames concat
demux-frames prefix zero [] small enough fits = unfold demux in refl
demux-frames prefix (suc fuel) [] small enough fits = unfold demux in refl
demux-frames prefix zero (p ∷ ps) small enough fits = absurd (omega arith)
demux-frames prefix (suc fuel) (p ∷ ps) small enough fits =
    demux-frame prefix fuel p (frames prefix ps) (concat ps) small fits.0
      (demux-frames prefix fuel ps small (omega arith) fits.1)

-- A reader that goes on to the end of the stream.
unfoldable pub read_all : ℕ → Str → Option Str
unfolding demux
read_all prefix s = demux prefix (length s) s

pub frames-append :
    (prefix : ℕ) (ps qs : List Str)
    → frames prefix (ps ++ qs) ≡ frames prefix ps ++ frames prefix qs
unfolding frames
frames-append prefix [] qs = refl
frames-append prefix (p ∷ ps) qs = simp (frames-append prefix ps qs, append_assoc)

pub concat-append : (ps qs : List Str) → concat (ps ++ qs) ≡ concat ps ++ concat qs
unfolding concat
concat-append [] qs = refl
concat-append (p ∷ ps) qs = simp (concat-append ps qs, append_assoc)

-- Every chunk is shorter than what the chunks make together.
pub length-concat_bound :
    (n : ℕ) (ps : List Str) → length (concat ps) < n → All (λ p. length p < n) ps
unfolding concat
length-concat_bound n [] h = tt
length-concat_bound n (p ∷ ps) h = (
  omega (arith, length-append p (concat ps)),
  length-concat_bound n ps (omega (arith, length-append p (concat ps))),
)

length-le-frames : (prefix : ℕ) (ps : List Str) → length ps ≤ length (frames prefix ps)
unfolding frames frame header
length-le-frames prefix [] = omega arith
length-le-frames prefix (p ∷ ps) =
    omega (arith, length-le-frames prefix ps, length-append p (frames prefix ps))

pub read_all-frames :
    (prefix : ℕ) (ps : List Str)
    → prefix < 256
    → length (concat ps) < 2 ^ 32
    → read_all prefix (frames prefix ps) ≡ some (concat ps)
unfolding read_all
read_all-frames prefix ps small fits =
    demux-frames prefix (length (frames prefix ps)) ps small (length-le-frames prefix ps)
      (length-concat_bound (2 ^ 32) ps fits)
