-- ===== src/Util/Md2Text/Bounded.antt =====
-- How long the lines of wrapString are.
use kubedock.Base.{
  ℕ, suc, ◌+◌, ◌≤◌, ◌≡◌, refl, ap, ◌∙◌, inl, inr, Bool, true, ◌&&◌, ◌||◌, List, [], ◌∷◌, ◌++◌,
  length, length-append, all_of, ltb, leb, All, Bool-cases, arith, Str,
}
use kubedock.Base.Text.{split, cons_head}
use kubedock.Base.Text.Split.{split_parts, split-lacks, lacks}
use kubedock.Util.Md2Text.{wrap_each, wrap_string}
use kubedock.Util.Md2Text.Wrapped.{split_at, wrap_fits, wrap_breaks, words, wrap_string-words}

lacks-append : (sep : ℕ) (a b : Str) → lacks sep (a ++ b) ≡ (lacks sep a && lacks sep b)
unfolding all_of
lacks-append sep [] b = refl
lacks-append sep (c ∷ a) b = ground (arith, lacks-append sep a b)

all_of-append :
    {A : Type 0} (p : A → Bool) (xs ys : List A)
    → all_of p (xs ++ ys) ≡ (all_of p xs && all_of p ys)
unfolding all_of
all_of-append p [] ys = refl
all_of-append p (x ∷ xs) ys = ground (arith, all_of-append p xs ys)

-- The parts of a split hold no separator, and no other byte that the text lacks.
split-lacks_all : (sep : ℕ) (s : Str) → all_of (lacks sep) (split sep s) ≡ true
unfolding split all_of cons_head
split-lacks_all sep [] = refl
split-lacks_all sep (c ∷ s) =
    let (q, qs, e) = split_parts sep s in ground (arith, split-lacks_all sep s, e)

split-lacks_other :
    (sep other : ℕ) (s : Str) → lacks other s ≡ true → all_of (lacks other) (split sep s) ≡ true
unfolding split all_of cons_head
split-lacks_other sep other [] h = refl
split-lacks_other sep other (c ∷ s) h =
    let (q, qs, e) = split_parts sep s in ground (arith, split-lacks_other sep other s, e)

-- A line that is no longer than the width, or has no blank to break it at.
unfoldable pub fits : ℕ → Str → Bool
fits cols l = leb (length l) cols || lacks b' ' l

-- A text whose lines fit.
unfoldable pub all_fit : ℕ → Str → Bool
unfolding fits
all_fit cols s = all_of (fits cols) (split b'\n' s)

module _ (cols : ℕ) where
  fit_at :
      (a l : Str)
      → lacks b'\n' l ≡ true
      → all_fit cols (a ++ b'\n' ∷ l) ≡ (all_fit cols a && fits cols l)
  unfolding all_fit all_of
  fit_at a l whole =
      ap (all_of (fits cols))
        (split_at b'\n' a l ∙ ap (λ ps. split b'\n' a ++ ps) (split-lacks b'\n' l whole))
      ∙ all_of-append (fits cols) (split b'\n' a) (l ∷ [])
      ∙ ground arith

  fit_one : (l : Str) → lacks b'\n' l ≡ true → fits cols l ≡ true → all_fit cols l ≡ true
  unfolding all_fit all_of
  fit_one l whole fit = ap (all_of (fits cols)) (split-lacks b'\n' l whole) ∙ rw fit refl

  -- Words, as they come from a line that is split.
  abbrev AreWords : List Str → Type 0
  AreWords ws = All (λ w. (lacks b' ' w ≡ true) × (lacks b'\n' w ≡ true)) ws

  longer_line :
      (l w : Str)
      → ltb (length w + suc (length l)) cols ≡ true
      → length ((l ++ b' ' ∷ []) ++ w) + 1 ≤ cols
  longer_line l w e = ground (arith, length-append (l ++ b' ' ∷ []) w, length-append l (b' ' ∷ []))

  lacks-longer :
      (l w : Str)
      → lacks b'\n' l ≡ true
      → lacks b'\n' w ≡ true
      → lacks b'\n' ((l ++ b' ' ∷ []) ++ w) ≡ true
  unfolding all_of
  lacks-longer l w h h' =
      ground (arith, lacks-append b'\n' (l ++ b' ' ∷ []) w, lacks-append b'\n' l (b' ' ∷ []))

  -- the loop behind the first break: the line has a newline in front
  later :
      (ws : List Str) (res v : Str)
      → AreWords ws
      → all_fit cols res ≡ true
      → lacks b'\n' v ≡ true
      → (leb (length v + 1) cols || lacks b' ' v) ≡ true
      → all_fit cols (wrap_each cols ws res (b'\n' ∷ v)) ≡ true
  unfolding wrap_each fits
  later [] res v good fit whole short = fit_at res v whole ∙ ground arith
  later (w ∷ ws) res v ((blankless, one), good) fit whole short =
      let l = b'\n' ∷ v in
      elim (Bool-cases (ltb (length w + length l) cols)) [
        | inr long ↦
            ap (all_fit cols) (wrap_breaks cols w ws res l long)
            ∙ later ws (res ++ l) w good (fit_at res v whole ∙ ground arith) one (ground arith)
        | inl more ↦
            let less = longer_line v w more in
            ap (all_fit cols) (wrap_fits cols w ws res l more)
            ∙ later ws res ((v ++ b' ' ∷ []) ++ w) good fit (lacks-longer v w whole one)
                (ground (arith, less))
      ]

  first :
      (ws : List Str) (line : Str)
      → AreWords ws
      → lacks b'\n' line ≡ true
      → fits cols line ≡ true
      → all_fit cols (wrap_each cols ws [] line) ≡ true
  unfolding wrap_each fits all_of
  first [] line good whole fit = fit_one line whole fit
  first (w ∷ ws) [] ((blankless, one), good) whole fit =
      elim (Bool-cases (ltb (length w + 0) cols)) [
        | inr long ↦
            ap (all_fit cols) (wrap_breaks cols w ws [] [] long)
            ∙ later ws [] w good (fit_one [] refl fit) one (ground arith)
        | inl more ↦
            ap (all_fit cols) (wrap_fits cols w ws [] [] more) ∙ first ws w good one (ground arith)
      ]
  first (w ∷ ws) (c ∷ l) ((blankless, one), good) whole fit =
      elim (Bool-cases (ltb (length w + length (c ∷ l)) cols)) [
        | inr long ↦
            ap (all_fit cols) (wrap_breaks cols w ws [] (c ∷ l) long)
            ∙ later ws (c ∷ l) w good (fit_one (c ∷ l) whole fit) one (ground arith)
        | inl more ↦
            let less = longer_line l w more in
            ap (all_fit cols) (wrap_fits cols w ws [] (c ∷ l) more)
            ∙ first ws (((c ∷ l) ++ b' ' ∷ []) ++ w) good (lacks-longer (c ∷ l) w whole one)
                (ground (arith, less))
      ]

are_words :
    (ps : List Str)
    → all_of (lacks b' ') ps ≡ true
    → all_of (lacks b'\n') ps ≡ true
    → All (λ w. (lacks b' ' w ≡ true) × (lacks b'\n' w ≡ true)) ps
unfolding all_of
are_words [] h h' = tt
are_words (p ∷ ps) h h' = ((ground arith, ground arith), are_words ps (ground arith) (ground arith))

-- A line that is wrapped to a width keeps its words in their order; and each line of the result has
-- at most so many bytes, or is one word.
pub wrap_string_lem :
    (text : Str) (cols : ℕ)
    → lacks b'\n' text ≡ true
    → (words (wrap_string text cols) ≡ words text)
      × (all_of (λ l. leb (length l) cols || lacks b' ' l) (split b'\n' (wrap_string text cols))
          ≡ true)
unfolding wrap_string all_fit fits all_of
wrap_string_lem text cols whole = (
  wrap_string-words text cols,
  first cols (split b' ' text) []
      (are_words (split b' ' text) (split-lacks_all b' ' text)
        (split-lacks_other b' ' b'\n' text whole))
      refl (ground arith),
)
