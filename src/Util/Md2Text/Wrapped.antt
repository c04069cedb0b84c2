-- ===== src/Util/Md2Text/Wrapped.antt =====
-- What wrapString keeps, and how long its lines are.
use kubedock.Base.{
  ℕ, ◌+◌, ◌≡◌, refl, sym, ap, ◌∙◌, inl, inr, Bool, true, false, ◌||◌, not, List, [], ◌∷◌, ◌++◌,
  append-nil, append_assoc, is_nil, length, keep, ltb, ◌==◌, if◌then◌else◌, Bool-cases, arith, Str,
}
use kubedock.Base.Text.{split, cons_head, replace_byte}
use kubedock.Base.Text.Split.{split_parts, join, join-split}
use kubedock.Util.Md2Text.{wrap_each, wrap_string}

-- split of a text with a separator in it
pub split_at : (sep : ℕ) (a b : Str) → split sep (a ++ sep ∷ b) ≡ split sep a ++ split sep b
unfolding split cons_head
split_at sep [] b = ground arith
split_at sep (c ∷ a) b = let (q, qs, e) = split_parts sep a in ground (arith, split_at sep a b, e)

-- The words of a text, which blanks and newlines part.
unfoldable pub words : Str → List Str
words s = keep (λ w. not (is_nil w)) (split b' ' (replace_byte b'\n' b' ' s))

keep-append :
    {A : Type 0} (p : A → Bool) (xs ys : List A) → keep p (xs ++ ys) ≡ keep p xs ++ keep p ys
unfolding keep
keep-append p [] ys = refl
keep-append p (x ∷ xs) ys = ground (arith, keep-append p xs ys)

replace-append :
    (a b : Str)
    → replace_byte b'\n' b' ' (a ++ b) ≡ replace_byte b'\n' b' ' a ++ replace_byte b'\n' b' ' b
unfolding replace_byte
replace-append [] b = refl
replace-append (c ∷ a) b = ap (λ s. (if c == b'\n' then b' ' else c) ∷ s) (replace-append a b)

replaced :
    (c : ℕ) (b : Str)
    → (c == b' ' || c == b'\n') ≡ true
    → replace_byte b'\n' b' ' (c ∷ b) ≡ b' ' ∷ replace_byte b'\n' b' ' b
unfolding replace_byte
replaced c b blank = ground arith

-- A blank or a newline parts the words.
words_at :
    (a b : Str) (c : ℕ) → (c == b' ' || c == b'\n') ≡ true → words (a ++ c ∷ b) ≡ words a ++ words b
unfolding words
words_at a b c blank =
    let r = λ (s : Str). replace_byte b'\n' b' ' s in
    let e : r (a ++ c ∷ b) ≡ r a ++ b' ' ∷ r b =
      replace-append a (c ∷ b) ∙ ap (λ s. r a ++ s) (replaced c b blank) in
    ap (λ s. keep (λ w. not (is_nil w)) (split b' ' s)) e
    ∙ ap (keep (λ w. not (is_nil w))) (split_at b' ' (r a) (r b))
    ∙ keep-append (λ w. not (is_nil w)) (split b' ' (r a)) (split b' ' (r b))

-- the words of a list of texts
unfoldable all_words : List Str → List Str
all_words [] = []
all_words (w ∷ ws) = words w ++ all_words ws

pub regroup : (res l w : Str) → res ++ ((l ++ b' ' ∷ []) ++ w) ≡ (res ++ l) ++ b' ' ∷ w
regroup res l w =
    ap (λ t. res ++ t) (append_assoc l (b' ' ∷ []) w) ∙ sym (append_assoc res l (b' ' ∷ w))

module _ (cols : ℕ) where
  -- the two rounds of the loop
  pub wrap_fits :
      (w : Str) (ws : List Str) (res line : Str)
      → ltb (length w + length line) cols ≡ true
      → wrap_each cols (w ∷ ws) res line
        ≡ wrap_each cols ws res ((if is_nil line then line else line ++ b' ' ∷ []) ++ w)
  unfolding wrap_each
  wrap_fits w ws res line e = rw (wrap_each, e) refl

  pub wrap_breaks :
      (w : Str) (ws : List Str) (res line : Str)
      → ltb (length w + length line) cols ≡ false
      → wrap_each cols (w ∷ ws) res line ≡ wrap_each cols ws (res ++ line) (b'\n' ∷ w)
  unfolding wrap_each
  wrap_breaks w ws res line e = rw (wrap_each, e) refl

  -- What the loop keeps, for a line that is begun.
  wrap_begun :
      (ws : List Str) (res line : Str) (c : ℕ)
      → words (wrap_each cols ws res (c ∷ line)) ≡ words (res ++ c ∷ line) ++ all_words ws
  unfolding wrap_each all_words
  wrap_begun [] res line c = sym (append-nil (words (res ++ c ∷ line)))
  wrap_begun (w ∷ ws) res line c =
      let l = c ∷ line in
      elim (Bool-cases (ltb (length w + length l) cols)) [
        | inr long ↦
            ap words (wrap_breaks w ws res l long)
            ∙ wrap_begun ws (res ++ l) w b'\n'
            ∙ ap (λ t. t ++ all_words ws) (words_at (res ++ l) w b'\n' refl)
            ∙ append_assoc (words (res ++ l)) (words w) (all_words ws)
        | inl fits ↦
            ap words (wrap_fits w ws res l fits)
            ∙ wrap_begun ws res ((line ++ b' ' ∷ []) ++ w) c
            ∙ ap (λ t. words t ++ all_words ws) (regroup res l w)
            ∙ ap (λ t. t ++ all_words ws) (words_at (res ++ l) w b' ' refl)
            ∙ append_assoc (words (res ++ l)) (words w) (all_words ws)
      ]

  -- and at the start, where nothing is written
  wrap_start : (ws : List Str) → words (wrap_each cols ws [] []) ≡ all_words ws
  unfolding wrap_each all_words words keep split replace_byte
  wrap_start [] = refl
  wrap_start ([] ∷ ws) = elim (Bool-cases (ltb 0 cols)) [
    | inl fits ↦ ap words (wrap_fits [] ws [] [] fits) ∙ wrap_start ws
    | inr long ↦ ap words (wrap_breaks [] ws [] [] long) ∙ wrap_begun ws [] [] b'\n'
  ]
  wrap_start ((c ∷ w) ∷ ws) = elim (Bool-cases (ltb (length (c ∷ w) + 0) cols)) [
    | inl fits ↦ ap words (wrap_fits (c ∷ w) ws [] [] fits) ∙ wrap_begun ws [] w c
    | inr long ↦
        ap words (wrap_breaks (c ∷ w) ws [] [] long)
        ∙ wrap_begun ws [] (c ∷ w) b'\n'
        ∙ ap (λ t. t ++ all_words ws) (words_at [] (c ∷ w) b'\n' refl)
  ]

words-join : (p : Str) (ps : List Str) → words (join b' ' (p ∷ ps)) ≡ all_words (p ∷ ps)
unfolding join all_words
words-join p [] = sym (append-nil (words p))
words-join p (q ∷ ps) =
    words_at p (join b' ' (q ∷ ps)) b' ' refl ∙ ap (λ t. words p ++ t) (words-join q ps)

pub wrap_string-words : (text : Str) (cols : ℕ) → words (wrap_string text cols) ≡ words text
unfolding wrap_string
wrap_string-words text cols =
    let (q, qs, e) = split_parts b' ' text in
    wrap_start cols (split b' ' text)
    ∙ ap all_words e
    ∙ sym (words-join q qs)
    ∙ ap (λ ps. words (join b' ' ps)) (sym e)
    ∙ ap words (join-split b' ' text)
