-- ===== src/Base/Text/Split.antt =====
-- `split`, `cut` and the text that they were given.
use kubedock.Base.Tests.{◌==◌}
use kubedock.Base.Lists.{all_of}
use kubedock.Base.Eq.{Str}
use kubedock.Base.Text.{split}
use Prim.Native.Nat.{ℕ}
use mathlib.Core.Path.{◌≡◌, refl, ap, sym, ◌∙◌}
use mathlib.Core.Bool.{Bool, true, not}
use mathlib.Core.List.{List, [], ◌∷◌, ◌++◌}
use mathlib.Core.Logic.{◌≢◌}
use native.Mathlib.Omega.{arith}

-- strings.Join
unfoldable pub join : ℕ → List Str → Str
join sep [] = []
join sep (p ∷ []) = p
join sep (p ∷ q ∷ ps) = p ++ sep ∷ join sep (q ∷ ps)

-- No byte of the text is the separator.
abbrev pub lacks : ℕ → Str → Bool
lacks sep s = all_of (λ c. not (c == sep)) s

pub split-ne-nil : (sep : ℕ) (s : Str) → split sep s ≢ []
unfolding split
split-ne-nil sep [] h = cc
split-ne-nil sep (c ∷ s) h = ground (arith, split-ne-nil sep s)

pub split-lacks : (sep : ℕ) (p : Str) → lacks sep p ≡ true → split sep p ≡ p ∷ []
unfolding split all_of
split-lacks sep [] h = refl
split-lacks sep (c ∷ p) h = ground (arith, split-lacks sep p)

pub split-append :
    (sep : ℕ) (p rest : Str) → lacks sep p ≡ true → split sep (p ++ sep ∷ rest) ≡ p ∷ split sep rest
unfolding split all_of
split-append sep [] rest h = ground arith
split-append sep (c ∷ p) rest h = ground (arith, split-append sep p rest)

join_cons : (sep c : ℕ) (p : Str) (ps : List Str) → join sep ((c ∷ p) ∷ ps) ≡ c ∷ join sep (p ∷ ps)
unfolding join
join_cons sep c p [] = refl
join_cons sep c p (q ∷ ps) = refl

join_nil : (sep : ℕ) (p : Str) (ps : List Str) → join sep ([] ∷ p ∷ ps) ≡ sep ∷ join sep (p ∷ ps)
unfolding join
join_nil sep p ps = refl

pub list_parts : (ps : List Str) → ps ≢ [] → (q : Str) × (qs : List Str) × (ps ≡ q ∷ qs)
list_parts [] h = absurd (h refl)
list_parts (q ∷ qs) h = (q, qs, refl)

pub split_parts : (sep : ℕ) (s : Str) → (q : Str) × (qs : List Str) × (split sep s ≡ q ∷ qs)
split_parts sep s = list_parts (split sep s) (split-ne-nil sep s)

-- Joining the parts of a split gives the text back.
pub join-split : (sep : ℕ) (s : Str) → join sep (split sep s) ≡ s
unfolding split
join-split sep [] = unfold join in refl
join-split sep (c ∷ s) =
    let (q, qs, e) = split_parts sep s in
    ground (arith, join-split sep s, join_nil sep q qs, join_cons sep c q qs)

-- The first part holds no separator.
pub split-lacks_first :
    (sep : ℕ) (s a : Str) (ps : List Str) → split sep s ≡ a ∷ ps → lacks sep a ≡ true
unfolding split all_of
split-lacks_first sep [] a ps h = ground arith
split-lacks_first sep (c ∷ s) a ps h =
    let (q, qs, e) = split_parts sep s in ground (arith, split-lacks_first sep s q qs e)

pub split_one : (sep : ℕ) (s a : Str) → split sep s ≡ a ∷ [] → s ≡ a
split_one sep s a h = sym (join-split sep s) ∙ ap (join sep) h ∙ (unfold join in refl)

pub split_two : (sep : ℕ) (s a b : Str) → split sep s ≡ a ∷ b ∷ [] → s ≡ a ++ sep ∷ b
split_two sep s a b h = sym (join-split sep s) ∙ ap (join sep) h ∙ (unfold join in refl)
