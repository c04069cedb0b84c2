-- ===== src/Server/VersionAlias/Decided.antt =====
-- A request is passed to the routes, or the middleware calls itself for ever.
use kubedock.Base.{
  ℕ, zero, suc, ◌+◌, ◌≤◌, ◌<◌, ◌≡◌, ◌⊎◌, refl, sym, ap, ◌∙◌, inl, inr, Bool, false, [], ◌∷◌, ◌++◌,
  none, some, length, append_assoc, Bool-cases, Option-cases, arith, Str,
}
use kubedock.Base.Text.{codes, has_prefix, is_digit}
use kubedock.Server.VersionAlias.{
  Match, star_then, plus_then, any_then, text_then, is_positive, match_docker, match_podman, next,
  again, step, alias,
}

-- What is left is an end of the text.
abbrev pub Ends : Str → Str → Type 0
Ends s rest = (front : Str) × (s ≡ front ++ rest)

-- A match leaves a proper end of the text; `least` bytes are gone at least.
abbrev Cuts : ℕ → Match → Type 0
Cuts least m = (s rest : Str) → m s ≡ some rest → Ends s rest × (length rest + least ≤ length s)

Ends-cons : (c : ℕ) (s rest : Str) → Ends s rest → Ends (c ∷ s) rest
Ends-cons c s rest (front, e) = (c ∷ front, ap (λ t. c ∷ t) e)

star_then-Cuts : (p : ℕ → Bool) (k : Match) (n : ℕ) → Cuts n k → Cuts n (star_then p k)
unfolding star_then
star_then-Cuts p k n cuts [] rest e = cuts [] rest e
star_then-Cuts p k n cuts (c ∷ s) rest e = elim (Bool-cases (p c)) [
  | inr miss ↦ cuts (c ∷ s) rest (ground arith)
  | inl hit ↦ elim (Option-cases (star_then p k s)) [
    | inl short ↦ cuts (c ∷ s) rest (ground arith)
    | inr (r, long) ↦
        let (ends, less) = star_then-Cuts p k n cuts s rest (ground arith) in
        (Ends-cons c s rest ends, omega arith)
  ]
]

plus_then-Cuts : (p : ℕ → Bool) (k : Match) (n : ℕ) → Cuts n k → Cuts (n + 1) (plus_then p k)
unfolding plus_then
plus_then-Cuts p k n cuts [] rest e = absurd (ground arith)
plus_then-Cuts p k n cuts (c ∷ s) rest e =
    let (ends, less) = star_then-Cuts p k n cuts s rest (ground arith) in
    (Ends-cons c s rest ends, omega arith)

any_then-Cuts : (k : Match) (n : ℕ) → Cuts n k → Cuts (n + 1) (any_then k)
unfolding any_then
any_then-Cuts k n cuts [] rest e = absurd (ground arith)
any_then-Cuts k n cuts (c ∷ s) rest e =
    let (ends, less) = cuts s rest (ground arith) in (Ends-cons c s rest ends, omega arith)

text_then-Cuts : (t : Str) (k : Match) (n : ℕ) → Cuts n k → Cuts n (text_then t k)
unfolding text_then
text_then-Cuts [] k n cuts s rest e = cuts s rest e
text_then-Cuts (d ∷ t) k n cuts [] rest e = absurd (ground arith)
text_then-Cuts (d ∷ t) k n cuts (c ∷ s) rest e =
    let (ends, less) = text_then-Cuts t k n cuts s rest (ground arith) in
    (Ends-cons c s rest ends, omega arith)

some-Cuts : Cuts 0 some
some-Cuts s rest e = (([], ground arith), ground arith)

-- Both expressions take something away.
match_docker-Cuts : Cuts 1 match_docker
unfolding match_docker
match_docker-Cuts s rest e =
    let (ends, less) =
      text_then-Cuts (codes "/v1") (any_then (plus_then is_digit some)) 2
        (any_then-Cuts (plus_then is_digit some) 1 (plus_then-Cuts is_digit some 0 some-Cuts)) s
        rest e in
    (ends, omega arith)

match_podman-Cuts : Cuts 1 match_podman
unfolding match_podman
match_podman-Cuts s rest e =
    let digits = plus_then is_digit some in
    let last = any_then digits in
    let minor = plus_then is_digit last in
    let middle = any_then minor in
    let (ends, less) =
      text_then-Cuts (codes "/v") (plus_then is_positive middle) 5
        (plus_then-Cuts is_positive middle 4 (
          any_then-Cuts minor 3 (
            plus_then-Cuts is_digit last 2
              (any_then-Cuts digits 1 (plus_then-Cuts is_digit some 0 some-Cuts)))))
        s rest e in
    (ends, omega arith)

-- The path has no version that the middleware knows.
unfoldable pub HasNoVersion : Str → Type 0
HasNoVersion p = (has_prefix p (codes "/v1.") ≡ false) × (match_podman p ≡ none)

step-cases :
    (path : Str)
    → ((step path ≡ next path) × HasNoVersion path)
      ⊎ (step path ≡ again path)
      ⊎ ((rest : Str) × (step path ≡ again rest) × Ends path rest × (length rest < length path))
unfolding step HasNoVersion
step-cases path = elim (Bool-cases (has_prefix path (codes "/v1."))) [
  | inl docker ↦ elim (Option-cases (match_docker path)) [
    | inl none_left ↦ inr (inl (rw (step, docker, none_left) refl))
    | inr (rest, cut) ↦
        let (ends, less) = match_docker-Cuts path rest cut in
        inr (inr (rest, rw (step, docker, cut) refl, ends, omega arith))
  ]
  | inr other ↦ elim (Option-cases (match_podman path)) [
    | inl plain ↦ inl (rw (step, other, plain) refl, (other, plain))
    | inr (rest, cut) ↦
        let (ends, less) = match_podman-Cuts path rest cut in
        inr (inr (rest, rw (step, other, cut) refl, ends, omega arith))
  ]
]

pub hangs : (path : Str) → step path ≡ again path → (m : ℕ) → alias m path ≡ none
unfolding alias
hangs path e zero = refl
hangs path e (suc m) = rw (alias, e) (hangs path e m)

pub alias-again :
    (m : ℕ) (path rest : Str) → step path ≡ again rest → alias (suc m) path ≡ alias m rest
unfolding alias
alias-again m path rest e = rw (alias, e) refl

alias-next : (m : ℕ) (path p : Str) → step path ≡ next p → alias (suc m) path ≡ some p
unfolding alias
alias-next m path p e = rw (alias, e) refl

hangs_too :
    (path rest : Str)
    → step path ≡ again rest
    → ((m : ℕ) → alias m rest ≡ none)
    → (m : ℕ) → alias m path ≡ none
unfolding alias
hangs_too path rest e never zero = refl
hangs_too path rest e never (suc m) = alias-again m path rest e ∙ never m

Ends-trans : (s t u : Str) → Ends s t → Ends t u → Ends s u
Ends-trans s t u (f, e) (g, e') = (f ++ g, e ∙ ap (λ v. f ++ v) e' ∙ sym (append_assoc f g u))

-- A request either reaches the routes, after at most one more call of the middleware than its path
-- has bytes, with an end of the path that has no version; or the middleware calls itself for ever.
pub alias-decided :
    (calls : ℕ) (path : Str)
    → length path < calls
    → ((p : Str) × (alias calls path ≡ some p) × Ends path p × HasNoVersion p)
      ⊎ ((m : ℕ) → alias m path ≡ none)
alias-decided zero path h = absurd (omega arith)
alias-decided (suc calls) path h = elim (step-cases path) [
  | inl (e, plain) ↦ inl (path, alias-next calls path path e, ([], refl), plain)
  | inr (inl e) ↦ inr (hangs path e)
  | inr (inr (rest, e, ends, less)) ↦ elim (alias-decided calls rest (omega arith)) [
    | inl (p, served, ends', plain) ↦
        inl (p, alias-again calls path rest e ∙ served, Ends-trans path rest p ends ends', plain)
    | inr never ↦ inr (hangs_too path rest e never)
  ]
]
