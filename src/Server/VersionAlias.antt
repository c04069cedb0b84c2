-- ===== src/Server/VersionAlias.antt =====
-- VersionAliasMiddleware of internal/server/httputil/util.go: the version in front of a path is
-- removed. Paths are of ASCII bytes.
pub mod Decided
pub mod Versions
pub mod Tests
use kubedock.Base.{
  ℕ, zero, suc, Bool, true, false, ◌&&◌, not, [], ◌∷◌, Option, none, some, leb, ◌==◌, if◌then◌else◌,
  Str,
}
use kubedock.Base.Text.{codes, has_prefix, is_digit}

-- What a regular expression leaves of a text from whose start it matches, in the order in which
-- Go's regexp tries: the text behind the first match, or none. A part is given what follows it.
abbrev pub Match : Type 0
Match = Str → Option Str

-- [..]*, greedy
unfoldable pub star_then : (ℕ → Bool) → Match → Match
star_then p k [] = k []
star_then p k (c ∷ s) =
    let longer = star_then p k s in
    if p c then (elim longer [ some rest ↦ some rest | none ↦ k (c ∷ s) ]) else k (c ∷ s)

-- [..]+
unfoldable pub plus_then : (ℕ → Bool) → Match → Match
unfolding star_then
plus_then p k [] = none
plus_then p k (c ∷ s) = if p c then star_then p k s else none

-- '.', which does not match a newline
unfoldable pub any_then : Match → Match
any_then k [] = none
any_then k (c ∷ s) = if c == 10 then none else k s

unfoldable pub text_then : Str → Match → Match
text_then [] k s = k s
text_then (d ∷ t) k [] = none
text_then (d ∷ t) k (c ∷ s) = let rest = text_then t k s in if d == c then rest else none

-- [1-9]
abbrev pub is_positive : ℕ → Bool
is_positive c = leb b'1' c && leb c b'9'

-- ^/v1.[0-9]+
unfoldable pub match_docker : Match
unfolding text_then any_then plus_then
match_docker path = text_then (codes "/v1") (any_then (plus_then is_digit some)) path

-- ^/v[1-9]+.[0-9]+.[0-9]+
unfoldable pub match_podman : Match
unfolding text_then any_then plus_then
match_podman path =
    text_then (codes "/v")
      (plus_then is_positive (any_then (plus_then is_digit (any_then (plus_then is_digit some)))))
      path

-- What the middleware does with a path: it passes it to the routes, or it hands the request with
-- another path back to the router, and so to itself.
pub data Step : Type 0 where
  next : Str → Step
  again : Str → Step

unfoldable pub step : Str → Step
unfolding match_docker match_podman
step path =
    if has_prefix path (codes "/v1.")
    then (elim (match_docker path) [ none ↦ again path | some rest ↦ again rest ])
    else (elim (match_podman path) [ none ↦ next path | some rest ↦ again rest ])

-- The path that reaches the routes, with so many calls of the middleware; none where they do not
-- suffice.
unfoldable pub alias : ℕ → Str → Option Str
alias zero path = none
alias (suc calls) path = elim (step path) [ next p ↦ some p | again p ↦ alias calls p ]
