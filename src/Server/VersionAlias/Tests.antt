-- ===== src/Server/VersionAlias/Tests.antt =====
-- Paths with versions, and one that is no path of an API.
use kubedock.Base.{
  ℕ, ◌<◌, ◌≡◌, ◌≢◌, ◌⊎◌, refl, [], ◌∷◌, ◌++◌, none, some, all_of, arith, length, Str,
}
use kubedock.Base.Text.{has_prefix, codes}
use kubedock.Server.VersionAlias.{step, alias, match_podman}
use kubedock.Server.VersionAlias.Decided.{Ends, HasNoVersion, alias-decided}
use kubedock.Server.VersionAlias.Versions.{podman_path, alias-versions, alias-hangs}

docker_path : alias 5 (codes "/v1.41/containers/json") ≡ some (codes "/containers/json")
unfolding alias step has_prefix codes
docker_path = refl

libpod_path : alias 5 (codes "/v4.2.0/libpod/info") ≡ some (codes "/libpod/info")
unfolding alias step has_prefix codes
libpod_path = refl

-- '.' matches a digit too
backtracked : match_podman (codes "/v12345/x") ≡ some (codes "/x")
unfolding match_podman codes
backtracked = refl

short : length (codes "/v1.41/images/json") < 20
unfolding codes
short = omega arith

alias-decided_example :
    ((p : Str) × (alias 20 (codes "/v1.41/images/json") ≡ some p)
      × Ends (codes "/v1.41/images/json") p
      × HasNoVersion p)
    ⊎ ((m : ℕ) → alias m (codes "/v1.41/images/json") ≡ none)
alias-decided_example = alias-decided 20 (codes "/v1.41/images/json") short

full : (c : ℕ) (s : Str) → c ∷ s ≢ []
full c s = ground arith

not_one : codes "4" ≢ codes "1"
unfolding codes
not_one = ground arith

alias-versions_example :
    (alias 3 (codes "/v1." ++ codes "41" ++ b'/' ∷ codes "info") ≡ alias 2 (b'/' ∷ codes "info"))
    × (alias 3 (podman_path (codes "4") (codes "2") (codes "0") (codes "info"))
        ≡ alias 2 (b'/' ∷ codes "info"))
unfolding codes all_of
alias-versions_example =
    alias-versions 2 (codes "41") (codes "4") (codes "2") (codes "0") (codes "info")
      (full b'4' (codes "1")) refl (full b'4' []) not_one refl (full b'2' []) refl (full b'0' [])
      refl

alias-hangs_example : alias 1000 (codes "/v1." ++ b'x' ∷ codes "/info") ≡ none
alias-hangs_example = alias-hangs b'x' (codes "/info") 1000 refl
