-- ===== src/Server/VersionAlias/Versions.antt =====
-- Which versions are removed, and the path that is handed on for ever.
use kubedock.Base.{
  ℕ, suc, ◌≡◌, ◌≢◌, refl, inl, inr, Bool, true, false, [], ◌∷◌, ◌++◌, none, some, all_of, ◌==◌,
  Bool-cases, arith, Str,
}
use kubedock.Base.Text.{codes, has_prefix, is_digit}
use kubedock.Server.VersionAlias.{
  Match, star_then, plus_then, any_then, text_then, is_positive, match_docker, match_podman, again,
  step, alias,
}
use kubedock.Server.VersionAlias.Decided.{hangs, alias-again}

-- A run of bytes of the class, and another byte behind it.
star_then_run :
    (p : ℕ → Bool) (k : Match) (ds : Str) (c : ℕ) (s r : Str)
    → all_of p ds ≡ true
    → p c ≡ false
    → k (c ∷ s) ≡ some r
    → star_then p k (ds ++ c ∷ s) ≡ some r
unfolding star_then all_of
star_then_run p k [] c s r all other e = rw (star_then, other) e
star_then_run p k (d ∷ ds) c s r all other e = ground (arith, star_then_run p k ds c s r)

plus_then_run :
    (p : ℕ → Bool) (k : Match) (ds : Str) (c : ℕ) (s r : Str)
    → ds ≢ []
    → all_of p ds ≡ true
    → p c ≡ false
    → k (c ∷ s) ≡ some r
    → plus_then p k (ds ++ c ∷ s) ≡ some r
unfolding plus_then all_of
plus_then_run p k [] c s r full all other e = absurd (full refl)
plus_then_run p k (d ∷ ds) c s r full all other e = ground (arith, star_then_run p k ds c s r)

module _ (digits s : Str) (full : digits ≢ []) (all : all_of is_digit digits ≡ true) where
  match_docker_version : match_docker (codes "/v1." ++ digits ++ b'/' ∷ s) ≡ some (b'/' ∷ s)
  unfolding match_docker text_then any_then codes
  match_docker_version = plus_then_run is_digit some digits b'/' s (b'/' ∷ s) full all refl refl

  docker : step (codes "/v1." ++ digits ++ b'/' ∷ s) ≡ again (b'/' ∷ s)
  unfolding step has_prefix codes
  docker = rw (step, match_docker_version) refl

-- The path of an API of podman.
abbrev pub podman_path : Str → Str → Str → Str → Str
podman_path major minor patch s =
    codes "/v" ++ major ++ b'.' ∷ (minor ++ b'.' ∷ (patch ++ b'/' ∷ s))

module _ (major minor patch s : Str) (full_major : major ≢ []) (full_minor : minor ≢ [])
    (full_patch : patch ≢ []) (all_major : all_of is_positive major ≡ true)
    (all_minor : all_of is_digit minor ≡ true) (all_patch : all_of is_digit patch ≡ true) where
  patch_run : any_then (plus_then is_digit some) (b'.' ∷ (patch ++ b'/' ∷ s)) ≡ some (b'/' ∷ s)
  unfolding any_then
  patch_run = plus_then_run is_digit some patch b'/' s (b'/' ∷ s) full_patch all_patch refl refl

  minor_run :
      any_then
        (plus_then is_digit (any_then (plus_then is_digit some)))
        (b'.' ∷ (minor ++ b'.' ∷ (patch ++ b'/' ∷ s)))
      ≡ some (b'/' ∷ s)
  unfolding any_then
  minor_run =
      plus_then_run is_digit (any_then (plus_then is_digit some)) minor b'.' (patch ++ b'/' ∷ s)
        (b'/' ∷ s) full_minor all_minor refl patch_run

  match_podman_version : match_podman (podman_path major minor patch s) ≡ some (b'/' ∷ s)
  unfolding match_podman text_then codes
  match_podman_version =
      plus_then_run is_positive (any_then (plus_then is_digit (any_then (plus_then is_digit some))))
        major b'.' (minor ++ b'.' ∷ (patch ++ b'/' ∷ s)) (b'/' ∷ s) full_major all_major refl
        minor_run

not_docker :
    (major s : Str)
    → major ≢ []
    → major ≢ codes "1"
    → all_of is_positive major ≡ true
    → has_prefix (codes "/v" ++ major ++ b'.' ∷ s) (codes "/v1.") ≡ false
unfolding has_prefix codes all_of
not_docker [] s full other all = absurd (full refl)
not_docker (c ∷ []) s full other all = elim (Bool-cases (c == b'1')) [
  | inl one ↦ absurd (ground (arith, other))
  | inr more ↦ ground arith
]
not_docker (c ∷ d ∷ major) s full other all = ground arith

-- The version in front of a path is removed: "/v1." and digits; and three numbers with dots between,
-- of which the first is not 1 and has no digit 0. What is behind is handled like a path without it.
pub alias-versions :
    (calls : ℕ) (digits major minor patch s : Str)
    → digits ≢ []
    → all_of is_digit digits ≡ true
    → major ≢ []
    → major ≢ codes "1"
    → all_of is_positive major ≡ true
    → minor ≢ []
    → all_of is_digit minor ≡ true
    → patch ≢ []
    → all_of is_digit patch ≡ true
    → (alias (suc calls) (codes "/v1." ++ digits ++ b'/' ∷ s) ≡ alias calls (b'/' ∷ s))
      × (alias (suc calls) (podman_path major minor patch s) ≡ alias calls (b'/' ∷ s))
unfolding step
alias-versions calls digits major minor patch s full all full_major other all_major full_minor
      all_minor full_patch all_patch =
    (
      alias-again calls _ (b'/' ∷ s) (docker digits s full all),
      alias-again calls _ (b'/' ∷ s) (
          rw
            (
              step,
              not_docker major (minor ++ b'.' ∷ (patch ++ b'/' ∷ s)) full_major other all_major,
              match_podman_version major minor patch s full_major full_minor full_patch all_major
                  all_minor all_patch,
            )
            refl),
    )

-- A path with "/v1." and no digit behind it, such as /v1.x/containers, is handed to the middleware
-- again and again as it is: however many calls there are, it does not reach the routes.
pub alias-hangs :
    (c : ℕ) (s : Str) (m : ℕ) → is_digit c ≡ false → alias m (codes "/v1." ++ c ∷ s) ≡ none
unfolding step has_prefix match_docker text_then any_then plus_then codes
alias-hangs c s m other = hangs (codes "/v1." ++ c ∷ s) (rw (step, other) refl) m
