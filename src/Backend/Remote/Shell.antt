-- ===== src/Backend/Remote/Shell.antt =====
-- What a shell makes of a path that sanitizeFilename put between double quotes.
use kubedock.Base.{
  ℕ, ◌≡◌, refl, inl, inr, Bool, true, false, ◌||◌, [], ◌∷◌, ◌++◌, Option, none, some, ◌==◌, any_of,
  if◌then◌else◌, Bool-cases, arith, Str,
}
use kubedock.Base.Text.{replace_with}
use kubedock.Backend.Remote.{sanitize_filename}

unfoldable pub add_byte : ℕ → Option (Str × Str) → Option (Str × Str)
add_byte c none = none
add_byte c (some (word, rest)) = some (c ∷ word, rest)

-- How a POSIX shell reads a text behind a double quote: the word up to the next one, and the text
-- behind it. Nothing is returned where the text ends before or a part of it would be expanded. The
-- flag says that a backslash came before.
unfoldable pub quoted : Bool → Str → Option (Str × Str)
unfolding add_byte
quoted escaped [] = none
quoted true (c ∷ s) =
    let rest = quoted false s in
    if c == b'"' || c == b'$' || c == b'`' || c == b'\\'
    then add_byte c rest
    else if c == 10
    then rest
    else add_byte b'\\' (add_byte c rest)
quoted false (c ∷ s) =
    let rest = quoted false s in
    let after = quoted true s in
    if c == b'"'
    then some ([], s)
    else if c == b'$' || c == b'`'
    then none
    else if c == b'\\'
    then after
    else add_byte c rest

-- the path without the bytes that the shell would expand
unfoldable pub without_expansions : Str → Str
without_expansions [] = []
without_expansions (c ∷ s) =
    let rest = without_expansions s in if c == b'$' || c == b'`' then rest else c ∷ rest

sanitize-cons :
    (c : ℕ) (s : Str)
    → sanitize_filename (c ∷ s) ≡ (
        if c == b'$' || c == b'`'
        then sanitize_filename s
        else if c == b'"'
        then b'\\' ∷ b'"' ∷ sanitize_filename s
        else c ∷ sanitize_filename s)
unfolding sanitize_filename replace_with
sanitize-cons c s = elim (Bool-cases (c == b'`')) [
  | inl e ↦ ground arith
  | inr e ↦ elim (Bool-cases (c == b'$')) [ inl e' ↦ ground arith | inr e' ↦ ground arith ]
]

empty : sanitize_filename [] ≡ []
unfolding sanitize_filename replace_with
empty = refl

quoted-sanitize :
    (file rest : Str)
    → any_of (λ c. c == b'\\') file ≡ false
    → quoted false (sanitize_filename file ++ b'"' ∷ rest) ≡ some (without_expansions file, rest)
unfolding quoted without_expansions any_of
quoted-sanitize [] rest h = rw empty refl
quoted-sanitize (c ∷ s) rest h =
    let ih : quoted false (sanitize_filename s ++ b'"' ∷ rest) ≡ some (without_expansions s, rest) =
      quoted-sanitize s rest (ground arith) in
    rw (sanitize-cons c s) (ground (arith, ih))

breaks_out :
    (s rest : Str)
    → quoted false (sanitize_filename (b'\\' ∷ b'"' ∷ s) ++ rest)
      ≡ some (b'\\' ∷ [], sanitize_filename s ++ rest)
unfolding quoted
breaks_out s rest = rw (sanitize-cons b'\\' (b'"' ∷ s), sanitize-cons b'"' s) refl

-- Between double quotes, with a quote and any text behind it, a path that has no backslash is read
-- by a shell as one word, the path without its $ and `; but of a path that begins with a backslash
-- and a double quote the word ends there, and what follows in the path is read as shell text.
pub sanitize_filename_lem :
    (file s rest : Str)
    → any_of (λ c. c == b'\\') file ≡ false
    → (quoted false (sanitize_filename file ++ b'"' ∷ rest) ≡ some (without_expansions file, rest))
      × (quoted false (sanitize_filename (b'\\' ∷ b'"' ∷ s) ++ b'"' ∷ rest)
          ≡ some (b'\\' ∷ [], sanitize_filename s ++ b'"' ∷ rest))
sanitize_filename_lem file s rest h = (quoted-sanitize file rest h, breaks_out s (b'"' ∷ rest))
