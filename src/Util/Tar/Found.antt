-- ===== src/Util/Tar/Found.antt =====
-- What the functions over the entries of an archive have to do with each other.
use kubedock.Base.{
  ℕ, suc, ◌+◌, ◌≡◌, refl, sym, ap, ◌∙◌, inl, inr, Bool, true, false, ◌||◌, List, [], ◌∷◌, ◌++◌,
  Option, none, some, length, length-append, any_of, ◌==◌, if◌then◌else◌, Bool-cases, arith, Str,
  str_eq,
}
use kubedock.Util.Tar.Entries.{
  Header, Listing, type_reg, find_file, unpack_file, get_file_mode, add_targets, get_targets,
  get_target_file_names, count_files, is_single_file_archive,
}

-- The number of regular files.
unfoldable files : List Header → ℕ
files [] = 0
files (h ∷ more) = if h.typeflag == type_reg then suc (files more) else files more

count-files : (count : ℕ) (hs : List Header) → count_files count hs ≡ (count + files hs == 1)
unfolding count_files files
count-files count [] = ground arith
count-files count (h ∷ more) = ground (arith, count-files count more, count-files (suc count) more)

module _ (join : Str → Str → Str) where
  length-add_targets :
      (dst : Str) (hs : List Header) (res : List Str)
      → length (add_targets join dst type_reg hs res) ≡ length res + files hs
  unfolding add_targets files
  length-add_targets dst [] res = ground arith
  length-add_targets dst (h ∷ more) res =
      let one = join dst h.name ∷ [] in
      ground (
        arith,
        length-add_targets dst more res,
        length-add_targets dst more (res ++ one),
        length-append res one,
      )

  -- An archive is a single-file archive exactly if GetTargetFileNames finds one name in it,
  -- whatever the folder is; one that cannot be read is none.
  pub is_single_file_archive_iff :
      (dst : Str) (archive : Option Listing)
      → is_single_file_archive archive ≡ (length (get_target_file_names join dst archive).0 == 1)
  unfolding is_single_file_archive get_target_file_names get_targets
  is_single_file_archive_iff dst none = refl
  is_single_file_archive_iff dst (some a) =
      count-files 0 a.headers ∙ ap (λ n. n == 1) (sym (length-add_targets dst a.headers []))

  any_of-last :
      (p : Str → Bool) (res : List Str) (t : Str) → any_of p (res ++ t ∷ []) ≡ (any_of p res || p t)
  unfolding any_of
  any_of-last p [] t = ground arith
  any_of-last p (x ∷ res) t = ground (arith, any_of-last p res t)

  -- A name that is listed was there before or is the one of an entry that the search finds.
  pub listed :
      (dst fname : Str) (typ : ℕ) (hs : List Header) (res : List Str)
      → any_of (λ t. str_eq t fname) (add_targets join dst typ hs res) ≡ true
      → any_of (λ t. str_eq t fname) res ≡ false
      → (h : Header) × (find_file join dst fname hs ≡ some h)
  unfolding add_targets find_file any_of
  listed dst fname typ [] res h h' = absurd (ground arith)
  listed dst fname typ (x ∷ more) res h h' =
      let t = join dst x.name in
      elim (Bool-cases (str_eq t fname)) [
        | inl e ↦ (x, ground arith)
        | inr e ↦
            let last = any_of-last (λ t. str_eq t fname) res t in
            let rest : (y : Header) × (find_file join dst fname more ≡ some y) =
              elim (Bool-cases (x.typeflag == typ)) [
                | inl e' ↦ listed dst fname typ more (res ++ t ∷ []) (ground arith) (ground arith)
                | inr e' ↦ listed dst fname typ more res (ground arith) h'
              ] in
            (rest.0, rw e (rest.1))
      ]

  -- Every name that GetTargetFileNames or GetTargetFolderNames lists for an archive is one that
  -- UnpackFile and GetFileMode find in it: both take the same entry, the first of the name, and the
  -- mode is returned without an error.
  pub get_targets-found :
      (dst fname : Str) (typ : ℕ) (a : Listing)
      → any_of (λ t. str_eq t fname) (get_targets join dst typ (some a)).0 ≡ true
      → (h : Header) × (get_file_mode join dst fname (some a) ≡ (h.mode, false))
        × (unpack_file join dst fname (some a) ≡ (h.content, h.torn))
  unfolding get_targets get_file_mode unpack_file any_of
  get_targets-found dst fname typ a h =
      let (x, e) = listed dst fname typ a.headers [] h refl in (x, ground arith, ground arith)
