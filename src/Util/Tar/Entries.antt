-- ===== src/Util/Tar/Entries.antt =====
-- The functions of internal/util/tar/tar.go that go through the entries of an archive.
use kubedock.Base.{
  ℕ, suc, Bool, true, false, List, [], ◌∷◌, ◌++◌, Option, none, some, if◌then◌else◌, ltb, ◌==◌, Str,
  str_eq,
}

-- What the functions use of tar.Header, and what a copy of the entry's bytes gives: the bytes that
-- are written before an error, if there is one.
pub record Header : Type 0 where
  pub name : Str
  pub typeflag : ℕ
  pub mode : ℕ
  pub content : Str
  pub torn : Bool

-- What a Reader gives: the headers that Next returns one after the other (the library never returns
-- neither a header nor an error), whether the error after them is io.EOF, and the bytes read when
-- all entries are read.
pub record Listing : Type 0 where
  pub headers : List Header
  pub is_eof : Bool
  pub read_bytes : ℕ

-- tar.TypeReg and tar.TypeDir
abbrev pub type_reg : ℕ
type_reg = b'0'

abbrev pub type_dir : ℕ
type_dir = b'5'

-- `join` is filepath.Join. An archive is what NewReader and Next make of it; `none` is the error of
-- NewReader. The flag of a result is its error.
module _ (join : Str → Str → Str) where
  -- The loop of UnpackFile and of GetFileMode: the first entry of the name.
  unfoldable pub find_file : Str → Str → List Header → Option Header
  find_file dst fname [] = none
  find_file dst fname (h ∷ more) =
      let rest = find_file dst fname more in if str_eq (join dst h.name) fname then some h else rest

  -- UnpackFile: what is written to `dest`
  unfoldable pub unpack_file : Str → Str → Option Listing → Str × Bool
  unfolding find_file
  unpack_file dst fname none = ([], true)
  unpack_file dst fname (some a) = elim (find_file dst fname a.headers) [
    | none ↦ ([], true)
    | some h ↦ (h.content, h.torn)
  ]

  -- GetFileMode
  unfoldable pub get_file_mode : Str → Str → Option Listing → ℕ × Bool
  unfolding find_file
  get_file_mode dst fname none = (0, true)
  get_file_mode dst fname (some a) = elim (find_file dst fname a.headers) [
    | none ↦ (0, true)
    | some h ↦ (h.mode, false)
  ]

  -- The loop of getTargets.
  unfoldable pub add_targets : Str → ℕ → List Header → List Str → List Str
  add_targets dst typ [] res = res
  add_targets dst typ (h ∷ more) res =
      let skipped = add_targets dst typ more res in
      let added = add_targets dst typ more (res ++ join dst h.name ∷ []) in
      if h.typeflag == typ then added else skipped

  -- getTargets
  unfoldable pub get_targets : Str → ℕ → Option Listing → List Str × Bool
  unfolding add_targets
  get_targets dst typ none = ([], true)
  get_targets dst typ (some a) =
      (add_targets dst typ a.headers [], if a.is_eof then false else true)

  -- GetTargetFolderNames
  unfoldable pub get_target_folder_names : Str → Option Listing → List Str × Bool
  unfolding get_targets
  get_target_folder_names dst archive = get_targets dst type_dir archive

  -- GetTargetFileNames
  unfoldable pub get_target_file_names : Str → Option Listing → List Str × Bool
  unfolding get_targets
  get_target_file_names dst archive = get_targets dst type_reg archive

-- The loop of IsSingleFileArchive, with the regular files counted so far.
unfoldable pub count_files : ℕ → List Header → Bool
count_files count [] = count == 1
count_files count (h ∷ more) =
    let skipped = count_files count more in
    let counted = count_files (suc count) more in
    if ltb count 2 then (if h.typeflag == type_reg then counted else skipped) else count == 1

-- IsSingleFileArchive
unfoldable pub is_single_file_archive : Option Listing → Bool
unfolding count_files
is_single_file_archive none = false
is_single_file_archive (some a) = count_files 0 a.headers

-- GetTarSize
unfoldable pub get_tar_size : Option Listing → ℕ × Bool
get_tar_size none = (0, true)
get_tar_size (some a) = (a.read_bytes, if a.is_eof then false else true)
