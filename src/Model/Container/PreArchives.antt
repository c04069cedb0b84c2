-- ===== src/Model/Container/PreArchives.antt =====
-- GetPreArchiveFiles of internal/model/types/container.go.
use kubedock.Base.{ℕ, List, [], ◌∷◌, Option, none, some, if◌then◌else◌, Str, str_eq_instance}
use kubedock.Base.GoMap
use kubedock.Base.GoMap.{GoMap}
use kubedock.Util.Tar.Entries.{Listing, get_target_file_names, unpack_file, get_file_mode}
use kubedock.Model.Container.{Container, PreArchive}

pub record File : Type 0 where
  pub file_mode : ℕ
  pub content : Str

-- `list` is what a tar reader makes of an archive; `join` is filepath.Join.
module _ (list : Str → Option Listing) (join : Str → Str → Str) where
  -- The file of one archive; none where the loop goes on without one.
  unfoldable pub file_of : PreArchive → Option (Str × File)
  file_of pa =
      let (fls, bad) = get_target_file_names join pa.path (list pa.archive) in
      if bad then none else (elim fls [
        | [] ↦ none
        | f ∷ g ∷ more ↦ none
        | f ∷ [] ↦
            let (dat, torn) = unpack_file join pa.path f (list pa.archive) in
            let (mode, lost) = get_file_mode join pa.path f (list pa.archive) in
            if torn
            then none
            else if lost
            then none
            else some (f, record { file_mode = mode; content = dat })
      ])

  unfoldable pub add_files : List PreArchive → GoMap Str File → GoMap Str File
  unfolding file_of
  add_files [] files = files
  add_files (pa ∷ more) files = elim (file_of pa) [
    | none ↦ add_files more files
    | some (f, file) ↦ add_files more (GoMap.insert f file files)
  ]

  -- GetPreArchiveFiles; each list of files has one
  unfoldable pub get_pre_archive_files : Container → GoMap Str File
  unfolding add_files
  get_pre_archive_files co = add_files co.pre_archives []
