-- ===== src/Server/Archive/Planned.antt =====
-- What PutArchive does with an archive for a container that is not started.
use kubedock.Base.{
  ℕ, ◌≡◌, ◌≢◌, refl, sym, ap, subst, ◌∙◌, inl, inr, true, false, List, [], ◌∷◌, ◌++◌, Option, none,
  some, is_nil, any_of, length, ◌==◌, Option-cases, ok, arith, Str, str_eq, str_eq_iff, str_eq_refl,
  str_eq_instance,
}
use kubedock.Base.GoMap
use kubedock.Base.GoMap.{GoMap}
use kubedock.Model.Container.{Container, PreArchive}
use kubedock.Model.Container.PreArchives.{File, file_of, add_files, get_pre_archive_files}
use kubedock.Model.Database.{get_container, save_container, with_id}
use kubedock.Model.Database.Tables.{Index, by_id, by_short_id, by_name, MemDb, IsMemDb}
use kubedock.Model.Database.Lookup.{container_key, container_keys}
use kubedock.Util.Tar.Entries.{
  Header, Listing, type_reg, find_file, unpack_file, get_file_mode, get_targets,
  get_target_file_names, is_single_file_archive,
}
use kubedock.Util.Tar.Found.{is_single_file_archive_iff, listed}
use kubedock.Backend.Interface.{Backend}
use kubedock.Backend.Remote.{Executor}
use kubedock.Server.World.{Config, World, save}
use kubedock.Server.Containers.{is_idle}
use kubedock.Server.Archive.{plain, put_found, put_archive}

module _ (list : Str → Option Listing) (join : Str → Str → Str) where
  add_files-none :
      (x : PreArchive) (xs : List PreArchive) (files : GoMap Str File)
      → file_of list join x ≡ none
      → add_files list join (x ∷ xs) files ≡ add_files list join xs files
  unfolding add_files
  add_files-none x xs files e = rw (add_files, e) refl

  add_files-some :
      (x : PreArchive) (xs : List PreArchive) (files : GoMap Str File) (f : Str) (file : File)
      → file_of list join x ≡ some (f, file)
      → add_files list join (x ∷ xs) files ≡ add_files list join xs (GoMap.insert f file files)
  unfolding add_files
  add_files-some x xs files f file e = rw (add_files, e) refl

  -- the archives are gone through one after the other
  add_files-last :
      (xs : List PreArchive) (pa : PreArchive) (files : GoMap Str File)
      → add_files list join (xs ++ pa ∷ []) files
        ≡ add_files list join (pa ∷ []) (add_files list join xs files)
  unfolding add_files
  add_files-last [] pa files = refl
  add_files-last (x ∷ xs) pa files = elim (Option-cases (file_of list join x)) [
    | inl e ↦
        add_files-none x (xs ++ pa ∷ []) files e
        ∙ add_files-last xs pa files
        ∙ ap (λ m. add_files list join (pa ∷ []) m) (sym (add_files-none x xs files e))
    | inr ((f, file), e) ↦
        add_files-some x (xs ++ pa ∷ []) files f file e
        ∙ add_files-last xs pa (GoMap.insert f file files)
        ∙ ap (λ m. add_files list join (pa ∷ []) m) (sym (add_files-some x xs files f file e))
  ]

names_nothing : (f : Str) → any_of (λ t. str_eq t f) [] ≡ false
unfolding any_of
names_nothing f = refl

last_inserted :
    (f : Str) (file : File) (m : GoMap Str File)
    → GoMap.lookup f (GoMap.insert f file m) ≡ some file
last_inserted f file m = GoMap.lookup-insert f f file m ∙ rw (str_eq_refl f) refl

names_itself : (f : Str) → any_of (λ t. str_eq t f) (f ∷ []) ≡ true
unfolding any_of
names_itself f = ground (arith, str_eq_iff f f)

-- a list of one
one-cases : {A : Type 0} (xs : List A) → (length xs == 1) ≡ true → (x : A) × (xs ≡ x ∷ [])
one-cases [] h = absurd (ground arith)
one-cases (x ∷ []) h = (x, refl)
one-cases (x ∷ y ∷ xs) h = absurd (ground arith)

module _ (list : Str → Option Listing) (join : Str → Str → Str) where
  file_of-at :
      (pa : PreArchive) (f : Str) (h : Header)
      → get_target_file_names join pa.path (list pa.archive) ≡ (f ∷ [], false)
      → unpack_file join pa.path f (list pa.archive) ≡ (h.content, false)
      → get_file_mode join pa.path f (list pa.archive) ≡ (h.mode, false)
      → file_of list join pa ≡ some (f, record { file_mode = h.mode; content = h.content })
  unfolding file_of
  file_of-at pa f h names content mode = rw (file_of, names, content, mode) refl

  found_at :
      (path f : Str) (a : Listing) (h : Header)
      → find_file join path f a.headers ≡ some h
      → h.torn ≡ false
      → (unpack_file join path f (some a) ≡ (h.content, false))
        × (get_file_mode join path f (some a) ≡ (h.mode, false))
  unfolding unpack_file get_file_mode
  found_at path f a h e whole = (rw (unpack_file, e, whole) refl, rw (get_file_mode, e) refl)

  names_at :
      (path : Str) (a : Listing) (fs : List Str)
      → (get_target_file_names join path (some a)).0 ≡ fs
      → a.is_eof ≡ true
      → get_target_file_names join path (some a) ≡ (fs, false)
  unfolding get_target_file_names get_targets
  names_at path a fs e eof = rw (get_target_file_names, get_targets, e, eof) refl

  -- the one file of an archive
  file_of-single :
      (path dat : Str) (a : Listing)
      → list dat ≡ some a
      → a.is_eof ≡ true
      → is_single_file_archive (some a) ≡ true
      → ((f : Str) (h : Header) → find_file join path f a.headers ≡ some h → h.torn ≡ false)
      → (f : Str) × (h : Header) × (find_file join path f a.headers ≡ some h)
        × (file_of list join (record { path = path; archive = dat })
            ≡ some (f, record { file_mode = h.mode; content = h.content }))
  unfolding get_target_file_names get_targets
  file_of-single path dat a lists eof single whole =
      let (f, e) =
        one-cases ((get_target_file_names join path (some a)).0)
          (sym (is_single_file_archive_iff join path (some a)) ∙ single) in
      let (h, found) =
        listed join path f type_reg a.headers []
          (subst (λ fs. any_of (λ t. str_eq t f) fs ≡ true) (sym e) (names_itself f))
          (names_nothing f) in
      let (content, mode) = found_at path f a h found (whole f h found) in
      (
        f,
        h,
        found,
        file_of-at (record { path = path; archive = dat }) f h
            (subst (λ l. get_target_file_names join path l ≡ (f ∷ [], false)) (sym lists)
              (names_at path a (f ∷ []) e eof))
            (subst (λ l. unpack_file join path f l ≡ (h.content, false)) (sym lists) content)
            (subst (λ l. get_file_mode join path f l ≡ (h.mode, false)) (sym lists) mode),
      )

  -- an archive that is added last gives its file
  archives-last :
      (co : Container) (pa : PreArchive) (f : Str) (file : File)
      → file_of list join pa ≡ some (f, file)
      → GoMap.lookup f (
          get_pre_archive_files list join (record co { pre_archives = co.pre_archives ++ pa ∷ [] }))
        ≡ some file
  unfolding get_pre_archive_files
  archives-last co pa f file e =
      ap (λ m. GoMap.lookup f m)
        (add_files-last list join co.pre_archives pa []
          ∙ add_files-some list join pa [] (add_files list join co.pre_archives []) f file e)
      ∙ last_inserted f file (add_files list join co.pre_archives [])

-- the archives are no keys
key-archives :
    (co : Container) (pas : List PreArchive)
    → ((i : Index) → container_key i co ≢ [])
    → (i : Index) → container_key i (record co { pre_archives = pas }) ≢ []
unfolding container_key
key-archives co pas full by_id = full by_id
key-archives co pas full by_short_id = full by_short_id
key-archives co pas full by_name = full by_name

is_nil-full : {A : Type 0} (s : List A) → s ≢ [] → is_nil s ≡ false
is_nil-full [] h = absurd (h refl)
is_nil-full (c ∷ s) h = refl

module _ {K : Type 0} (db : MemDb Container) (be : Backend K) (cli : Executor K) (cfg : Config)
    (fresh : Str) (now : ℕ) (list : Str → Option Listing) (join : Str → Str → Str)
    (laws : IsMemDb container_keys db) where
  save-found :
      (co : Container) (w : World db.Table K)
      → ((i : Index) → container_key i co ≢ [])
      → (t : db.Table) × (save db be cfg fresh now co w ≡ (record w { table = t }, false))
        × (db.first by_id co.id t ≡ ok (some co))
  unfolding save save_container with_id container_key
  save-found co w full =
      let (t, e) = laws.insert_succeeds co w.table full in
      (t, saved co w t e (full by_id), (laws.insert_id co w.table t e).0)
    where
      saved :
          (co : Container) (w : World db.Table K) (t : db.Table)
          → db.insert co w.table ≡ ok t
          → co.id ≢ []
          → save db be cfg fresh now co w ≡ (record w { table = t }, false)
      saved co w t e full = rw (save, save_container, with_id, is_nil-full co.id full, e) refl

  -- Where PutArchive keeps an archive for the start of a container that is not started.
  put_found-planned :
      (co : Container) (path dat : Str) (w : World db.Table K)
      → is_idle co ≡ true
      → cfg.pre_archive ≡ true
      → is_single_file_archive (list dat) ≡ true
      → ((i : Index) → container_key i co ≢ [])
      → let co' : Container = record co {
        pre_archives = co.pre_archives ++ record { path = path; archive = dat } ∷ [];
      } in
        (t : db.Table) × (put_found db be cli cfg fresh now list co path dat w
          ≡ (plain 200, record w { table = t }))
        × (db.first by_id co.id t ≡ ok (some co'))
  unfolding put_found container_key
  put_found-planned co path dat w idle wanted single full =
      let (t, saved, found) =
        save-found
          (record co {
            pre_archives = co.pre_archives ++ record { path = path; archive = dat } ∷ [];
          })
          w
          (key-archives co (co.pre_archives ++ record { path = path; archive = dat } ∷ []) full) in
      (t, rw (put_found, saved, idle, wanted, single) refl, found)

  -- If the container is found, has no empty key and is neither running nor completed, pre-archives
  -- are wanted, and the archive is read to its io.EOF, has one regular file, and no entry of it that
  -- is found by a name breaks off: then a put at a path is answered with 200 and leaves the cluster
  -- alone, and GetPreArchiveFiles of the container that its id then finds maps a name of the archive
  -- to the bytes and the mode of the entry of that name.
  pub put-planned :
      (id path dat : Str) (co : Container) (a : Listing) (w : World db.Table K)
      → path ≢ []
      → get_container db id w.table ≡ ok co
      → ((i : Index) → container_key i co ≢ [])
      → is_idle co ≡ true
      → cfg.pre_archive ≡ true
      → list dat ≡ some a
      → a.is_eof ≡ true
      → is_single_file_archive (some a) ≡ true
      → ((f : Str) (h : Header) → find_file join path f a.headers ≡ some h → h.torn ≡ false)
      → let (answer, w') = put_archive db be cli cfg fresh now list id path (some dat) w in
        (answer ≡ plain 200)
        × (w'.cluster ≡ w.cluster)
        × (co' : Container) × (f : Str) × (h : Header) × (db.first by_id co.id w'.table
            ≡ ok (some co'))
        × (find_file join path f a.headers ≡ some h)
        × (GoMap.lookup f (get_pre_archive_files list join co')
            ≡ some (record { file_mode = h.mode; content = h.content }))
  unfolding put_archive
  put-planned id path dat co a w given there full idle wanted lists eof single whole =
      let pa : PreArchive = record { path = path; archive = dat } in
      let (t, put, found) =
        put_found-planned co path dat w idle wanted
          (subst (λ l. is_single_file_archive l ≡ true) (sym lists) single) full in
      let (f, h, entry, file) = file_of-single list join path dat a lists eof single whole in
      rw (put_archive, is_nil-full path given, there, put)
        (
          refl,
          refl,
          record co { pre_archives = co.pre_archives ++ pa ∷ [] },
          f,
          h,
          found,
          entry,
          archives-last list join co pa f (record { file_mode = h.mode; content = h.content }) file,
        )
