-- ===== src/Server/Archive.antt =====
-- internal/server/routes/common/archive.go: files to and from a container.
pub mod Planned
pub mod Tests
use kubedock.Base.{
  ℕ, ◌-◌, Bool, true, false, ◌&&◌, not, List, [], ◌∷◌, ◌++◌, Option, none, some, is_nil, take,
  length, replicate, if◌then◌else◌, Result, ok, err, Str,
}
use kubedock.Model.Error.{Error}
use kubedock.Model.Container.{Container}
use kubedock.Model.Database.{get_container}
use kubedock.Model.Database.Tables.{MemDb}
use kubedock.Util.Tar.{is_compressed}
use kubedock.Util.Tar.Entries.{Listing, is_single_file_archive, get_tar_size}
use kubedock.Backend.Interface.{Backend}
use kubedock.Backend.Remote.{
  Executor, copy_to_container, copy_from_container, file_exists_in_container,
  get_file_mode_in_container,
}
use kubedock.Server.World.{Config, World, save, start_container}
use kubedock.Server.Containers.{is_idle}

-- The answers: a status alone, the mode of HeadArchive, the bytes of GetArchive.
pub data Answer : Type 0 where
  plain : ℕ → Answer
  mode : ℕ → Answer
  archive : Str → Answer

-- archive[:5]; io.ReadAll returns a slice of 512 bytes or more, which are zeros behind its length
unfoldable pub front : Str → Str
front dat = take 5 (dat ++ replicate (5 - length dat) 0)

-- `list` is what a tar reader makes of an archive.
module _ {K : Type 0} (db : MemDb Container) (be : Backend K) (cli : Executor K) (cfg : Config)
    (fresh : Str) (now : ℕ) (list : Str → Option Listing) where
  -- The end of PutArchive, the copy. The name of the pod is not changed by a start. A panic is
  -- answered with 500.
  unfoldable pub copy_end : Container → Str → Str → World db.Table K → Answer × World db.Table K
  unfolding front
  copy_end co path dat w =
      elim (copy_to_container cli co dat path (is_compressed (front dat)) w.cluster) [
        | none ↦ (plain 500, w)
        | some (k, bad) ↦ (plain (if bad then 500 else 200), record w { cluster = k })
      ]

  -- PutArchive for a container that was found and a body that was read.
  unfoldable pub put_found : Container → Str → Str → World db.Table K → Answer × World db.Table K
  unfolding is_idle copy_end
  put_found co path dat w =
      if is_idle co && cfg.pre_archive && is_single_file_archive (list dat)
      then (let planned : Container = record co {
        pre_archives = co.pre_archives ++ record { path = path; archive = dat } ∷ [];
      } in
          let (w', bad) = save db be cfg fresh now planned w in
          (plain (if bad then 500 else 200), w'))
      else if is_idle co && not cfg.pre_archive
      then (let (w', bad) = start_container db be cfg fresh now co w in
          if bad then (plain 500, w') else copy_end co path dat w')
      else copy_end co path dat w

  -- PutArchive; a body that cannot be read is none
  unfoldable pub put_archive : Str → Str → Option Str → World db.Table K → Answer × World db.Table K
  unfolding put_found
  put_archive id path body w =
      if is_nil path then (plain 400, w) else (elim (get_container db id w.table) [
        | err e ↦ (plain 404, w)
        | ok co ↦ elim body [ none ↦ (plain 404, w) | some dat ↦ put_found co path dat w ]
      ])

  -- How HeadArchive and GetArchive begin: the container, the path, and whether the file is there.
  unfoldable pub with_file :
      (Container → World db.Table K → Answer × World db.Table K)
      → Str
      → Str
      → World db.Table K
      → Answer × World db.Table K
  with_file f id path w = elim (get_container db id w.table) [
    | err e ↦ (plain 404, w)
    | ok co ↦
        if is_nil path
        then (plain 400, w)
        else (let (k, exists) = file_exists_in_container cli co path w.cluster in
            let w1 = record w { cluster = k } in
            elim exists [
              | none ↦ (plain 500, w1)
              | some there ↦ if there then f co w1 else (plain 404, w1)
            ])
  ]

  -- HeadArchive
  unfoldable pub head_archive : Str → Str → World db.Table K → Answer × World db.Table K
  unfolding with_file
  head_archive id path w =
      with_file
        (λ co w1.
          let (k, m) = get_file_mode_in_container cli co path w1.cluster in
          let w2 = record w1 { cluster = k } in
          (elim m [ none ↦ plain 500 | some bits ↦ mode bits ], w2))
        id path w

  -- GetArchive; `dir` and `base` are path.Dir and path.Base
  unfoldable pub get_archive :
      (Str → Str) → (Str → Str) → Str → Str → World db.Table K → Answer × World db.Table K
  unfolding with_file
  get_archive dir base id path w =
      with_file
        (λ co w1.
          let (k, dat, bad) = copy_from_container cli dir base co path w1.cluster in
          let w2 = record w1 { cluster = k } in
          let (size, torn) = get_tar_size (list dat) in
          if bad
          then (plain 500, w2)
          else if torn
          then (plain 500, w2)
          else (archive (take size dat), w2))
        id path w
