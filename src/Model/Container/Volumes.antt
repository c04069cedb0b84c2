-- ===== src/Model/Container/Volumes.antt =====
-- The volumes of a container: internal/model/types/container.go.
use kubedock.Base.{
  Bool, false, not, ◌&&◌, List, [], ◌∷◌, Option, none, some, any_of, if◌then◌else◌, Str, str_eq,
  str_eq_instance,
}
use kubedock.Base.GoMap
use kubedock.Base.GoMap.{GoMap}
use kubedock.Base.Text.{codes, split}
use kubedock.Model.Container.{Container, Mount}

-- f[1] and f[0] of strings.Split(bind, ":"); `none` is the panic of an index out of range
unfoldable pub split_bind : Str → Option (Str × Str)
split_bind bind = elim (split b':' bind) [
  | [] ↦ none
  | src ∷ [] ↦ none
  | src ∷ dst ∷ opts ↦ some (dst, src)
]

unfoldable pub add_binds : List Str → GoMap Str Str → Option (GoMap Str Str)
unfolding split_bind
add_binds [] mounts = some mounts
add_binds (bind ∷ binds) mounts = elim (split_bind bind) [
  | none ↦ none
  | some (dst, src) ↦ add_binds binds (GoMap.insert dst src mounts)
]

unfoldable pub add_mounts : List Mount → GoMap Str Str → GoMap Str Str
add_mounts [] mounts = mounts
add_mounts (m ∷ ms) mounts = add_mounts ms (GoMap.insert m.target m.source mounts)

-- GetVolumes: target to source; `none` is a panic
unfoldable pub get_volumes : Container → Option (GoMap Str Str)
unfolding add_binds add_mounts
get_volumes co = elim (add_binds co.binds []) [
  | none ↦ none
  | some mounts ↦ some (add_mounts co.mounts mounts)
]

-- `stat` is os.Stat: whether the path is a folder, `none` for an error.
module _ (stat : Str → Option Bool) where
  unfoldable pub is_folder : Str → Bool
  is_folder src = elim (stat src) [ none ↦ false | some d ↦ d ]

  unfoldable pub is_file : Str → Bool
  is_file src = elim (stat src) [ none ↦ false | some d ↦ not d ]

  unfoldable pub keep_folders : GoMap Str Str → GoMap Str Str
  unfolding is_folder
  keep_folders [] = []
  keep_folders ((dst, src) ∷ m) =
      let rest = keep_folders m in if is_folder src then (dst, src) ∷ rest else rest

  unfoldable pub keep_files : GoMap Str Str → GoMap Str Str
  unfolding is_file
  keep_files [] = []
  keep_files ((dst, src) ∷ m) =
      let rest = keep_files m in
      if is_file src && not (str_eq dst (codes "/var/run/docker.sock"))
      then (dst, src) ∷ rest
      else rest

  -- GetVolumeFolders
  unfoldable pub get_volume_folders : Container → Option (GoMap Str Str)
  unfolding keep_folders
  get_volume_folders co = elim (get_volumes co) [ none ↦ none | some m ↦ some (keep_folders m) ]

  -- GetVolumeFiles
  unfoldable pub get_volume_files : Container → Option (GoMap Str Str)
  unfolding keep_files
  get_volume_files co = elim (get_volumes co) [ none ↦ none | some m ↦ some (keep_files m) ]

-- HasDockerSockBinding
unfoldable pub has_docker_sock_binding : Container → Option Bool
has_docker_sock_binding co = elim (get_volumes co) [
  | none ↦ none
  | some m ↦ some (any_of (λ e. str_eq e.0 (codes "/var/run/docker.sock")) m)
]
