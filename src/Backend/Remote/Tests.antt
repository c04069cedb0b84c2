-- ===== src/Backend/Remote/Tests.antt =====
-- A path that is asked for, and what a shell reads of it.
use kubedock.Base.{
  str_eq, ℕ, suc, ◌+◌, ◌≡◌, refl, true, false, [], ◌∷◌, ◌++◌, some, none, Str, any_of,
}
use kubedock.Base.Text.{codes, contains}
use kubedock.Model.Container.{blank}
use kubedock.Backend.Remote.{
  remote_cmd, Executor, sanitize_filename, trim_slash, copy_to_container, file_exists_in_container,
  get_file_mode_in_container, mode_perm, mode_dir,
}
use kubedock.Backend.Remote.Shell.{quoted, without_expansions, sanitize_filename_lem}

-- Every command prints the same; the state counts the commands.
abbrev printing : Str → Executor ℕ
printing out = record {
  has_pod = λ name k. true;
  stream = λ name options input k. (suc k, out, none);
}

exists : file_exists_in_container (printing (codes "true")) blank (codes "/tmp") 0 ≡ (1, some true)
unfolding file_exists_in_container remote_cmd contains
exists = refl

is_folder :
    get_file_mode_in_container (printing (codes "folder")) blank (codes "/tmp") 0
    ≡ (1, some (mode_perm + mode_dir))
unfolding get_file_mode_in_container remote_cmd contains
is_folder = refl

trimmed : trim_slash (codes "/tmp/") ≡ some (codes "/tmp")
unfolding trim_slash codes str_eq
trimmed = refl

root : trim_slash (codes "/") ≡ some (codes "/")
unfolding trim_slash codes
root = refl

copied : copy_to_container (printing []) blank [] (codes "/tmp/") true 0 ≡ some (1, false)
unfolding copy_to_container trim_slash codes remote_cmd
copied = refl

sanitize_filename_lem_example :
    (quoted false (sanitize_filename (codes "/tmp/$(ls)\"x") ++ b'"' ∷ codes " ]")
      ≡ some (without_expansions (codes "/tmp/$(ls)\"x"), codes " ]"))
    × (quoted false (sanitize_filename (b'\\' ∷ b'"' ∷ codes "; reboot #") ++ b'"' ∷ codes " ]")
        ≡ some (b'\\' ∷ [], sanitize_filename (codes "; reboot #") ++ b'"' ∷ codes " ]"))
unfolding any_of codes
sanitize_filename_lem_example =
    sanitize_filename_lem (codes "/tmp/$(ls)\"x") (codes "; reboot #") (codes " ]") refl
