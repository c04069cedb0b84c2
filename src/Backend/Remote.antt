-- ===== src/Backend/Remote.antt =====
-- internal/backend/copy.go and ExecContainer of internal/backend/exec.go, over RemoteCmd of
-- internal/util/exec/exec.go: commands in the container of a pod.
pub mod Shell
pub mod ExitCode
pub mod Tests
use kubedock.Base.{
  ℕ, ◌+◌, Bool, true, false, ◌&&◌, not, List, [], ◌∷◌, ◌++◌, Option, none, some, ◌==◌, length,
  if◌then◌else◌, Str, str_eq,
}
use kubedock.Base.Int.{ℤ, pos}
use kubedock.Base.Text.{codes, contains, trim_prefix, replace_with, parse_int64}
use kubedock.Model.Container.{Container}
use kubedock.Model.Container.PodName.{get_pod_name}
use kubedock.Model.Records.{Exec}

-- Where a stream of a command goes: nowhere (nil), away (io.Discard), to the caller's writer as it
-- is, or there in the frames of a Stdout or a Stderr of ioproxy.
pub data Sink : Type 0 where
  no_sink discard plain framed_stdout framed_stderr : Sink

-- Request; the reader of Stdin is the bytes that it gives.
pub record Request : Type 0 where
  pub pod : Str
  pub container : Str
  pub cmd : List Str
  pub stdin : Option Str
  pub stdout : Sink
  pub stderr : Sink
  pub tty : Bool

-- PodExecOptions
pub record PodExecOptions : Type 0 where
  pub container : Str
  pub command : List Str
  pub stdin : Bool
  pub stdout : Bool
  pub stderr : Bool
  pub tty : Bool

-- The client over the state `K` of the cluster: whether the pod is there, and the executor, which
-- returns the bytes on stdout and the text of its error.
pub record Executor (K : Type 0) : Type 0 where
  pub has_pod : Str → K → Bool
  pub stream : Str → PodExecOptions → Option Str → K → K × Str × Option Str

abbrev pub is_some : {A : Type 0} → Option A → Bool
is_some none = false
is_some (some a) = true

abbrev pub is_open : Sink → Bool
is_open no_sink = false
is_open _ = true

-- the options of RemoteCmd
unfoldable pub exec_options : Request → PodExecOptions
exec_options req = record {
  container = req.container;
  command = req.cmd;
  stdin = is_some req.stdin;
  stdout = is_open req.stdout;
  stderr = is_open req.stderr;
  tty = is_some req.stdin && req.tty;
}

-- sanitizeFilename
unfoldable pub sanitize_filename : Str → Str
unfolding replace_with
sanitize_filename file =
    replace_with b'"' (b'\\' ∷ b'"' ∷ []) (replace_with b'$' [] (replace_with b'`' [] file))

-- The target of CopyToContainer without a '/' at its end; none for the panic on an empty target.
unfoldable pub trim_slash : Str → Option Str
trim_slash [] = none
trim_slash (c ∷ []) = some (c ∷ [])
trim_slash (c ∷ d ∷ s) = elim (trim_slash (d ∷ s)) [
  | none ↦ none
  | some rest ↦ some (c ∷ (if str_eq (d ∷ s) (b'/' ∷ []) then [] else rest))
]

-- a request without streams for the container of a pod
unfoldable pub request : Container → List Str → Request
unfolding get_pod_name
request tainr cmd = record {
  pod = get_pod_name tainr;
  container = codes "main";
  cmd = cmd;
  stdin = none;
  stdout = no_sink;
  stderr = no_sink;
  tty = false;
}

-- the script of GetFileModeInContainer and of FileExistsInContainer
unfoldable pub script : Str → Str → Str → Str → Str
unfolding codes sanitize_filename
script test target positive negative =
    codes "if [ "
    ++ test
    ++ codes " \""
    ++ sanitize_filename target
    ++ codes "\" ]; then echo "
    ++ positive
    ++ codes "; else echo "
    ++ negative
    ++ codes "; fi"

abbrev pub mode_perm : ℕ
mode_perm = 511

-- fs.ModeDir, the highest of 32 bits
abbrev pub mode_dir : ℕ
mode_dir = 2147483648

-- the words of an exit with a code that is not 0
abbrev pub eterm : Str
eterm = codes "command terminated with exit code"

-- parseExecResponse: the exit code, and whether there is an error
unfoldable pub parse_exec_response : Option Str → ℤ × Bool
unfolding contains trim_prefix
parse_exec_response none = (pos 0, false)
parse_exec_response (some e) =
    if not (contains e eterm)
    then (pos 0, true)
    else (elim (parse_int64 (trim_prefix e (eterm ++ codes " "))) [
      | none ↦ (pos 0, true)
      | some cod ↦ (cod, false)
    ])

module _ {K : Type 0} (ex : Executor K) where
  -- RemoteCmd, for the pod that Get returns; the error of Get is an error of the command.
  unfoldable pub remote_cmd : Request → K → K × Str × Option Str
  unfolding exec_options
  remote_cmd req k = ex.stream req.pod (exec_options req) req.stdin k

  -- CopyToContainer; none for a panic
  unfoldable pub copy_to_container : Container → Str → Str → Bool → K → Option (K × Bool)
  unfolding request
  copy_to_container tainr archive target compressed k =
      if not (ex.has_pod (get_pod_name tainr) k)
      then some (k, true)
      else (elim (trim_slash target) [
        | none ↦ none
        | some target' ↦
            let cmpflag = if compressed then codes "z" else [] in
            let cmd =
              codes "tar"
              ∷ (codes "-x" ++ cmpflag ++ codes "f")
              ∷ codes "-"
              ∷ codes "-C"
              ∷ target'
              ∷ [] in
            let (k', out, e) = remote_cmd (record (request tainr cmd) { stdin = some archive }) k in
            some (k', is_some e)
      ])

  -- CopyFromContainer; `dir` and `base` are path.Dir and path.Base
  unfoldable pub copy_from_container :
      (Str → Str) → (Str → Str) → Container → Str → K → K × Str × Bool
  unfolding request
  copy_from_container dir base tainr target k =
      if not (ex.has_pod (get_pod_name tainr) k)
      then (k, [], true)
      else (let cmd =
            codes "tar" ∷ codes "-cf" ∷ codes "-" ∷ codes "-C" ∷ dir target ∷ base target ∷ [] in
          let (k', out, e) = remote_cmd (record (request tainr cmd) { stdout = plain }) k in
          (k', out, is_some e))

  -- sh -c with the script: what it prints, none for an error
  unfoldable pub run_script : Container → Str → K → K × Option Str
  unfolding request
  run_script tainr text k =
      if not (ex.has_pod (get_pod_name tainr) k)
      then (k, none)
      else (let cmd = codes "sh" ∷ codes "-c" ∷ text ∷ [] in
          let (k', out, e) = remote_cmd (record (request tainr cmd) { stdout = plain }) k in
          (k', (if is_some e then none else some out)))

  -- GetFileModeInContainer; none for an error
  unfoldable pub get_file_mode_in_container : Container → Str → K → K × Option ℕ
  unfolding run_script script
  get_file_mode_in_container tainr target k =
      let (k', out) =
        run_script tainr (script (codes "-d") target (codes "folder") (codes "file")) k in
      (
        k',
        elim out [
          | none ↦ none
          | some b ↦ some (if contains b (codes "folder") then mode_perm + mode_dir else mode_perm)
        ],
      )

  -- FileExistsInContainer; none for an error
  unfoldable pub file_exists_in_container : Container → Str → K → K × Option Bool
  unfolding run_script script
  file_exists_in_container tainr target k =
      let (k', out) =
        run_script tainr (script (codes "-e") target (codes "true") (codes "false")) k in
      (k', elim out [ none ↦ none | some b ↦ some (contains b (codes "true")) ])

-- the request of ExecContainer; the ends of its streams are flushed behind the command
unfoldable pub exec_request : Container → Exec → Option Str → Request
unfolding request
exec_request tainr ex stdin = record (request tainr ex.cmd) {
  tty = ex.tty;
  stdin = if ex.stdin then stdin else none;
  stdout = if ex.tty then plain else if ex.stdout then framed_stdout else no_sink;
  stderr = if ex.tty then discard else if ex.stderr then framed_stderr else no_sink;
}

module _ {K : Type 0} (cli : Executor K) where
  -- ExecContainer: the exit code, and whether there is an error
  unfoldable pub exec_container : Container → Exec → Option Str → K → K × ℤ × Bool
  unfolding exec_request remote_cmd parse_exec_response
  exec_container tainr ex stdin k =
      if not (cli.has_pod (get_pod_name tainr) k)
      then (k, pos 0, true)
      else (let (k', out, e) = remote_cmd cli (exec_request tainr ex stdin) k in
          let (code, bad) = parse_exec_response e in (k', code, bad))
