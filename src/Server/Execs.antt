-- ===== src/Server/Execs.antt =====
-- internal/server/routes/common/exec.go: commands in running containers.
pub mod Ended
pub mod Life
pub mod Tests
use kubedock.Base.{
  ℕ, Bool, true, false, ◌&&◌, not, List, [], ◌∷◌, Option, none, some, is_nil, if◌then◌else◌, Result,
  ok, err, Str,
}
use kubedock.Base.Int.{ℤ, pos}
use kubedock.Model.Error.{Error}
use kubedock.Model.Container.{Container}
use kubedock.Model.Records.{Exec}
use kubedock.Model.Database.{get_container, get_exec, save_exec}
use kubedock.Model.Database.Tables.{MemDb}
use kubedock.Backend.Remote.{Executor, exec_container}

pub record ContainerExecRequest : Type 0 where
  pub cmd : List Str
  pub stdin : Bool
  pub stdout : Bool
  pub stderr : Bool
  pub tty : Bool
  pub env : List Str

pub record ExecStartRequest : Type 0 where
  pub detach : Bool
  pub tty : Bool

-- The answer of ExecInfo; `running` and `entrypoint` are constants.
pub record ExecJson : Type 0 where
  pub id : Str
  pub open_stderr : Bool
  pub open_stdin : Bool
  pub open_stdout : Bool
  pub running : Bool
  pub exit_code : ℤ
  pub tty : Bool
  pub arguments : List Str
  pub entrypoint : Str

-- What the handlers work on.
pub record ExecWorld (T E K : Type 0) : Type 0 where
  pub containers : T
  pub execs : E
  pub cluster : K

-- The goroutine of a detached start, with the pointers that it holds.
pub record Job : Type 0 where
  pub tainr : Container
  pub exec : Exec

-- The exec of a request for the container that is called `id`; it has no id yet. Where no output is
-- attached, stdout is.
unfoldable pub new_exec : ContainerExecRequest → Str → Exec
new_exec req id = record {
  id = [];
  container_id = id;
  cmd = req.cmd;
  tty = req.tty;
  stdin = req.stdin;
  stdout = if not req.stdout && not req.stderr then true else req.stdout;
  stderr = req.stderr;
  exit_code = pos 0;
  created = 0;
}

-- `fresh` and `now` are what GenerateRandomID and time.Now return, if they are called.
module _ {K : Type 0} (db : MemDb Container) (exs : MemDb Exec) (cli : Executor K) (fresh : Str)
    (now : ℕ) where
  -- ContainerExec: the status, and the id of the new exec; a body that cannot be decoded is none.
  unfoldable pub container_exec :
      Option ContainerExecRequest
      → Str
      → ExecWorld db.Table exs.Table K
      → (ℕ × Option Str) × ExecWorld db.Table exs.Table K
  unfolding new_exec
  container_exec none id w = ((500, none), w)
  container_exec (some req) id w =
      if not (is_nil req.env) then ((400, none), w) else (elim (get_container db id w.containers) [
        | err e ↦ ((404, none), w)
        | ok tainr ↦ elim (save_exec exs fresh now (new_exec req id) w.execs) [
          | err e ↦ ((500, none), w)
          | ok (exec, t) ↦ ((201, some exec.id), record w { execs = t })
        ]
      ])

  -- The command of an exec, and the save of its exit code, which is written through the pointer.
  unfoldable pub run_exec :
      Option Str → Job → ExecWorld db.Table exs.Table K → ExecWorld db.Table exs.Table K
  run_exec input job w =
      let (k, code, bad) = exec_container cli job.tainr job.exec input w.cluster in
      let w1 = record w { cluster = k } in
      if bad
      then w1
      else (let exec : Exec = record job.exec { exit_code = code } in
          elim (save_exec exs fresh now exec w.execs) [
            | err e ↦ record w1 { execs = exs.poke exec w.execs }
            | ok (exec', t) ↦ record w1 { execs = t }
          ])

  -- ExecStart: the status, the state, and the goroutine that it starts, if it does. `hijacked` is
  -- the input of the connection, none for the error of HijackConnection. The status of an attached
  -- start is written before anything is done.
  unfoldable pub exec_start :
      Option ExecStartRequest
      → Str
      → Option Str
      → ExecWorld db.Table exs.Table K
      → ℕ × ExecWorld db.Table exs.Table K × Option Job
  unfolding run_exec
  exec_start none id hijacked w = (500, w, none)
  exec_start (some req) id hijacked w = elim (get_exec exs id w.execs) [
    | err e ↦ (404, w, none)
    | ok exec ↦ elim (get_container db exec.container_id w.containers) [
      | err e ↦ (404, w, none)
      | ok tainr ↦
          let job : Job = record { tainr = tainr; exec = exec } in
          if req.detach then (200, w, some job) else (elim hijacked [
            | none ↦ (200, w, none)
            | some input ↦ (200, run_exec (some input) job w, none)
          ])
    ]
  ]

  -- the goroutine of a detached start, when it runs; it has no input
  unfoldable pub run_detached :
      Job → ExecWorld db.Table exs.Table K → ExecWorld db.Table exs.Table K
  unfolding run_exec
  run_detached job w = run_exec none job w

-- ExecInfo; none for the status 404
unfoldable pub exec_info : (exs : MemDb Exec) → Str → exs.Table → Option ExecJson
exec_info exs id t = elim (get_exec exs id t) [
  | err e ↦ none
  | ok exec ↦ some (record {
    id = id;
    open_stderr = exec.stderr;
    open_stdin = exec.stdin;
    open_stdout = exec.stdout;
    running = false;
    exit_code = exec.exit_code;
    tty = exec.tty;
    arguments = exec.cmd;
    entrypoint = [];
  })
]

-- ExecResize: the status
unfoldable pub exec_resize : (exs : MemDb Exec) → Str → exs.Table → ℕ
exec_resize exs id t = elim (get_exec exs id t) [ err e ↦ 404 | ok exec ↦ 200 ]
