-- ===== src/Server/Execs/Ended.antt =====
-- Execs in the table, and commands that end with an exit code.
use kubedock.Base.{
  ℕ, ◌≡◌, ◌≢◌, refl, sym, subst, true, false, [], ◌∷◌, Option, some, is_nil, if◌then◌else◌, Result,
  ok, err, Str,
}
use kubedock.Base.Int.{ℤ}
use kubedock.Base.Text.Decimal.Parsed.{is_int64}
use kubedock.Model.Error.{Error}
use kubedock.Model.Container.{Container}
use kubedock.Model.Container.PodName.{get_pod_name}
use kubedock.Model.Records.{Exec}
use kubedock.Model.Database.{get_container, get_exec, save_exec, first_or_error}
use kubedock.Model.Database.Tables.{by_id, MemDb, IsMemDb}
use kubedock.Model.Database.Lookup.{exec_key, exec_keys}
use kubedock.Backend.Remote.{Executor, exec_options, exec_request, exec_container, remote_cmd}
use kubedock.Backend.Remote.ExitCode.{exit_text, parse_exec_response-exit_text}
use kubedock.Server.Execs.{
  ContainerExecRequest, ExecJson, ExecWorld, Job, new_exec, container_exec, run_exec, exec_info,
}

-- A command ends with an exit code: the pod is there, and the executor returns no error for the code
-- 0, and for another the error that client-go makes of it.
unfoldable pub EndsWith : {K : Type 0} → Executor K → Container → Exec → Option Str → K → ℤ → Type 0
EndsWith cli tainr exec input k code =
    let req = exec_request tainr exec input in
    (cli.has_pod (get_pod_name tainr) k ≡ true)
    × ((cli.stream req.pod (exec_options req) req.stdin k).2 ≡ exit_text code)

-- the exec that a request makes
unfoldable pub made : ContainerExecRequest → Str → Str → ℕ → Exec
made req id fresh now = record (new_exec req id) { id = fresh; created = now }

-- what ExecInfo answers for it
unfoldable pub described : Exec → ExecJson
described exec = record {
  id = exec.id;
  open_stderr = exec.stderr;
  open_stdin = exec.stdin;
  open_stdout = exec.stdout;
  running = false;
  exit_code = exec.exit_code;
  tty = exec.tty;
  arguments = exec.cmd;
  entrypoint = [];
}

is_nil-false : {s : Str} → s ≢ [] → is_nil s ≡ false
is_nil-false {s = []} h = absurd (h refl)
is_nil-false {s = c ∷ s} h = refl

module _ {K : Type 0} (cli : Executor K) where
  exec_container-ends :
      (tainr : Container) (exec : Exec) (input : Option Str) (k : K) (code : ℤ)
      → is_int64 code ≡ true
      → EndsWith cli tainr exec input k code
      → (k' : K) × (exec_container cli tainr exec input k ≡ (k', code, false))
  unfolding exec_container remote_cmd EndsWith
  exec_container-ends tainr exec input k code small (pod, e) =
      let req = exec_request tainr exec input in
      let k' = (cli.stream req.pod (exec_options req) req.stdin k).0 in
      (k', rw (pod, e, parse_exec_response-exit_text code small) refl)

module _ {K : Type 0} (db : MemDb Container) (exs : MemDb Exec) (cli : Executor K) (fresh : Str)
    (now : ℕ) (laws : IsMemDb exec_keys exs) where
  get_exec-found :
      (exec : Exec) (t : exs.Table)
      → exs.first by_id exec.id t ≡ ok (some exec)
      → get_exec exs exec.id t ≡ ok exec
  unfolding get_exec first_or_error
  get_exec-found exec t e = rw (get_exec, first_or_error, e) refl

  inserted :
      (exec : Exec) (t : exs.Table)
      → exec.id ≢ []
      → (t' : exs.Table) × (exs.insert exec t ≡ ok t') × (get_exec exs exec.id t' ≡ ok exec)
  unfolding exec_key
  inserted exec t full =
      let (t', e) = laws.insert_succeeds exec t (λ i. full) in
      (t', e, get_exec-found exec t' ((laws.insert_id exec t t' e).0))

  -- the insert of save_exec
  unfoldable Saves : Exec → exs.Table → Exec → exs.Table → Type 0
  Saves x t exec t' =
      let r : Result Error (Exec × exs.Table) = elim (exs.insert x t) [
        | err e ↦ err e
        | ok t1 ↦ ok (x, t1)
      ] in
      r ≡ ok (exec, t')

  insert-at :
      (x exec : Exec) (t t' : exs.Table) → x ≡ exec → exs.insert exec t ≡ ok t' → Saves x t exec t'
  unfolding Saves
  insert-at x exec t t' same e = subst (λ y. Saves y t exec t') (sym same) (rw (Saves, e) refl)

  kept :
      (exec : Exec)
      → exec.id ≢ []
      → (if is_nil exec.id then record exec { id = fresh; created = now } else exec) ≡ exec
  kept exec full = rw (is_nil-false full) refl

  save_exec-found :
      (exec : Exec) (t : exs.Table)
      → exec.id ≢ []
      → (t' : exs.Table) × (save_exec exs fresh now exec t ≡ ok (exec, t'))
        × (get_exec exs exec.id t' ≡ ok exec)
  unfolding save_exec Saves
  save_exec-found exec t full =
      let (t', e, found) = inserted exec t full in
      (t', insert-at _ exec t t' (kept exec full) e, found)

  create_found :
      (req : ContainerExecRequest) (id : Str) (t : exs.Table)
      → fresh ≢ []
      → (t' : exs.Table) × (save_exec exs fresh now (new_exec req id) t
          ≡ ok (made req id fresh now, t'))
        × (get_exec exs fresh t' ≡ ok (made req id fresh now))
  unfolding save_exec made new_exec
  create_found req id t full =
      let (t', e, found) = inserted (made req id fresh now) t full in
      (t', rw (save_exec, e) refl, found)

  -- a command that ends leaves its exit code in the table
  pub run_exec-found :
      (input : Option Str) (job : Job) (w : ExecWorld db.Table exs.Table K) (code : ℤ)
      → job.exec.id ≢ []
      → is_int64 code ≡ true
      → EndsWith cli job.tainr job.exec input w.cluster code
      → get_exec exs job.exec.id (run_exec db exs cli fresh now input job w).execs
        ≡ ok (record job.exec { exit_code = code })
  unfolding run_exec
  run_exec-found input job w code full small ends =
      let (k', e) = exec_container-ends cli job.tainr job.exec input w.cluster code small ends in
      let (t', saved, found) =
        save_exec-found (record job.exec { exit_code = code }) w.execs full in
      rw (run_exec, e, saved) found

  pub exec_info-found :
      (exec : Exec) (t : exs.Table)
      → get_exec exs exec.id t ≡ ok exec
      → exec_info exs exec.id t ≡ some (described exec)
  unfolding exec_info described
  exec_info-found exec t e = rw (exec_info, e) refl

  pub container_exec-found :
      (req : ContainerExecRequest) (id : Str) (tainr : Container)
      (w : ExecWorld db.Table exs.Table K)
      → fresh ≢ []
      → is_nil req.env ≡ true
      → get_container db id w.containers ≡ ok tainr
      → (t : exs.Table) × (container_exec db exs cli fresh now (some req) id w
          ≡ ((201, some fresh), record w { execs = t }))
        × (get_exec exs fresh t ≡ ok (made req id fresh now))
  unfolding container_exec made
  container_exec-found req id tainr w full plain there =
      let (t, saved, found) = create_found req id w.execs full in
      (t, rw (container_exec, plain, there, saved) refl, found)
