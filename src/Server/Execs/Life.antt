-- ===== src/Server/Execs/Life.antt =====
-- From the create of an exec to its exit code.
use kubedock.Base.{
  ℕ, ◌≡◌, ◌≢◌, refl, sym, subst, Bool, true, false, [], Option, none, some, is_nil, ok, Str,
}
use kubedock.Base.Int.{ℤ}
use kubedock.Base.Text.Decimal.Parsed.{is_int64}
use kubedock.Model.Container.{Container}
use kubedock.Model.Records.{Exec}
use kubedock.Model.Database.{id_index, get_container, get_exec, save_exec, first_or_error}
use kubedock.Model.Database.Tables.{MemDb, IsMemDb}
use kubedock.Model.Database.Lookup.{exec_keys}
use kubedock.Backend.Remote.{Executor}
use kubedock.Server.Execs.{
  ContainerExecRequest, ExecWorld, Job, new_exec, container_exec, exec_start, run_detached,
  exec_info,
}
use kubedock.Server.Execs.Ended.{
  EndsWith, made, described, run_exec-found, exec_info-found, container_exec-found,
}

module _ {K : Type 0} (db : MemDb Container) (exs : MemDb Exec) (cli : Executor K) (fresh : Str)
    (now : ℕ) (laws : IsMemDb exec_keys exs) where
  module _ (req : ContainerExecRequest) (id : Str) (tainr : Container) (full : fresh ≢ [])
      (plain : is_nil req.env ≡ true) where
    abbrev created :
        ExecWorld db.Table exs.Table K → (ℕ × Option Str) × ExecWorld db.Table exs.Table K
    created w = container_exec db exs cli fresh now (some req) id w

    abbrev started :
        Bool
        → Option Str
        → ExecWorld db.Table exs.Table K
        → ℕ × ExecWorld db.Table exs.Table K × Option Job
    started detach input w =
        exec_start db exs cli fresh now (some (record { detach = detach; tty = req.tty })) fresh
          input w

    abbrev the_job : Job
    the_job = record { tainr = tainr; exec = made req id fresh now }

    detach :
        (w : ExecWorld db.Table exs.Table K) (t : exs.Table)
        → get_container db id w.containers ≡ ok tainr
        → get_exec exs fresh t ≡ ok (made req id fresh now)
        → started true none (record w { execs = t }) ≡ (200, record w { execs = t }, some the_job)
    unfolding exec_start made get_container exec_info kubedock.Model.Database.id_index new_exec
        get_exec
    detach w t there found = rw (exec_start, found, there) refl

    attached_200 :
        (input : Option Str) (w : ExecWorld db.Table exs.Table K) (t : exs.Table)
        → get_container db id w.containers ≡ ok tainr
        → get_exec exs fresh t ≡ ok (made req id fresh now)
        → (started false input (record w { execs = t })).0 ≡ 200
    unfolding exec_start made get_container kubedock.Model.Database.id_index new_exec get_exec
    attached_200 none w t there found = rw (exec_start, found, there) refl
    attached_200 (some input) w t there found = rw (exec_start, found, there) refl

    -- Where the fresh id is not empty, the container is found and no environment is given, whatever
    -- the cluster does: a create of an exec is answered with 201 and the fresh id, and the exec is
    -- described with what the request said, as not running and with the exit code 0; an attached
    -- start of it is answered with 200, also where the connection is not taken over; a detached one
    -- is answered with 200, leaves its goroutine and changes nothing before that runs.
    pub create-start :
        (input : Option Str) (w : ExecWorld db.Table exs.Table K)
        → get_container db id w.containers ≡ ok tainr
        → let (answer, w1) = created w in
          (answer ≡ (201, some fresh))
          × (exec_info exs fresh w1.execs ≡ some (described (made req id fresh now)))
          × ((started false input w1).0 ≡ 200)
          × (started true none w1 ≡ (200, w1, some the_job))
    unfolding made
    create-start input w there =
        let (t, e, found) =
          container_exec-found db exs cli fresh now laws req id tainr w full plain there in
        subst
          (λ r.
            (r.0 ≡ (201, some fresh))
            × (exec_info exs fresh r.1.execs ≡ some (described (made req id fresh now)))
            × ((started false input (r.1)).0 ≡ 200)
            × (started true none (r.1) ≡ (200, r.1, some the_job)))
          (sym e)
          (
            refl,
            exec_info-found db exs cli fresh now laws (made req id fresh now) t found,
            attached_200 input w t there found,
            detach w t there found,
          )

    module _ (code : ℤ) (small : is_int64 code ≡ true) where
      attached :
          (input : Str) (w : ExecWorld db.Table exs.Table K) (t : exs.Table)
          → get_container db id w.containers ≡ ok tainr
          → EndsWith cli tainr (made req id fresh now) (some input) w.cluster code
          → get_exec exs fresh t ≡ ok (made req id fresh now)
          → let (answer, w2, job) = started false (some input) (record w { execs = t }) in
            (answer ≡ 200)
            × (exec_info exs fresh w2.execs
                ≡ some (described (record (made req id fresh now) { exit_code = code })))
      unfolding exec_start made get_container exec_info described kubedock.Model.Database.id_index
          new_exec get_exec
      attached input w t there ends found =
          let exec = record (made req id fresh now) { exit_code = code } in
          let job : Job = record { tainr = tainr; exec = made req id fresh now } in
          rw (exec_start, found, there)
            (
              refl,
              exec_info-found db exs cli fresh now laws exec _ (
                  run_exec-found db exs cli fresh now laws (some input) job (record w { execs = t })
                    code full small ends),
            )

      ran :
          (k : K) (w : ExecWorld db.Table exs.Table K)
          → EndsWith cli tainr (made req id fresh now) none k code
          → exec_info exs fresh
              (run_detached db exs cli fresh now the_job (record w { cluster = k })).execs
            ≡ some (described (record (made req id fresh now) { exit_code = code }))
      unfolding run_detached made
      ran k w ends =
          exec_info-found db exs cli fresh now laws
            (record (made req id fresh now) { exit_code = code }) _
            (run_exec-found db exs cli fresh now laws none the_job (record w { cluster = k }) code
              full small ends)

      -- Where the fresh id is not empty, the container is found, no environment is given and the command
      -- ends with an exit code of 64 bits, 0 or another: a create of an exec is answered with 201 and
      -- the fresh id, an attached start of it with 200, and then the exec is described with this exit
      -- code and with what the request said.
      pub create-start-info :
          (input : Str) (w : ExecWorld db.Table exs.Table K)
          → get_container db id w.containers ≡ ok tainr
          → EndsWith cli tainr (made req id fresh now) (some input) w.cluster code
          → let (answer, w1) = created w in
            let (status, w2, job) = started false (some input) w1 in
            (answer ≡ (201, some fresh))
            × (status ≡ 200)
            × (exec_info exs fresh w2.execs
                ≡ some (described (record (made req id fresh now) { exit_code = code })))
      create-start-info input w there ends =
          let (t, e, found) =
            container_exec-found db exs cli fresh now laws req id tainr w full plain there in
          subst
            (λ r.
              let (status, w2, job) = started false (some input) (r.1) in
              (r.0 ≡ (201, some fresh))
              × (status ≡ 200)
              × (exec_info exs fresh w2.execs
                  ≡ some (described (record (made req id fresh now) { exit_code = code }))))
            (sym e)
            (let (answered, described_so) = attached input w t there ends found in
              (refl, answered, described_so))

      -- A detached start has its goroutine left to run: until then the exec is described as not running,
      -- with the exit code 0, and when it ran on a state `k` of the cluster, with the exit code.
      unfoldable pub Detached : K → ℕ × ExecWorld db.Table exs.Table K × Option Job → Type 0
      Detached k (status, w, job) =
          (status ≡ 200)
          × (job ≡ some the_job)
          × (exec_info exs fresh w.execs ≡ some (described (made req id fresh now)))
          × (exec_info exs fresh
                (run_detached db exs cli fresh now the_job (record w { cluster = k })).execs
              ≡ some (described (record (made req id fresh now) { exit_code = code })))

      -- Where the fresh id is not empty, the container is found, no environment is given and the command
      -- ends with an exit code of 64 bits, 0 or another, in the state of the cluster in which its
      -- goroutine runs: a detached start of the exec that was created is answered with 200; until the
      -- goroutine runs, the exec is described as not running with the exit code 0; and when it ran,
      -- the exec is described with this exit code and with what the request said.
      pub create-start-Detached :
          (k : K) (w : ExecWorld db.Table exs.Table K)
          → get_container db id w.containers ≡ ok tainr
          → EndsWith cli tainr (made req id fresh now) none k code
          → Detached k (started true none ((created w).1))
      unfolding Detached made
      create-start-Detached k w there ends =
          let (t, e, found) =
            container_exec-found db exs cli fresh now laws req id tainr w full plain there in
          subst (λ r. Detached k (started true none (r.1))) (sym e)
            (subst (Detached k) (sym (detach w t there found)) (
              refl,
              refl,
              exec_info-found db exs cli fresh now laws (made req id fresh now) t found,
              ran k (record w { execs = t }) ends,
            ))
