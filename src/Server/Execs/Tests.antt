-- ===== src/Server/Execs/Tests.antt =====
-- A container, and a command in it that ends with the exit code 2.
use kubedock.Base.Text.Decimal.Parsed.{is_int64}
use kubedock.Util.StringId.{is_short_id}
use kubedock.Base.{
  str_eq, ℕ, suc, arith, ◌≡◌, ◌≢◌, refl, true, false, [], ◌∷◌, Option, some, none, ok, Str,
  replicate,
}
use kubedock.Base.GoMap
use kubedock.Base.Int.{pos}
use kubedock.Base.Text.{codes}
use kubedock.Model.Container.{Container, blank}
use kubedock.Model.Records.{Exec}
use kubedock.Model.Database.{get_exec, id_index, get_container}
use kubedock.Model.Database.Tables.{MemDb}
use kubedock.Model.Database.Lookup.{container_key, container_keys, exec_keys}
use kubedock.Model.Database.Indexes.{Indexes, indexes, indexes-IsMemDb}
use kubedock.Backend.Remote.{Executor}
use kubedock.Backend.Remote.ExitCode.{exit_error}
use kubedock.Base.Text.Decimal.Parsed.{is_int64}
use kubedock.Server.Execs.{
  ContainerExecRequest, ExecWorld, container_exec, exec_start, exec_info, exec_resize,
}
use kubedock.Server.Execs.Ended.{EndsWith, made, described}
use kubedock.Server.Execs.Life.{Detached, create-start, create-start-info, create-start-Detached}

-- Every command ends with the exit code 2; the state counts the commands.
abbrev pub failing : Executor ℕ
failing = record {
  has_pod = λ name k. true;
  stream = λ name options input k. (suc k, codes "no such file", some (exit_error (pos 2)));
}

abbrev redis : Container
redis = record blank {
  id = replicate 64 b'a';
  short_id = replicate 12 b'a';
  name = codes "redis";
  running = true;
}

abbrev request : ContainerExecRequest
request = record {
  cmd = codes "ls" ∷ codes "/none" ∷ [];
  stdin = false;
  stdout = false;
  stderr = false;
  tty = false;
  env = [];
}

abbrev fresh : Str
fresh = replicate 64 b'e'

abbrev containers : MemDb Container
containers = indexes container_keys

abbrev execs : MemDb Exec
execs = indexes exec_keys

abbrev world : ExecWorld (Indexes Container) (Indexes Exec) ℕ
world = record {
  containers = record {
    ids = (redis.id, redis) ∷ [];
    short_ids = (redis.short_id, redis) ∷ [];
    names = (redis.name, redis) ∷ [];
  };
  execs = record { ids = []; short_ids = []; names = [] };
  cluster = 0;
}

found : get_container containers (codes "redis") world.containers ≡ ok redis
unfolding get_container GoMap.lookup id_index is_short_id codes str_eq container_key
found = refl

ends :
    (input : Option Str) (k : ℕ)
    → EndsWith failing redis (made request (codes "redis") fresh 7) input k (pos 2)
unfolding EndsWith
ends input k = (refl, refl)

fresh_full : fresh ≢ []
fresh_full = ground arith

small : is_int64 (pos 2) ≡ true
unfolding is_int64
small = refl

create-start_example :
    let (answer, w1) =
      container_exec containers execs failing fresh 7 (some request) (codes "redis") world in
    let start = exec_start containers execs failing fresh 7 in
    (answer ≡ (201, some fresh))
    × (exec_info execs fresh w1.execs ≡ some (described (made request (codes "redis") fresh 7)))
    × ((start (some (record { detach = false; tty = false })) fresh none w1).0 ≡ 200)
    × (start (some (record { detach = true; tty = false })) fresh none w1
        ≡ (200, w1, some (record { tainr = redis; exec = made request (codes "redis") fresh 7 })))
create-start_example =
    create-start containers execs failing fresh 7 (indexes-IsMemDb exec_keys) request
      (codes "redis") redis fresh_full refl none world found

create-start-info_example :
    let (answer, w1) =
      container_exec containers execs failing fresh 7 (some request) (codes "redis") world in
    let (status, w2, job) =
      exec_start containers execs failing fresh 7
        (some (record { detach = false; tty = false }))
        fresh
        (some [])
        w1 in
    (answer ≡ (201, some fresh))
    × (status ≡ 200)
    × (exec_info execs fresh w2.execs
        ≡ some (described (record (made request (codes "redis") fresh 7) { exit_code = pos 2 })))
create-start-info_example =
    create-start-info containers execs failing fresh 7 (indexes-IsMemDb exec_keys) request
      (codes "redis") redis fresh_full refl (pos 2) small [] world found (ends (some []) 0)

create-start-Detached_example :
    Detached containers execs failing fresh 7
      (indexes-IsMemDb exec_keys)
      request
      (codes "redis")
      redis
      fresh_full
      refl
      (pos 2)
      small
      3
      (exec_start containers execs failing fresh 7
        (some (record { detach = true; tty = false }))
        fresh
        none
        ((container_exec containers execs failing fresh 7 (some request) (codes "redis") world).1))
create-start-Detached_example =
    create-start-Detached containers execs failing fresh 7 (indexes-IsMemDb exec_keys) request
      (codes "redis") redis fresh_full refl (pos 2) small 3 world found (ends none 3)

-- without the id of an exec there is nothing to resize
not_resized : exec_resize execs fresh world.execs ≡ 404
unfolding exec_resize get_exec GoMap.lookup
not_resized = refl
