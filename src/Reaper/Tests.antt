-- ===== src/Reaper/Tests.antt =====
-- A table with an old container and a new one, and one old exec.
use kubedock.Base.{
  ℕ, ◌≡◌, refl, true, false, [], ◌∷◌, none, ok, if◌then◌else◌, str_eq, str_eq_instance, map,
}
use kubedock.Base.GoMap
use kubedock.Base.Int.{pos}
use kubedock.Base.Text.{codes}
use kubedock.Model.Container.{Container, blank}
use kubedock.Model.Records.{Exec}
use kubedock.Model.Database.{get_containers, get_execs, delete_container, delete_exec}
use kubedock.Model.Database.Tables.{by_id, MemDb}
use kubedock.Model.Database.Lookup.{container_keys, exec_keys, container_key}
use kubedock.Model.Database.Indexes.{Indexes, indexes, indexes-IsMemDb}
use kubedock.Server.Containers.Tests.{counting}
use kubedock.Reaper.{
  reap, clean_each, is_old, exec_reap_max, Reaped, clean_containers, clean_execs, clean,
}
use kubedock.Reaper.Old.{has_old, clean_lem}

abbrev old : Container
old = record blank { id = codes "aa"; short_id = codes "a"; name = codes "old"; created = 100 }

abbrev new : Container
new = record blank { id = codes "bb"; short_id = codes "b"; name = codes "new"; created = 900 }

abbrev exec : Exec
exec = record {
  id = codes "ee";
  container_id = codes "aa";
  cmd = [];
  tty = false;
  stdin = false;
  stdout = true;
  stderr = false;
  exit_code = pos 0;
  created = 100;
}

abbrev containers : MemDb Container
containers = indexes container_keys

abbrev execs : MemDb Exec
execs = indexes exec_keys

abbrev state : Reaped (Indexes Container) (Indexes Exec) ℕ
state = record {
  world = record {
    table = record {
      ids = (old.id, old) ∷ (new.id, new) ∷ [];
      short_ids = (old.short_id, old) ∷ (new.short_id, new) ∷ [];
      names = (old.name, old) ∷ (new.name, new) ∷ [];
    };
    cluster = 0;
    events = [];
    signalled = [];
  };
  execs = record {
    ids = (exec.id, exec) ∷ [];
    short_ids = (exec.id, exec) ∷ [];
    names = (exec.id, exec) ∷ [];
  };
}

containers_fine :
    (clean_containers containers (counting true) 600 1000 state.world.cluster state.world.table).2
    ≡ false
unfolding clean_containers clean_each get_containers is_old delete_container
containers_fine = refl

execs_fine : (clean_execs execs 1000 state.execs).2 ≡ false
unfolding clean_execs clean_each get_execs is_old delete_exec
execs_fine = refl

clean_lem_example :
    let s' = clean containers execs (counting true) 600 1000 state in
    (containers.first by_id old.id s'.world.table ≡ (
      if has_old
        (λ co. co.id)
        (λ co. is_old 1000 600 co.created)
        old.id
        (get_containers containers state.world.table)
      then ok none
      else containers.first by_id old.id state.world.table))
    × (execs.first by_id old.id s'.execs ≡ (
        if has_old
          (λ exc. exc.id)
          (λ exc. is_old 1000 exec_reap_max exc.created)
          old.id
          (get_execs execs state.execs)
        then ok none
        else execs.first by_id old.id state.execs))
    × (s'.world.events ≡ [])
    × (s'.world.signalled ≡ [])
clean_lem_example =
    clean_lem containers execs (counting true) 600 1000 (indexes-IsMemDb container_keys)
      (indexes-IsMemDb exec_keys) state old.id containers_fine execs_fine

left :
    map
      (λ co. co.name)
      (get_containers containers
        (clean containers execs (counting true) 600 1000 state).world.table)
    ≡ codes "new" ∷ []
unfolding get_containers clean clean_containers clean_each is_old delete_container GoMap.delete
    str_eq codes container_key reap
left = refl
