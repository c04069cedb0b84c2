-- ===== src/Server/Logs.antt =====
-- internal/server/routes/common/logs.go: the log of a container.
pub mod Numbers
pub mod Tests
use kubedock.Base.{
  ℕ, ◌^◌, ◌-◌, Bool, true, false, ◌||◌, not, [], ◌∷◌, Option, none, some, any_of, ◌==◌,
  if◌then◌else◌, Result, ok, err, Str, str_eq,
}
use kubedock.Base.Int.{ℤ, pos, neg_ℕ}
use kubedock.Base.Text.{codes, parse_digits, within, map_int}
use kubedock.Model.Error.{Error}
use kubedock.Model.Container.{Container, add_stop_channel}
use kubedock.Model.Database.{get_container}
use kubedock.Model.Database.Tables.{MemDb}
use kubedock.Backend.Logs.{LogOptions}
use kubedock.Server.World.{World}
use kubedock.Server.Containers.{is_idle}

-- The queries of ContainerLogs; a query that is not given is empty.
pub record LogQuery : Type 0 where
  pub follow : Str
  pub tail : Str
  pub since : Str
  pub timestamps : Str

-- strconv.ParseBool, with false for its error
unfoldable pub parse_bool : Str → Bool
unfolding codes
parse_bool s =
    any_of (λ t. str_eq t s)
      (codes "1" ∷ codes "t" ∷ codes "T" ∷ codes "TRUE" ∷ codes "true" ∷ codes "True" ∷ [])

-- parseUint64: strconv.ParseUint of 32 bits
unfoldable pub parse_uint64 : Str → Option ℕ
parse_uint64 input = within (2 ^ 32 - 1) (parse_digits input)

-- parseUnix: strconv.ParseInt of 32 bits, as seconds
unfoldable pub parse_unix : Str → Option ℤ
parse_unix [] = none
parse_unix (c ∷ s) =
    if c == b'-'
    then map_int neg_ℕ (within (2 ^ 31) (parse_digits s))
    else if c == b'+'
    then map_int pos (within (2 ^ 31 - 1) (parse_digits s))
    else map_int pos (within (2 ^ 31 - 1) (parse_digits (c ∷ s)))

-- A query that cannot be read is as if it was not given.
unfoldable pub log_options : LogQuery → LogOptions
unfolding parse_bool parse_uint64 parse_unix
log_options q = record {
  follow = parse_bool q.follow;
  since_time = parse_unix q.since;
  timestamps = parse_bool q.timestamps;
  tail_lines = parse_uint64 q.tail;
}

-- The handler's answer: 404; the log, which it writes with the status 200 as far as it gets, over the
-- response or, where it follows, over the hijacked connection; or 200 and nothing else.
pub data LogAnswer : Type 0 where
  missing : LogAnswer
  writes : Container → LogOptions → LogAnswer
  nothing : LogAnswer

module _ {K : Type 0} (db : MemDb Container) where
  -- ContainerLogs; `hijacked` says that HijackConnection has no error, `stop` is the new channel
  unfoldable pub container_logs :
      Str → LogQuery → Bool → ℕ → World db.Table K → LogAnswer × World db.Table K
  unfolding log_options is_idle add_stop_channel
  container_logs id q hijacked stop w = elim (get_container db id w.table) [
    | err e ↦ (missing, w)
    | ok tainr ↦
        let opts = log_options q in
        let followed : Container = add_stop_channel tainr stop in
        if is_idle tainr
        then (missing, w)
        else if not opts.follow
        then (writes tainr opts, w)
        else if not hijacked
        then (nothing, w)
        else (writes followed opts, record w { table = db.poke followed w.table })
  ]
