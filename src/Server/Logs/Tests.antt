-- ===== src/Server/Logs/Tests.antt =====
-- A client that asks for the log since a time in 2038.
use kubedock.Model.Database.Lookup.{container_key}
use kubedock.Util.StringId.{is_short_id}
use kubedock.Base.GoMap.{insert, lookup}
use kubedock.Model.Database.{id_index, get_container}
use kubedock.Base.{any_of, str_eq, ◌^◌, ◌≡◌, refl, true, [], ◌∷◌, none, some, ltb, if◌then◌else◌}
use kubedock.Base.Int.{pos}
use kubedock.Base.Text.{parse_digits, codes}
use kubedock.Base.Text.Decimal.{sprint}
use kubedock.Server.Containers.Tests.{tables, full_id, redis, world}
use kubedock.Server.Logs.{LogQuery, parse_uint64, parse_unix, container_logs, missing, log_options}
use kubedock.Server.Logs.Numbers.{parse-sprint}

abbrev query : LogQuery
query = record {
  follow = codes "1";
  tail = codes "all";
  since = codes "2147483648";
  timestamps = [];
}

no_tail : (log_options query).tail_lines ≡ none
unfolding log_options parse_digits
no_tail = refl

idle : (container_logs tables full_id query true 5 (world redis)).0 ≡ missing
unfolding container_logs get_container lookup id_index is_short_id str_eq container_key
idle = refl

running :
    (container_logs tables full_id query true 5
      (world (record redis { running = true }))).1.table.ids
    ≡ (full_id, record redis { running = true; stop_channels = 5 ∷ [] }) ∷ []
unfolding container_logs get_container lookup id_index is_short_id str_eq container_key any_of
    insert
running = refl

parse-sprint_example :
    (parse_unix (sprint (pos (2 ^ 31)))
      ≡ (if ltb (2 ^ 31) (2 ^ 31) then some (pos (2 ^ 31)) else none))
    × (parse_uint64 (sprint (pos (2 ^ 31)))
        ≡ (if ltb (2 ^ 31) (2 ^ 32) then some (2 ^ 31) else none))
parse-sprint_example = parse-sprint (2 ^ 31)
