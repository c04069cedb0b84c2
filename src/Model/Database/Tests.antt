-- ===== src/Model/Database/Tests.antt =====
-- Saves, lookups and deletes on a table with two containers.
use kubedock.Base.{
  all_of, str_eq, ◌≡◌, ◌≢◌, refl, true, false, [], ◌∷◌, none, ok, arith, Str, replicate,
}
use kubedock.Base.Text.{codes}
use kubedock.Base.GoMap
use kubedock.Util.StringId.{is_short_id, truncate_id, validate_id}
use kubedock.Model.Container.{Container, blank}
use kubedock.Model.Database.{id_index, get_container, save_container, delete_container}
use kubedock.Model.Database.Tables.{by_id, MemDb, IsMemDb}
use kubedock.Model.Database.Lookup.{container_key, container_keys}
use kubedock.Model.Database.Indexes.{Indexes, indexes, indexes-IsMemDb}

abbrev first_id : Str
first_id = replicate 64 b'a'

abbrev second_id : Str
second_id = replicate 64 b'b'

abbrev redis : Container
redis = record blank { name = codes "redis" }

abbrev stored_redis : Container
stored_redis = record redis { id = first_id; short_id = replicate 12 b'a'; created = 7 }

abbrev db : MemDb Container
db = indexes container_keys

abbrev laws : IsMemDb container_keys db
laws = indexes-IsMemDb container_keys

abbrev other : Container
other = record blank { id = second_id; short_id = replicate 12 b'b'; name = codes "db" }

abbrev holding_other : Indexes Container
holding_other = record {
  ids = (second_id, other) ∷ [];
  short_ids = (other.short_id, other) ∷ [];
  names = (other.name, other) ∷ [];
}

abbrev holding_both : Indexes Container
holding_both = record {
  ids = (second_id, other) ∷ (first_id, stored_redis) ∷ [];
  short_ids = (other.short_id, other) ∷ (stored_redis.short_id, stored_redis) ∷ [];
  names = (other.name, other) ∷ (redis.name, stored_redis) ∷ [];
}

saved : save_container db first_id 7 redis holding_other ≡ ok (stored_redis, holding_both)
unfolding save_container truncate_id GoMap.insert str_eq container_key codes
saved = refl

full : validate_id first_id ≡ ok tt
unfolding validate_id all_of
full = refl

short : is_short_id (truncate_id first_id) ≡ true
unfolding is_short_id truncate_id all_of
short = refl

found : get_container db second_id holding_both ≡ ok other
unfolding get_container GoMap.lookup id_index is_short_id str_eq container_key
found = refl

heads_differ : (s t : Str) → b'a' ∷ s ≢ b'b' ∷ t
heads_differ s t h = absurd (ground arith)

id_differs : first_id ≢ second_id
id_differs = heads_differ (replicate 63 b'a') (replicate 63 b'b')

short_differs : replicate 12 b'a' ≢ second_id
short_differs = heads_differ (replicate 11 b'a') (replicate 63 b'b')

name_differs : codes "redis" ≢ second_id
unfolding codes
name_differs h = cc

is_new : db.first by_id first_id holding_other ≡ ok none
unfolding GoMap.lookup str_eq
is_new = refl

abbrev holding_redis : Indexes Container
holding_redis = record {
  ids = (first_id, stored_redis) ∷ [];
  short_ids = (stored_redis.short_id, stored_redis) ∷ [];
  names = (redis.name, stored_redis) ∷ [];
}

deleted : delete_container db other holding_both ≡ ok holding_redis
unfolding delete_container GoMap.delete str_eq container_key codes
deleted = refl

not_short : is_short_id second_id ≡ false
unfolding is_short_id
not_short = refl
