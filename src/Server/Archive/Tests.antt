-- ===== src/Server/Archive/Tests.antt =====
-- An archive of one file, for a container that is not started.
use kubedock.Util.StringId.{is_short_id}
use kubedock.Base.{
  str_eq, ◌≡◌, ◌≢◌, refl, arith, true, false, [], ◌∷◌, ◌++◌, Option, some, ok, Str, str_eq_instance,
}
use kubedock.Base.GoMap
use kubedock.Base.Text.{codes}
use kubedock.Model.Container.{Container}
use kubedock.Model.Container.PreArchives.{get_pre_archive_files}
use kubedock.Model.Database.{id_index, get_container}
use kubedock.Model.Database.Tables.{Index, by_id, by_short_id, by_name}
use kubedock.Model.Database.Lookup.{container_key, container_keys}
use kubedock.Model.Database.Indexes.{indexes-IsMemDb}
use kubedock.Util.Tar.Entries.{Header, Listing, type_reg, find_file, is_single_file_archive}
use kubedock.Server.World.{Config}
use kubedock.Server.Containers.{is_idle}
use kubedock.Server.Containers.Tests.{tables, counting, config, full_id, redis, world}
use kubedock.Server.Execs.Tests.{failing}
use kubedock.Server.Archive.{plain, put_archive}
use kubedock.Server.Archive.Planned.{put-planned}

abbrev conf : Header
conf = record {
  name = codes "redis.conf";
  typeflag = type_reg;
  mode = 420;
  content = codes "port 6379";
  torn = false;
}

abbrev listing : Listing
listing = record { headers = conf ∷ []; is_eof = true; read_bytes = 1024 }

abbrev list : Str → Option Listing
list dat = some listing

abbrev join : Str → Str → Str
join a b = a ++ b'/' ∷ b

abbrev keeping : Config
keeping = record config { pre_archive = true }

given : codes "/etc" ≢ []
unfolding codes
given = ground arith

found : get_container tables full_id (world redis).table ≡ ok redis
unfolding get_container GoMap.lookup id_index is_short_id str_eq container_key
found = refl

full : (i : Index) → container_key i redis ≢ []
unfolding container_key codes
full by_id = ground arith
full by_short_id = ground arith
full by_name = ground arith

idle : is_idle redis ≡ true
unfolding is_idle
idle = refl

single : is_single_file_archive (some listing) ≡ true
unfolding is_single_file_archive
single = refl

whole :
    (f : Str) (h : Header)
    → find_file join (codes "/etc") f listing.headers ≡ some h
    → h.torn ≡ false
unfolding find_file
whole f h e = ground (arith, e)

put-planned_example :
    let (answer, w') =
      put_archive tables
        (counting true)
        failing
        keeping
        full_id
        7
        list
        full_id
        (codes "/etc")
        (some (codes "tar"))
        (world redis) in
    (answer ≡ plain 200)
    × (w'.cluster ≡ (world redis).cluster)
    × (co' : Container) × (f : Str) × (h : Header) × (tables.first by_id redis.id w'.table
        ≡ ok (some co'))
    × (find_file join (codes "/etc") f listing.headers ≡ some h)
    × (GoMap.lookup f (get_pre_archive_files list join co')
        ≡ some (record { file_mode = h.mode; content = h.content }))
put-planned_example =
    put-planned tables (counting true) failing keeping full_id 7 list join
      (indexes-IsMemDb container_keys) full_id (codes "/etc") (codes "tar") redis listing
      (world redis) given found full idle refl refl refl single whole
