-- ===== src/Backend/Logs/Tests.antt =====
-- A log in three reads, of which the last comes with the end of the stream.
use kubedock.Base.{
  ◌-◌, ◌^◌, ◌<◌, ◌≡◌, refl, true, false, [], ◌∷◌, ◌++◌, none, some, length, arith, List, Str,
}
use kubedock.Base.Text.{codes}
use kubedock.Base.Int.{negsuc}
use kubedock.Util.IoProxy.{IoProxy}
use kubedock.Util.IoProxy.Frames.{read_all}
use kubedock.Util.IoProxy.Tests.{slow, sent, slow-IsLossless}
use kubedock.Backend.Logs.{
  LogOptions, Event, bytes, ended, timer, stopped, waits, returned, to_int64, get_logs,
  get_logs_raw,
}
use kubedock.Backend.Logs.Delivered.{is_calm, payload, get_logs_lem}

abbrev options : LogOptions
options = record { follow = true; since_time = none; timestamps = false; tail_lines = none }

abbrev reads : List Event
reads = bytes (codes "ab\nc") ∷ timer ∷ bytes (codes "d\n") ∷ []

wraps : to_int64 (2 ^ 64 - 1) ≡ negsuc 0
unfolding to_int64
wraps = refl

raw :
    get_logs_raw slow options (some (bytes (codes "abcd") ∷ stopped ∷ [])) []
    ≡ some (returned (codes "abc") false)
unfolding get_logs_raw codes
raw = refl

blocked : get_logs_raw slow options (some (bytes [] ∷ [])) [] ≡ some (waits [])
unfolding get_logs_raw
blocked = refl

calm : is_calm reads ≡ true
unfolding is_calm codes
calm = refl

short : length (payload reads) < 2 ^ 32
unfolding codes payload
short = omega arith

get_logs_lem_example :
    (io : IoProxy Str) × (get_logs slow options (some (reads ++ ended (codes "lost") ∷ [])) []
      ≡ some (returned io false))
    × (io.buf ≡ [])
    × (read_all 1 io.out ≡ some (payload reads))
get_logs_lem_example =
    get_logs_lem slow sent slow-IsLossless options [] reads [] (codes "lost") refl calm short
