-- ===== src/Backend/Logs.antt =====
-- internal/backend/logs.go: the log of a pod, written to a client. The stream of the kubernetes client
-- is a parameter.
pub mod Delivered
pub mod Tests
use kubedock.Base.{
  zero, suc, ℕ, ◌-◌, ◌^◌, Bool, true, false, List, [], ◌∷◌, Option, none, some, is_nil, ltb,
  if◌then◌else◌, Str,
}
use kubedock.Base.Int.{ℤ, pos, neg_ℕ}
use kubedock.Base.Text.{codes}
use kubedock.Util.IoProxy.{Writer, IoProxy, create, write, flush}

-- LogOptions; a time is a number of seconds
pub record LogOptions : Type 0 where
  pub follow : Bool
  pub since_time : Option ℤ
  pub timestamps : Bool
  pub tail_lines : Option ℕ

-- v1.PodLogOptions
pub record PodLogOptions : Type 0 where
  pub container : Str
  pub follow : Bool
  pub tail_lines : Option ℤ
  pub since_time : Option ℤ
  pub timestamps : Bool

-- int64 of an uint64
unfoldable pub to_int64 : ℕ → ℤ
to_int64 n = if ltb n (2 ^ 63) then pos n else neg_ℕ (2 ^ 64 - n)

-- newPodLogOptions
unfoldable pub new_pod_log_options : LogOptions → PodLogOptions
unfolding to_int64
new_pod_log_options opts = record {
  container = codes "main";
  follow = opts.follow;
  tail_lines = elim opts.tail_lines [ none ↦ none | some l ↦ some (to_int64 l) ];
  since_time = opts.since_time;
  timestamps = opts.timestamps;
}

-- What the loop of getLogs meets: a read of the stream that returns no error, io.EOF or another
-- error, with the bytes that it got; the message on the stop channel, which is looked at before a
-- read; and the timer of the proxy, which runs out while the loop reads.
pub data Event : Type 0 where
  bytes ended broken : Str → Event
  stopped timer : Event

-- Where the loop is: it waits for the stream, or getLogs has returned, with or without an error.
pub data Logs (W : Type 0) : Type 0 where
  waits : W → Logs W
  returned : W → Bool → Logs W

-- `put` is a Write: the flag says that it took nothing or failed. `tick` is what the timer does. None
-- is a loop in one of them that does not end.
module _ {W : Type 0} (put : W → Str → Option (W × Bool)) (tick : W → Option W)
    (follow : Bool) where
  -- the loop of getLogs
  unfoldable pub read_logs : List Event → W → Option (Logs W)
  read_logs [] w = some (waits w)
  read_logs (timer ∷ es) w = elim (tick w) [ none ↦ none | some w' ↦ read_logs es w' ]
  read_logs (stopped ∷ es) w =
      let rest = read_logs es w in if follow then some (returned w false) else rest
  read_logs (ended buf ∷ es) w = some (returned w false)
  read_logs (broken buf ∷ es) w = some (returned w true)
  read_logs (bytes [] ∷ es) w =
      let rest = read_logs es w in if follow then rest else some (returned w false)
  read_logs (bytes (c ∷ buf) ∷ es) w = elim (put w (c ∷ buf)) [
    | none ↦ none
    | some (w', true) ↦ some (returned w' false)
    | some (w', false) ↦ read_logs es w'
  ]

  -- getLogs; no events are the error of the pod's Get or of the stream
  unfoldable pub get_logs_to : Option (List Event) → W → Option (Logs W)
  unfolding read_logs
  get_logs_to none w = some (returned w true)
  get_logs_to (some es) w = read_logs es w

module _ {W : Type 0} (wr : Writer W) where
  -- GetLogsRaw
  unfoldable pub get_logs_raw : LogOptions → Option (List Event) → W → Option (Logs W)
  unfolding get_logs_to
  get_logs_raw opts es w =
      get_logs_to
        (λ w1 p.
          let (w2, n, failed) = wr.write w1 p in
          some (w2, (if failed then true else elim n [ zero ↦ true | suc m ↦ false ])))
        (λ w1. some w1) opts.follow es w

  -- Write and the timer's Flush of a proxy; Write takes every byte
  unfoldable pub put_framed : IoProxy W → Str → Option (IoProxy W × Bool)
  unfolding write
  put_framed io p = elim (write wr io p) [ none ↦ none | some (io', timed) ↦ some (io', false) ]

  unfoldable pub tick_framed : IoProxy W → Option (IoProxy W)
  unfolding flush
  tick_framed io = elim (flush wr io) [ none ↦ none | some (io', failed) ↦ some io' ]

  -- the deferred Flush
  unfoldable pub flushed : Option (Logs (IoProxy W)) → Option (Logs (IoProxy W))
  unfolding flush
  flushed none = none
  flushed (some (waits io)) = some (waits io)
  flushed (some (returned io bad)) = elim (flush wr io) [
    | none ↦ none
    | some (io', failed) ↦ some (returned io' bad)
  ]

  -- GetLogs
  unfoldable pub get_logs : LogOptions → Option (List Event) → W → Option (Logs (IoProxy W))
  unfolding get_logs_to put_framed tick_framed flushed
  get_logs opts es w = flushed (get_logs_to put_framed tick_framed opts.follow es (create w 1))
