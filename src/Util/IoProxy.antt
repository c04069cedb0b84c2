-- ===== src/Util/IoProxy.antt =====
-- internal/util/ioproxy/ioproxy.go: the writer that puts a frame header before each log line.
pub mod Frames
pub mod Lines
pub mod Sending
pub mod Delivery
pub mod Flusher
pub mod Tests
use kubedock.Base.{
  ℕ, zero, suc, ◌+◌, ◌/◌, ◌%◌, ◌^◌, Bool, true, false, ◌&&◌, not, List, [], ◌∷◌, ◌++◌, Option, none,
  some, length, take, drop, is_nil, ◌==◌, if◌then◌else◌, Str,
}

-- The io.Writer that frames go to. One call takes bytes and gives the new state of the writer, how
-- many bytes it took and whether it returned an error.
pub record Writer (W : Type 0) : Type 0 where
  pub write : W → Str → W × ℕ × Bool

pub record IoProxy (W : Type 0) : Type 0 where
  pub out : W
  pub prefix : ℕ
  pub buf : Str
  pub flusher : Bool

-- New
unfoldable pub create : {W : Type 0} → W → ℕ → IoProxy W
create w prefix = record { out = w; prefix = prefix; buf = []; flusher = false }

-- binary.BigEndian.PutUint32 of uint32(n)
unfoldable pub be32 : ℕ → Str
be32 n = (n / 2 ^ 24 % 256) ∷ (n / 2 ^ 16 % 256) ∷ (n / 2 ^ 8 % 256) ∷ (n % 256) ∷ []

-- The eight bytes before a chunk.
unfoldable pub header : ℕ → Str → Str
unfolding be32
header prefix p = (prefix % 256) ∷ 0 ∷ 0 ∷ 0 ∷ be32 (length p)

-- pos+1 for the first newline at pos
unfoldable pub line_end : Str → Option ℕ
line_end [] = none
line_end (c ∷ s) =
    let rest = line_end s in
    if c == b'\n' then some 1 else elim rest [ none ↦ none | some n ↦ some (suc n) ]

-- The end of Write: a timer is started for a rest in the buffer, unless one is pending. The flag
-- says whether it is.
unfoldable pub schedule : {W : Type 0} → IoProxy W → IoProxy W × Bool
schedule io =
    if not (is_nil io.buf) && not io.flusher
    then (record io { flusher = true }, true)
    else (io, false)

module _ {W : Type 0} (wr : Writer W) where
  -- The loop of writeAll, on fuel; `none` is a loop that has not ended. The flag is the error.
  unfoldable pub write_all : ℕ → W → Str → Option (W × Bool)
  write_all fuel w [] = some (w, false)
  write_all zero w (c ∷ p) = none
  write_all (suc fuel) w (c ∷ p) =
      let (w', n, failed) = wr.write w (c ∷ p) in
      elim failed [ true ↦ some (w', true) | false ↦ write_all fuel w' (drop n (c ∷ p)) ]

  -- `write`: the header, then the chunk, unless the header failed
  unfoldable pub send : W → ℕ → Str → Option (W × Bool)
  unfolding write_all
  send w prefix p = elim (write_all (length (header prefix p)) w (header prefix p)) [
    | none ↦ none
    | some (w', true) ↦ some (w', true)
    | some (w', false) ↦ write_all (length p) w' p
  ]

  -- One round: the chunk up to the first newline is sent and cut off, whether or not the writer
  -- failed. The number is the result, 0 where there is no newline.
  unfoldable pub process : IoProxy W → Option (IoProxy W × ℕ)
  unfolding send line_end
  process io = elim (line_end io.buf) [
    | none ↦ some (io, 0)
    | some n ↦ elim (send io.out io.prefix (take n io.buf)) [
      | none ↦ none
      | some (w', failed) ↦ some (record io { out = w'; buf = drop n io.buf }, n)
    ]
  ]

  -- `for w.process() != 0 {}`, on fuel
  unfoldable pub drain : ℕ → IoProxy W → Option (IoProxy W)
  drain zero io = none
  drain (suc fuel) io = elim (process io) [
    | none ↦ none
    | some (io', zero) ↦ some io'
    | some (io', suc n) ↦ drain fuel io'
  ]

  -- Write. The flag says whether the call starts the goroutine that calls `Flush` later.
  unfoldable pub write : IoProxy W → Str → Option (IoProxy W × Bool)
  unfolding drain schedule
  write io p = elim (drain (suc (length (io.buf ++ p))) (record io { buf = io.buf ++ p })) [
    | none ↦ none
    | some io' ↦ some (schedule io')
  ]

  -- Flush. The flag is the error.
  unfoldable pub flush : IoProxy W → Option (IoProxy W × Bool)
  unfolding send
  flush io = if is_nil io.buf then some (io, false) else (elim (send io.out io.prefix io.buf) [
    | none ↦ none
    | some (w', failed) ↦ some (record io { out = w'; buf = []; flusher = false }, failed)
  ])

  -- A sequence of calls of Write.
  unfoldable pub write_each : IoProxy W → List Str → Option (IoProxy W)
  write_each io [] = some io
  write_each io (p ∷ ps) = elim (write io p) [ none ↦ none | some (io', timer) ↦ write_each io' ps ]

  -- What `backend.GetLogs` does with a proxy: writes, and one `Flush` at the end.
  unfoldable pub write_and_flush : IoProxy W → List Str → Option (IoProxy W × Bool)
  unfolding write_each
  write_and_flush io ps = elim (write_each io ps) [ none ↦ none | some io' ↦ flush io' ]
