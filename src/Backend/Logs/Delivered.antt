-- ===== src/Backend/Logs/Delivered.antt =====
-- What a client gets of a log.
use kubedock.Base.{
  ◌^◌, ◌<◌, ◌≡◌, refl, sym, ap, ◌∙◌, Bool, true, false, List, [], ◌∷◌, ◌++◌, append-nil,
  append_assoc, some, length, arith, Str,
}
use kubedock.Util.IoProxy.{Writer, IoProxy, create, flush}
use kubedock.Util.IoProxy.Frames.{
  frames, concat, frames-append, concat-append, read_all, read_all-frames,
}
use kubedock.Util.IoProxy.Lines.{split_lines, concat-split_lines}
use kubedock.Util.IoProxy.Sending.{IsLossless}
use kubedock.Util.IoProxy.Delivery.{write_lossless, flush_lossless}
use kubedock.Backend.Logs.{
  LogOptions, Event, bytes, ended, broken, stopped, timer, returned, read_logs, get_logs_to,
  put_framed, tick_framed, flushed, get_logs,
}

-- Reads that get something, and timers between them.
unfoldable pub is_calm : List Event → Bool
is_calm [] = true
is_calm (bytes (c ∷ buf) ∷ es) = is_calm es
is_calm (timer ∷ es) = is_calm es
is_calm _ = false

-- what the reads got
unfoldable pub payload : List Event → Str
payload [] = []
payload (bytes buf ∷ es) = buf ++ payload es
payload (timer ∷ es) = payload es
payload (stopped ∷ es) = payload es
payload (ended buf ∷ es) = payload es
payload (broken buf ∷ es) = payload es

module _ {W : Type 0} (wr : Writer W) (sent : W → Str) (good : IsLossless wr sent)
    (follow : Bool) where
  -- How far a proxy is: what was written to it since it was `io` are the frames of some texts, and
  -- what its buffer holds.
  abbrev Progress : IoProxy W → IoProxy W → Str → Type 0
  Progress io io' p =
      (ls : List Str) × (concat ls ++ io'.buf ≡ io.buf ++ p)
      × (io'.prefix ≡ io.prefix)
      × (sent io'.out ≡ sent io.out ++ frames io.prefix ls)

  Progress-trans :
      (io io1 io2 : IoProxy W) (p q : Str)
      → Progress io io1 p
      → Progress io1 io2 q
      → Progress io io2 (p ++ q)
  Progress-trans io io1 io2 p q (ls, b1, p1, s1) (ls2, b2, p2, s2) = (
    ls ++ ls2,
    cc (
      concat-append ls ls2,
      append_assoc (concat ls) (concat ls2) io2.buf,
      append_assoc (concat ls) io1.buf q,
      append_assoc io.buf p q,
    ),
    p2 ∙ p1,
    cc (
      frames-append io.prefix ls ls2,
      append_assoc (sent io.out) (frames io.prefix ls) (frames io.prefix ls2),
    ),
  )

  put-Progress :
      (io : IoProxy W) (p : Str)
      → (io' : IoProxy W) × (put_framed wr io p ≡ some (io', false)) × Progress io io' p
  unfolding put_framed
  put-Progress io p =
      let (io', timed, e, buf, prefix, out) = write_lossless wr sent good io p in
      (
        io',
        rw (put_framed, e) refl,
        (
          (split_lines (io.buf ++ p)).0,
          ap (λ b. concat (split_lines (io.buf ++ p)).0 ++ b) buf
              ∙ concat-split_lines (io.buf ++ p),
          prefix,
          out,
        ),
      )

  flush-prefix :
      (io io' : IoProxy W) (bad : Bool) → flush wr io ≡ some (io', bad) → io'.prefix ≡ io.prefix
  unfolding flush
  flush-prefix io io' bad e = ground (arith, e)

  tick-Progress :
      (io : IoProxy W) → (io' : IoProxy W) × (tick_framed wr io ≡ some io') × Progress io io' []
  unfolding tick_framed
  tick-Progress io =
      let (io', ls, e, c, b, s) = flush_lossless wr sent good io in
      (
        io',
        rw (tick_framed, e) refl,
        (ls, ap (λ r. concat ls ++ r) b ∙ ap (λ r. r ++ []) c, flush-prefix io io' false e, s),
      )

  -- The loop up to the end of the stream.
  read_logs-Progress :
      (es more : List Event) (last : Str) (io : IoProxy W)
      → is_calm es ≡ true
      → (io' : IoProxy W) × (read_logs
            (put_framed wr)
            (tick_framed wr)
            follow
            (es ++ ended last ∷ more)
            io
          ≡ some (returned io' false))
        × Progress io io' (payload es)
  unfolding read_logs is_calm payload frames concat
  read_logs-Progress [] more last io h =
      (io, refl, ([], sym (append-nil io.buf), refl, sym (append-nil (sent io.out))))
  read_logs-Progress (bytes (c ∷ buf) ∷ es) more last io h =
      let (io1, e1, step) = put-Progress io (c ∷ buf) in
      let (io2, e2, rest) = read_logs-Progress es more last io1 h in
      (io2, rw (read_logs, e1) e2, Progress-trans io io1 io2 (c ∷ buf) (payload es) step rest)
  read_logs-Progress (timer ∷ es) more last io h =
      let (io1, e1, step) = tick-Progress io in
      let (io2, e2, rest) = read_logs-Progress es more last io1 h in
      (io2, rw (read_logs, e1) e2, Progress-trans io io1 io2 [] (payload es) step rest)
  read_logs-Progress (bytes [] ∷ es) more last io h = absurd (ground arith)
  read_logs-Progress (stopped ∷ es) more last io h = absurd (ground arith)
  read_logs-Progress (ended buf ∷ es) more last io h = absurd (ground arith)
  read_logs-Progress (broken buf ∷ es) more last io h = absurd (ground arith)

module _ {W : Type 0} (wr : Writer W) (sent : W → Str) (good : IsLossless wr sent) where
  -- Over a writer that takes every byte, a log that is read to its io.EOF, in reads that each get
  -- something and with any timers of the proxy between them: GetLogs returns without an error and
  -- leaves nothing in the buffer, and a reader of the frames gets the bytes of all these reads in
  -- their order, if they are fewer than 2^32; but none of those that come with the io.EOF.
  pub get_logs_lem :
      (opts : LogOptions) (w : W) (es more : List Event) (last : Str)
      → sent w ≡ []
      → is_calm es ≡ true
      → length (payload es) < 2 ^ 32
      → (io : IoProxy W) × (get_logs wr opts (some (es ++ ended last ∷ more)) w
          ≡ some (returned io false))
        × (io.buf ≡ [])
        × (read_all 1 (sent io.out) ≡ some (payload es))
  unfolding get_logs get_logs_to flushed create
  get_logs_lem opts w es more last fresh calm fits =
      let start = create w 1 in
      let (io1, e1, (ls1, b1, p1, s1)) =
        read_logs-Progress wr sent good opts.follow es more last start calm in
      let (io2, ls2, e2, b2, n2, s2) = flush_lossless wr sent good io1 in
      let ls = ls1 ++ ls2 in
      let same : concat ls ≡ payload es = cc (concat-append ls1 ls2) in
      let stream : sent io2.out ≡ frames 1 ls = cc (frames-append 1 ls1 ls2) in
      (
        io2,
        rw (get_logs, get_logs_to, e1, flushed, e2) refl,
        n2,
        rw stream (read_all-frames 1 ls (omega arith) (rw same fits) ∙ ap some same),
      )
