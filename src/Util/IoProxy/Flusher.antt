-- ===== src/Util/IoProxy/Flusher.antt =====
-- The timer of ioproxy.go: when a rest of a line that waits in the buffer is sent without a newline.
use kubedock.Base.{ℕ, ◌≡◌, ◌≢◌, refl, true, false, [], ◌∷◌, ◌++◌, none, some, arith, Str}
use kubedock.Util.IoProxy.{Writer, IoProxy, line_end, write, flush, create, schedule}
use kubedock.Util.IoProxy.Lines.{split_lines, split_lines-none}
use kubedock.Util.IoProxy.Sending.{IsLossless}
use kubedock.Util.IoProxy.Delivery.{write_step}

split_lines-newline :
    (s : Str) → line_end s ≡ none → split_lines (s ++ b'\n' ∷ []) ≡ ((s ++ b'\n' ∷ []) ∷ [], [])
unfolding split_lines line_end
split_lines-newline [] h = refl
split_lines-newline (c ∷ s) h = ground (arith, split_lines-newline s)

module _ {W : Type 0} (wr : Writer W) (sent : W → Str) (good : IsLossless wr sent) where
  -- Over a writer that takes every byte: output `p` with no newline starts the timer; the newline
  -- comes before the timer runs out; the timer's flush then finds an empty buffer. From there on the
  -- next output `r` with no newline stays in the buffer and no timer is started for it.
  pub timer_lost :
      (w : W) (prefix : ℕ) (p r : Str)
      → p ≢ []
      → r ≢ []
      → line_end p ≡ none
      → line_end r ≡ none
      → (io1 io2 io3 io4 : IoProxy W) × (write wr (create w prefix) p ≡ some (io1, true))
        × (write wr io1 (b'\n' ∷ []) ≡ some (io2, false))
        × (flush wr io2 ≡ some (io3, false))
        × (write wr io3 r ≡ some (io4, false))
        × (io4.buf ≡ r)
  unfolding create schedule flush
  timer_lost w prefix p r hp hr lp lr =
      let (w1, e1, s1) = write_step wr sent good (create w prefix) p in
      let io1 : IoProxy W = record { out = w1; prefix = prefix; buf = p; flusher = true } in
      let (w2, e2, s2) = write_step wr sent good io1 (b'\n' ∷ []) in
      let io2 : IoProxy W = record { out = w2; prefix = prefix; buf = []; flusher = true } in
      let (w3, e3, s3) = write_step wr sent good io2 r in
      let io4 : IoProxy W = record { out = w3; prefix = prefix; buf = r; flusher = true } in
      (
        io1,
        io2,
        io2,
        io4,
        ground (arith, split_lines-none p lp),
        ground (arith, split_lines-newline p lp),
        refl,
        ground (arith, split_lines-none r lr),
        refl,
      )
