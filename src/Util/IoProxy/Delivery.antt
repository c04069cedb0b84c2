-- ===== src/Util/IoProxy/Delivery.antt =====
-- What reaches the writer below a proxy: the bytes that were written, in frames.
use kubedock.Base.{
  ◌∙◌, ◌⊎◌, ℕ, zero, suc, ◌^◌, ◌<◌, ◌≡◌, refl, sym, ap, Bool, false, List, [], ◌∷◌, ◌++◌,
  append_assoc, append-nil, some, length, take, drop, arith, Option-cases, inl, inr, length-drop,
  Str,
}
use kubedock.Util.IoProxy.{
  Writer, IoProxy, line_end, process, drain, write, flush, write_each, write_and_flush, create,
  schedule,
}
use kubedock.Util.IoProxy.Frames.{
  frame, frames, concat, frames-append, concat-append, read_all, read_all-frames,
}
use kubedock.Util.IoProxy.Lines.{
  split_lines, split_lines-none, split_lines-some, concat-split_lines,
}
use kubedock.Util.IoProxy.Sending.{IsLossless, send_lossless}

list_cases : (s : Str) → (s ≡ []) ⊎ ((c : ℕ) × (t : Str) × (s ≡ c ∷ t))
list_cases [] = inl refl
list_cases (c ∷ t) = inr (c, t, refl)

module _ {W : Type 0} (wr : Writer W) (sent : W → Str) (good : IsLossless wr sent) where
  -- Draining sends each complete line in a frame of its own and keeps the rest.
  drain_lossless :
      (fuel : ℕ) (io : IoProxy W)
      → length io.buf < fuel
      → (w' : W) × (drain wr fuel io ≡ some (record io { out = w'; buf = (split_lines io.buf).1 }))
        × (sent w' ≡ sent io.out ++ frames io.prefix (split_lines io.buf).0)
  unfolding drain process frames
  drain_lossless zero io h = absurd (omega arith)
  drain_lossless (suc fuel) io h = elim (Option-cases (line_end io.buf)) [
    | inl whole ↦
        let e = split_lines-none io.buf whole in
        (io.out, ground (arith, e), rw e (sym (append-nil (sent io.out))))
    | inr (zero, cut) ↦ absurd (omega (arith, (split_lines-some io.buf 0 cut).0))
    | inr (suc k, cut) ↦
        let n = suc k in
        let (positive, fits, e) = split_lines-some io.buf n cut in
        let (w1, e1, s1) = send_lossless wr sent good io.out io.prefix (take n io.buf) in
        let (w2, e2, s2) =
          drain_lossless fuel (record io { out = w1; buf = drop n io.buf })
            (omega (arith, length-drop n io.buf)) in
        let l = take n io.buf in
        (
          w2,
          ground arith,
          rw e (
              cc (
                s1,
                s2,
                append_assoc (sent io.out) (frame io.prefix l)
                    (frames io.prefix (split_lines (drop n io.buf)).0),
              )),
        )
  ]

  -- A call of Write goes through, and keeps what is behind the last newline.
  pub write_step :
      (io : IoProxy W) (p : Str)
      → (w' : W) × (write wr io p
          ≡ some (schedule (record io { out = w'; buf = (split_lines (io.buf ++ p)).1 })))
        × (sent w' ≡ sent io.out ++ frames io.prefix (split_lines (io.buf ++ p)).0)
  unfolding write
  write_step io p =
      let (w', e, s) =
        drain_lossless (suc (length (io.buf ++ p))) (record io { buf = io.buf ++ p })
          (omega arith) in
      (w', ground arith, s)

  pub write_lossless :
      (io : IoProxy W) (p : Str)
      → (io' : IoProxy W) × (timer : Bool) × (write wr io p ≡ some (io', timer))
        × (io'.buf ≡ (split_lines (io.buf ++ p)).1)
        × (io'.prefix ≡ io.prefix)
        × (sent io'.out ≡ sent io.out ++ frames io.prefix (split_lines (io.buf ++ p)).0)
  unfolding schedule
  write_lossless io p =
      let (w', e, s) = write_step io p in
      let d : IoProxy W = record io { out = w'; buf = (split_lines (io.buf ++ p)).1 } in
      ((schedule d).0, (schedule d).1, e, ground arith, ground arith, ground arith)

  write_each_lossless :
      (io : IoProxy W) (ps : List Str)
      → (io' : IoProxy W) × (ls : List Str) × (write_each wr io ps ≡ some io')
        × (concat ls ++ io'.buf ≡ io.buf ++ concat ps)
        × (io'.prefix ≡ io.prefix)
        × (sent io'.out ≡ sent io.out ++ frames io.prefix ls)
  unfolding write_each concat frames
  write_each_lossless io [] =
      (io, [], refl, sym (append-nil io.buf), refl, sym (append-nil (sent io.out)))
  write_each_lossless io (p ∷ ps) =
      let (io1, timer, e1, b1, p1, s1) = write_lossless io p in
      let (io2, ls2, e2, b2, p2, s2) = write_each_lossless io1 ps in
      let ls1 = (split_lines (io.buf ++ p)).0 in
      (
        io2,
        ls1 ++ ls2,
        ground arith,
        cc (
          concat-append ls1 ls2,
          append_assoc (concat ls1) (concat ls2) io2.buf,
          append_assoc (concat ls1) io1.buf (concat ps),
          concat-split_lines (io.buf ++ p),
          append_assoc io.buf p (concat ps),
        ),
        p2 ∙ p1,
        cc (
          frames-append io.prefix ls1 ls2,
          append_assoc (sent io.out) (frames io.prefix ls1) (frames io.prefix ls2),
        ),
      )

  pub flush_lossless :
      (io : IoProxy W)
      → (io' : IoProxy W) × (ls : List Str) × (flush wr io ≡ some (io', false))
        × (concat ls ≡ io.buf)
        × (io'.buf ≡ [])
        × (sent io'.out ≡ sent io.out ++ frames io.prefix ls)
  unfolding flush concat frames
  flush_lossless io = elim (list_cases io.buf) [
    | inl e ↦ (io, [], ground arith, sym e, e, sym (append-nil (sent io.out)))
    | inr (c, s, e) ↦
        let (w', e', s') = send_lossless wr sent good io.out io.prefix io.buf in
        (
          record io { out = w'; buf = []; flusher = false },
          io.buf ∷ [],
          ground arith,
          append-nil io.buf,
          refl,
          s' ∙ ap (λ t. sent io.out ++ t) (sym (append-nil (frame io.prefix io.buf))),
        )
  ]

  -- Over a writer that takes every byte, writes followed by a flush deliver what was written: the
  -- calls return, nothing is left in the buffer, and a reader of the frames gets the bytes of all
  -- the writes in their order, if these are fewer than 2^32.
  pub write_and_flush_delivers :
      (w : W) (prefix : ℕ) (ps : List Str)
      → prefix < 256
      → sent w ≡ []
      → length (concat ps) < 2 ^ 32
      → (io' : IoProxy W) × (write_and_flush wr (create w prefix) ps ≡ some (io', false))
        × (io'.buf ≡ [])
        × (read_all prefix (sent io'.out) ≡ some (concat ps))
  unfolding write_and_flush create
  write_and_flush_delivers w prefix ps small fresh fits =
      let (io1, ls1, e1, b1, p1, s1) = write_each_lossless (create w prefix) ps in
      let (io2, ls2, e2, b2, n2, s2) = flush_lossless io1 in
      let ls = ls1 ++ ls2 in
      let same : concat ls ≡ concat ps = cc (concat-append ls1 ls2) in
      let stream : sent io2.out ≡ frames prefix ls = cc (frames-append prefix ls1 ls2) in
      (
        io2,
        ground arith,
        n2,
        rw stream (read_all-frames prefix ls small (rw same fits) ∙ ap some same),
      )
