-- ===== src/Util/IoProxy/Sending.antt =====
-- Sending over a writer that never fails, may take less than it is given, and takes something.
use kubedock.Base.{
  ℕ, zero, suc, ◌≤◌, ◌<◌, ◌≡◌, ◌≢◌, refl, sym, length-drop, false, [], ◌∷◌, ◌++◌, append_assoc,
  append-nil, some, length, take, drop, arith, take-append-drop, Str,
}
use kubedock.Util.IoProxy.{Writer, header, write_all, send}
use kubedock.Util.IoProxy.Frames.{frame}

-- `sent` is what the writer has passed on so far. io.Writer documents the bound and that a call
-- that takes less than it is given returns an error; that there is none is the assumption.
pub record IsLossless {W : Type 0} (wr : Writer W) (sent : W → Str) : Type 0 where
  pub takes : (w : W) (p : Str) → p ≢ [] → (0 < (wr.write w p).1) × ((wr.write w p).1 ≤ length p)
  pub passes_on : (w : W) (p : Str) → sent (wr.write w p).0 ≡ sent w ++ take (wr.write w p).1 p
  pub succeeds : (w : W) (p : Str) → (wr.write w p).2 ≡ false

module _ {W : Type 0} (wr : Writer W) (sent : W → Str) (good : IsLossless wr sent) where
  -- Everything is sent, in at most as many rounds as there are bytes.
  pub write_all_lossless :
      (fuel : ℕ) (w : W) (p : Str)
      → length p ≤ fuel
      → (w' : W) × (write_all wr fuel w p ≡ some (w', false)) × (sent w' ≡ sent w ++ p)
  unfolding write_all
  write_all_lossless zero w [] h = (w, refl, sym (append-nil (sent w)))
  write_all_lossless (suc fuel) w [] h = (w, refl, sym (append-nil (sent w)))
  write_all_lossless zero w (c ∷ p) h = absurd (omega arith)
  write_all_lossless (suc fuel) w (c ∷ p) h =
      let p' : Str = c ∷ p in
      let w1 = (wr.write w p').0 in
      let n = (wr.write w p').1 in
      let progress = good.takes w p' cc in
      let shorter : length (drop n p') ≤ fuel = omega (arith, length-drop n p') in
      let (w', e, s) = write_all_lossless fuel w1 (drop n p') shorter in
      (
        w',
        ground (arith, good.succeeds w p'),
        cc (
          good.passes_on w p',
          append_assoc (sent w) (take n p') (drop n p'),
          take-append-drop n p',
        ),
      )

  pub send_lossless :
      (w : W) (prefix : ℕ) (p : Str)
      → (w' : W) × (send wr w prefix p ≡ some (w', false)) × (sent w' ≡ sent w ++ frame prefix p)
  unfolding send frame
  send_lossless w prefix p =
      let h = header prefix p in
      let (w1, e1, s1) = write_all_lossless (length h) w h (omega arith) in
      let (w2, e2, s2) = write_all_lossless (length p) w1 p (omega arith) in
      (w2, ground arith, ground (arith, append_assoc (sent w) h p))
