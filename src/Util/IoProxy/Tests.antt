-- ===== src/Util/IoProxy/Tests.antt =====
-- A proxy run over a writer that takes three bytes at a time.
use Prim.Native.Nat.{min}
use kubedock.Base.{
  suc, ◌<◌, ◌≡◌, ◌≢◌, refl, ap, true, false, List, [], ◌∷◌, ◌++◌, some, length, take, arith, Str,
}
use kubedock.Base.Text.{codes}
use kubedock.Util.IoProxy.{Writer, IoProxy, create, write, flush, write_and_flush, line_end}
use kubedock.Util.IoProxy.Frames.{read_all, concat}
use kubedock.Util.IoProxy.Sending.{IsLossless}
use kubedock.Util.IoProxy.Delivery.{write_and_flush_delivers}
use kubedock.Util.IoProxy.Flusher.{timer_lost}

abbrev pub slow : Writer Str
slow = record { write = λ w p. (w ++ take 3 p, min 3 (length p), false) }

abbrev pub sent : Str → Str
sent w = w

take-min : (p : Str) → take 3 p ≡ take (min 3 (length p)) p
take-min [] = refl
take-min (a ∷ []) = refl
take-min (a ∷ b ∷ []) = refl
take-min (a ∷ b ∷ c ∷ p) = let e : min 3 (suc (suc (suc (length p)))) ≡ 3 = omega arith in rw e

positive : (p : Str) → p ≢ [] → 0 < length p
positive [] h = absurd (h refl)
positive (c ∷ p) h = omega arith

pub slow-IsLossless : IsLossless slow sent
slow-IsLossless = record {
  takes = λ w p h. (omega (arith, positive p h), omega arith);
  passes_on = λ w p. ap (λ t. w ++ t) (take-min p);
  succeeds = λ w p. refl;
}

abbrev output : List Str
output = codes "ab\nc" ∷ codes "d\n" ∷ codes "e" ∷ []

write_and_flush_delivers_example :
    (io' : IoProxy Str) × (write_and_flush slow (create [] 1) output ≡ some (io', false))
    × (io'.buf ≡ [])
    × (read_all 1 io'.out ≡ some (concat output))
unfolding codes concat
write_and_flush_delivers_example =
    write_and_flush_delivers slow sent slow-IsLossless [] 1 output (omega arith) refl (omega arith)

timer_lost_example :
    (io1 io2 io3 io4 : IoProxy Str) × (write slow (create [] 1) (codes "a") ≡ some (io1, true))
    × (write slow io1 (b'\n' ∷ []) ≡ some (io2, false))
    × (flush slow io2 ≡ some (io3, false))
    × (write slow io3 (codes "b") ≡ some (io4, false))
    × (io4.buf ≡ codes "b")
unfolding codes line_end
timer_lost_example =
    timer_lost slow sent slow-IsLossless [] 1 (codes "a") (codes "b") (cc) (cc) refl refl
