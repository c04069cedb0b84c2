-- ===== src/Util/Tar/Tests.antt =====
-- Readers over bytes in memory, and an archive of one folder and one file.
use kubedock.Base.{
  ℕ, zero, suc, ◌≡◌, ◌≢◌, ◌≤◌, refl, sym, true, false, [], ◌∷◌, ◌++◌, some, take, drop, is_nil,
  if◌then◌else◌, length-take, take-append-drop, any_of, replicate, ◌-◌, arith, Str, str_eq,
}
use Prim.Native.Nat.{min}
use kubedock.Base.Text.{codes, has_prefix}
use kubedock.Util.Tar.{
  Reader, no_error, eof, ConcatReader, new_reader, gzip, concat_reader, is_compressed,
  detect_compression_type,
}
use kubedock.Util.Tar.Stream.{
  is_silent, IsStream, IsLiveStream, concat_left, concat_reader-IsLiveStream, new_reader_lem,
}
use kubedock.Util.Tar.Entries.{
  Header, Listing, type_dir, type_reg, get_targets, get_file_mode, unpack_file,
  is_single_file_archive, get_tar_size,
}
use kubedock.Util.Tar.Found.{get_targets-found}

-- bytes.NewReader, with at most `step` bytes for a Read
unfoldable chunks : ℕ → Reader Str
chunks step = record {
  read = λ n s. (take (min n step) s, if is_nil s then eof else no_error, drop (min n step) s);
}

nil_ended : (k : ℕ) (s : Str) → (if is_nil s then eof else no_error) ≡ eof → drop k s ≡ []
nil_ended zero [] h = refl
nil_ended (suc k) [] h = refl
nil_ended k (x ∷ s) h = absurd (ground arith)

chunks-IsStream : (step : ℕ) → IsStream (chunks step) (λ s. s)
unfolding chunks
chunks-IsStream step = record {
  bounded = λ n s. omega (arith, length-take (min n step) s);
  taken = λ n s. sym (take-append-drop (min n step) s);
  ended = λ n s h. nil_ended (min n step) s h;
}

take_some : (m x : ℕ) (s : Str) → 1 ≤ m → take m (x ∷ s) ≢ []
take_some zero x s h = absurd (omega arith)
take_some (suc m) x s h = λ e. cc

chunk_moves :
    (n : ℕ) (s : Str)
    → ((chunks 3).read (suc n) s).0 ≡ []
    → is_silent ((chunks 3).read (suc n) s).1 ≡ false
unfolding chunks
chunk_moves n [] h = refl
chunk_moves n (x ∷ s) h = absurd (take_some (min (suc n) 3) x s (omega arith) h)

chunks-IsLiveStream : IsLiveStream (chunks 3) (λ s. s)
chunks-IsLiveStream = record { stream = chunks-IsStream 3; moves = chunk_moves }

concat_reader-IsLiveStream_example : IsLiveStream (concat_reader (chunks 3)) (concat_left (λ s. s))
concat_reader-IsLiveStream_example =
    concat_reader-IsLiveStream (chunks 3) (λ s. s) chunks-IsLiveStream

abbrev gz : Str
gz = 31 ∷ 139 ∷ 8 ∷ 0 ∷ 7 ∷ 9 ∷ 9 ∷ []

abbrev opened : ConcatReader Str
opened = record { bytes = 31 ∷ 139 ∷ 8 ∷ 0 ∷ 7 ∷ []; offset = 0; reader = 9 ∷ 9 ∷ [] }

new_reader_lem_example :
    (concat_left (λ s. s) opened ≡ (31 ∷ 139 ∷ 8 ∷ 0 ∷ 7 ∷ []) ++ replicate (5 - 5) 0 ++ 9 ∷ 9 ∷ [])
    × (◌≡◌ {A = ℕ} 5 5 → concat_left (λ s. s) opened ≡ gz)
    × (gzip ≡ detect_compression_type ((31 ∷ 139 ∷ 8 ∷ 0 ∷ 7 ∷ []) ++ replicate (5 - 5) 0))
unfolding new_reader chunks has_prefix
new_reader_lem_example = new_reader_lem (chunks 9) (λ s. s) (chunks-IsStream 9) gz gzip opened refl

-- The first Read may get less than five bytes: then zeros stand in the middle of the archive.
torn :
    new_reader (chunks 2) gz
    ≡ some (
      gzip,
      record { bytes = 31 ∷ 139 ∷ 0 ∷ 0 ∷ 0 ∷ []; offset = 0; reader = 8 ∷ 0 ∷ 7 ∷ 9 ∷ 9 ∷ [] },
    )
unfolding new_reader chunks has_prefix
torn = refl

unfoldable join : Str → Str → Str
join dst name = dst ++ b'/' ∷ name

abbrev archive : Listing
archive = record {
  headers =
      record { name = codes "d"; typeflag = type_dir; mode = 493; content = []; torn = false }
      ∷ record {
        name = codes "d/f";
        typeflag = type_reg;
        mode = 420;
        content = codes "hi";
        torn = false;
      }
      ∷ [];
  is_eof = true;
  read_bytes = 2560;
}

single : is_single_file_archive (some archive) ≡ true
unfolding is_single_file_archive
single = refl

get_targets-found_example :
    (h : Header) × (get_file_mode join (codes "/tmp") (codes "/tmp/d/f") (some archive)
      ≡ (h.mode, false))
    × (unpack_file join (codes "/tmp") (codes "/tmp/d/f") (some archive) ≡ (h.content, h.torn))
unfolding any_of get_targets str_eq join codes
get_targets-found_example =
    get_targets-found join (codes "/tmp") (codes "/tmp/d/f") type_reg archive refl

compressed : is_compressed gz ≡ true
unfolding is_compressed has_prefix
compressed = refl

size : get_tar_size (some archive) ≡ (2560, false)
unfolding get_tar_size
size = refl
