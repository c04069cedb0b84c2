-- ===== src/Util/Tar.antt =====
-- internal/util/tar: concatreader.go, and of reader.go and tar.go what does not belong to the
-- libraries for archives and compression.
pub mod Stream
pub mod Entries
pub mod Found
pub mod Tests
use kubedock.Base.{
  ℕ, ◌+◌, ◌-◌, ◌≡◌, ◌≤◌, Bool, true, false, List, [], ◌∷◌, ◌++◌, Option, none, some, length, take,
  drop, replicate, ltb, leb, if◌then◌else◌, not, Str,
}
use kubedock.Base.Text.{codes, has_prefix}

-- The error of a Read: none, io.EOF or another one.
pub data ReadError : Type 0 where
  no_error eof broken : ReadError

-- An io.Reader: with room for `n` bytes it returns the bytes it wrote, the error and what it is then.
pub record Reader (R : Type 0) : Type 0 where
  pub read : ℕ → R → Str × ReadError × R

-- ConcatReader
pub record ConcatReader (R : Type 0) : Type 0 where
  pub bytes : Str
  pub offset : ℕ
  pub reader : R

-- NewConcatReader
unfoldable pub new_concat_reader : {R : Type 0} → Str → R → ConcatReader R
new_concat_reader bytes r = record { bytes = bytes; offset = 0; reader = r }

-- Read of a ConcatReader
unfoldable pub concat_read :
    {R : Type 0} → Reader R → ℕ → ConcatReader R → Str × ReadError × ConcatReader R
concat_read rd n c =
    if leb (length c.bytes) c.offset
    then (let (got, e, r) = rd.read n c.reader in
        (got, e, record c { offset = c.offset + length got; reader = r }))
    else (let got = take n (drop c.offset c.bytes) in
        (got, no_error, record c { offset = c.offset + length got }))

unfoldable pub concat_reader : {R : Type 0} → Reader R → Reader (ConcatReader R)
unfolding concat_read
concat_reader rd = record { read = concat_read rd }

-- CompressionType
pub data CompressionType : Type 0 where
  unknown gzip bzip2 xz : CompressionType

-- detectCompressionType
unfoldable pub detect_compression_type : Str → CompressionType
detect_compression_type dat =
    if ltb (length dat) 3
    then unknown
    else if has_prefix dat (31 ∷ 139 ∷ [])
    then gzip
    else if has_prefix dat (253 ∷ codes "7zXZ")
    then xz
    else if has_prefix dat (codes "BZh")
    then bzip2
    else unknown

abbrev pub is_unknown : CompressionType → Bool
is_unknown unknown = true
is_unknown gzip = false
is_unknown bzip2 = false
is_unknown xz = false

-- IsCompressed
unfoldable pub is_compressed : Str → Bool
unfolding detect_compression_type
is_compressed dat = not (is_unknown (detect_compression_type dat))

-- The slice first5Bytes after a Read that wrote `got` to its front.
unfoldable pub first5 : Str → Str
first5 got = take 5 (got ++ replicate (5 - length got) 0)

abbrev pub is_broken : ReadError → Bool
is_broken no_error = false
is_broken eof = false
is_broken broken = true

-- NewReader up to the decompressors, which are then made for the type and read what is returned;
-- `none` is its error.
unfoldable pub new_reader : {R : Type 0} → Reader R → R → Option (CompressionType × ConcatReader R)
unfolding first5 detect_compression_type new_concat_reader
new_reader rd r =
    let (got, e, r') = rd.read 5 r in
    if is_broken e
    then none
    else some (detect_compression_type (first5 got), new_concat_reader (first5 got) r')
