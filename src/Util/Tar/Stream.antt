-- ===== src/Util/Tar/Stream.antt =====
-- Readers as streams of bytes.
use kubedock.Base.{
  ℕ, zero, suc, ◌+◌, ◌-◌, ◌≡◌, ◌≢◌, ◌≤◌, refl, sym, ap, subst, ◌∙◌, Bool, true, false, [], ◌∷◌,
  ◌++◌, Option, some, length, take, drop, replicate, leb, arith, Str, Bool-cases, inl, inr,
  append-nil, append_assoc, length-append, length-take, take-append-drop, take_all,
}
use kubedock.Util.Tar.{
  ReadError, no_error, eof, broken, Reader, ConcatReader, new_concat_reader, concat_read,
  concat_reader, first5, is_broken, new_reader, CompressionType, detect_compression_type,
}

abbrev pub is_silent : ReadError → Bool
is_silent no_error = true
is_silent eof = false
is_silent broken = false

-- What io.Reader documents of a reader, where `left` is what it has still to give: a Read takes at
-- most as many bytes off the front as there is room for, and io.EOF says that nothing is left.
pub record IsStream {R : Type 0} (rd : Reader R) (left : R → Str) : Type 0 where
  pub bounded : (n : ℕ) (r : R) → length (rd.read n r).0 ≤ n
  pub taken : (n : ℕ) (r : R) → left r ≡ (rd.read n r).0 ++ left (rd.read n r).2
  pub ended : (n : ℕ) (r : R) → (rd.read n r).1 ≡ eof → left (rd.read n r).2 ≡ []

-- As io.Reader asks of a reader: a Read with room that gets no byte says that there is an error or
-- the end.
pub record IsLiveStream {R : Type 0} (rd : Reader R) (left : R → Str) : Type 0 where
  pub stream : IsStream rd left
  pub moves : (n : ℕ) (r : R) → (rd.read (suc n) r).0 ≡ [] → is_silent (rd.read (suc n) r).1 ≡ false

-- What a ConcatReader has still to give.
unfoldable pub concat_left : {R : Type 0} → (R → Str) → ConcatReader R → Str
concat_left left c = drop c.offset c.bytes ++ left c.reader

drop_all : (n : ℕ) (s : Str) → length s ≤ n → drop n s ≡ []
drop_all zero [] h = refl
drop_all zero (x ∷ s) h = absurd (omega arith)
drop_all (suc n) [] h = refl
drop_all (suc n) (x ∷ s) h = drop_all n s (omega arith)

drop_same : (m n : ℕ) (s : Str) → m ≡ n → drop m s ≡ drop n s
drop_same m n s h = ap (λ k. drop k s) h

drop-drop : (m n : ℕ) (s : Str) → drop n (drop m s) ≡ drop (m + n) s
drop-drop zero n s = drop_same n (zero + n) s (omega arith)
drop-drop (suc m) n [] = drop_all n [] (omega arith) ∙ sym (drop_all (suc m + n) [] (omega arith))
drop-drop (suc m) n (x ∷ s) =
    drop-drop m n s ∙ drop_same (suc (m + n)) (suc m + n) (x ∷ s) (omega arith)

drop-length-take : (n : ℕ) (s : Str) → drop (length (take n s)) s ≡ drop n s
drop-length-take zero s = refl
drop-length-take (suc n) [] = refl
drop-length-take (suc n) (x ∷ s) = drop-length-take n s

-- The front that is copied and the rest behind the new offset.
copied :
    (n o : ℕ) (s : Str) → take n (drop o s) ++ drop (o + length (take n (drop o s))) s ≡ drop o s
copied n o s =
    ap (λ t. take n (drop o s) ++ t)
      (sym (drop-drop o (length (take n (drop o s))) s) ∙ drop-length-take n (drop o s))
    ∙ take-append-drop n (drop o s)

module _ {R : Type 0} (rd : Reader R) (left : R → Str) where
  read_behind :
      (n : ℕ) (c : ConcatReader R)
      → leb (length c.bytes) c.offset ≡ true
      → concat_read rd n c ≡ (
        (rd.read n c.reader).0,
        (rd.read n c.reader).1,
        record c {
          offset = c.offset + length (rd.read n c.reader).0;
          reader = (rd.read n c.reader).2;
        },
      )
  unfolding concat_read
  read_behind n c h = rw h refl

  read_before :
      (n : ℕ) (c : ConcatReader R)
      → leb (length c.bytes) c.offset ≡ false
      → concat_read rd n c ≡ (
        take n (drop c.offset c.bytes),
        no_error,
        record c { offset = c.offset + length (take n (drop c.offset c.bytes)) },
      )
  unfolding concat_read
  read_before n c h = rw h refl

  -- The three laws for one Read.
  unfoldable ReadIs : ℕ → Str → Str × ReadError × ConcatReader R → Type 0
  ReadIs n s x =
      (length x.0 ≤ n) × (s ≡ x.0 ++ concat_left left x.2) × (x.1 ≡ eof → concat_left left x.2 ≡ [])

  no_eof : ◌≡◌ {A = ReadError} no_error eof → ◌≡◌ {A = ℕ} 0 1
  no_eof h = cc

  ReadIs-before :
      (n : ℕ) (c : ConcatReader R)
      → ReadIs n (concat_left left c) (
        take n (drop c.offset c.bytes),
        no_error,
        record c { offset = c.offset + length (take n (drop c.offset c.bytes)) },
      )
  unfolding ReadIs concat_left
  ReadIs-before n c = (
    omega (arith, length-take n (drop c.offset c.bytes)),
    ap (λ s. s ++ left c.reader) (sym (copied n c.offset c.bytes))
        ∙ append_assoc (take n (drop c.offset c.bytes))
            (drop (c.offset + length (take n (drop c.offset c.bytes))) c.bytes) (left c.reader),
    λ h. absurd (omega (arith, no_eof h)),
  )

  module _ (str : IsStream rd left) where
    ReadIs-behind :
        (n : ℕ) (c : ConcatReader R)
        → length c.bytes ≤ c.offset
        → ReadIs n (concat_left left c) (
          (rd.read n c.reader).0,
          (rd.read n c.reader).1,
          record c {
            offset = c.offset + length (rd.read n c.reader).0;
            reader = (rd.read n c.reader).2;
          },
        )
    unfolding ReadIs concat_left
    ReadIs-behind n c h =
        let more = length (rd.read n c.reader).0 in
        rw (drop_all c.offset c.bytes h, drop_all (c.offset + more) c.bytes (omega arith))
          (str.bounded n c.reader, str.taken n c.reader, str.ended n c.reader)

    read-ReadIs :
        (n : ℕ) (c : ConcatReader R) (b : Bool)
        → leb (length c.bytes) c.offset ≡ b
        → ReadIs n (concat_left left c) (concat_read rd n c)
    read-ReadIs n c true h =
        subst (ReadIs n (concat_left left c)) (sym (read_behind n c h))
          (ReadIs-behind n c (ground arith))
    read-ReadIs n c false h =
        subst (ReadIs n (concat_left left c)) (sym (read_before n c h)) (ReadIs-before n c)

    read_law : (n : ℕ) (c : ConcatReader R) → ReadIs n (concat_left left c) (concat_read rd n c)
    read_law n c = read-ReadIs n c (leb (length c.bytes) c.offset) refl

    pub concat_reader-IsStream : IsStream (concat_reader rd) (concat_left left)
    unfolding concat_reader ReadIs
    concat_reader-IsStream = record {
      bounded = λ n c. (read_law n c).0;
      taken = λ n c. (read_law n c).1;
      ended = λ n c. (read_law n c).2;
    }

drop_some : (n : ℕ) (s : Str) → leb (length s) n ≡ false → take 1 (drop n s) ≢ []
drop_some zero [] h = absurd (ground arith)
drop_some zero (x ∷ s) h = λ e. cc
drop_some (suc n) [] h = absurd (ground arith)
drop_some (suc n) (x ∷ s) h = drop_some n s (ground arith)

take_none : (n : ℕ) (s : Str) → take (suc n) s ≡ [] → take 1 s ≡ []
take_none n [] h = refl
take_none n (x ∷ s) h = cc

module _ {R : Type 0} (rd : Reader R) (left : R → Str) (live : IsLiveStream rd left) where
  concat_moves :
      (n : ℕ) (c : ConcatReader R) (b : Bool)
      → leb (length c.bytes) c.offset ≡ b
      → (concat_read rd (suc n) c).0 ≡ []
      → is_silent (concat_read rd (suc n) c).1 ≡ false
  concat_moves n c true h got =
      let e = read_behind rd left (suc n) c h in
      ap (λ x. is_silent x.1) e ∙ live.moves n c.reader (sym (ap (λ x. x.0) e) ∙ got)
  concat_moves n c false h got =
      let e = read_before rd left (suc n) c h in
      absurd (
        drop_some c.offset c.bytes h
          (take_none n (drop c.offset c.bytes) (sym (ap (λ x. x.0) e) ∙ got)))

  -- A ConcatReader over a reader that is a stream, and whose Reads with room get a byte or an error,
  -- is such a stream itself: it gives the bytes of the slice and then those of the reader, none lost
  -- and none twice, whatever room each Read has, and no Read with room gets nothing without an
  -- error.
  pub concat_reader-IsLiveStream : IsLiveStream (concat_reader rd) (concat_left left)
  unfolding concat_reader
  concat_reader-IsLiveStream = record {
    stream = concat_reader-IsStream rd left live.stream;
    moves = λ n c. concat_moves n c (leb (length c.bytes) c.offset) refl;
  }

module _ {R : Type 0} (rd : Reader R) (left : R → Str) (str : IsStream rd left) where
  length-replicate : (n z : ℕ) → length (replicate n z) ≡ n
  length-replicate zero z = refl
  length-replicate (suc n) z = omega (arith, length-replicate n z)

  first5-split : (got : Str) → length got ≤ 5 → first5 got ≡ got ++ replicate (5 - length got) 0
  unfolding first5
  first5-split got h = take_all 5 (got ++ replicate (5 - length got) 0) (
      omega (
        arith,
        length-append got (replicate (5 - length got) 0),
        length-replicate (5 - length got) 0,
      ))

  some_pair :
      (a b : CompressionType) (c d : ConcatReader R)
      → ◌≡◌ {A = Option (CompressionType × ConcatReader R)} (some (a, c)) (some (b, d))
      → (a ≡ b) × (c ≡ d)
  some_pair a b c d h = (cc, cc)

  opened :
      (r : R) (kind : CompressionType) (c : ConcatReader R)
      → new_reader rd r ≡ some (kind, c)
      → (detect_compression_type (first5 (rd.read 5 r).0) ≡ kind)
        × (new_concat_reader (first5 (rd.read 5 r).0) (rd.read 5 r).2 ≡ c)
  unfolding new_reader
  opened r kind c h = elim (Bool-cases (is_broken (rd.read 5 r).1)) [
    | inl b ↦ absurd (ground arith)
    | inr b ↦
        some_pair (detect_compression_type (first5 (rd.read 5 r).0)) kind
          (new_concat_reader (first5 (rd.read 5 r).0) (rd.read 5 r).2) c (ground arith)
  ]

  -- Where NewReader over a stream returns no error, the decompressor reads the bytes of the archive
  -- with zeros between those that the first Read got and the rest, as many as these are fewer than
  -- five; so it reads exactly the archive if the first Read got five bytes.
  pub new_reader_lem :
      (r : R) (kind : CompressionType) (c : ConcatReader R)
      → new_reader rd r ≡ some (kind, c)
      → let got = (rd.read 5 r).0 in
        (concat_left left c ≡ got ++ replicate (5 - length got) 0 ++ left (rd.read 5 r).2)
        × (length got ≡ 5 → concat_left left c ≡ left r)
        × (kind ≡ detect_compression_type (got ++ replicate (5 - length got) 0))
  unfolding new_reader new_concat_reader concat_left
  new_reader_lem r kind c h =
      let got = (rd.read 5 r).0 in
      let (ekind, ec) = opened r kind c h in
      let padded = first5-split got (str.bounded 5 r) in
      let shown =
        sym (ap (λ x. drop x.offset x.bytes ++ left x.reader) ec)
        ∙ ap (λ s. s ++ left (rd.read 5 r).2) padded in
      (
        shown,
        λ full.
            shown
            ∙ ap (λ n. got ++ replicate (5 - n) 0 ++ left (rd.read 5 r).2) full
            ∙ ap (λ s. s ++ left (rd.read 5 r).2) (append-nil got)
            ∙ sym (str.taken 5 r),
        sym ekind ∙ ap detect_compression_type padded,
      )
