-- ===== src/Core/Mp4/Scan.antt =====
-- The boxes that the scan finds are those of the file, one behind the other.
use mediastub.Prelude.{
  ◌⊎◌, inl, inr, ℕ, zero, suc, ◌+◌, ◌-◌, ◌^◌, ◌≤◌, ◌<◌, ◌≡◌, refl, sym, ap, ap₂, ◌∙◌, Bool, true,
  false, ◌||◌, ◌&&◌, List, [], ◌∷◌, ◌++◌, arith, length, take, drop, ltb, ◌==◌, ltb→lt,
  length-append, drop-drop, take-add, take-drop-take,
}
use mediastub.Core.Base.{Bytes, Read, box_too_large, bad_box, metadata_too_large}
use mediastub.Core.Source.{Source}
use mediastub.Core.Source.Faithful.{Serves, IsPart}
use mediastub.Core.Action.{Act, ◌>>=◌, pure, read, check_read}
use mediastub.Core.Action.Ensures.{
  Ensures, IsFull, bind-Ensures, pure-Ensures, fail-Ensures, if-Ensures, weaken-Ensures,
  check_read-Ensures, read-Ensures,
}
use mediastub.Core.Ebml.{be_value}
use mediastub.Core.Mp4.{
  Mp4Box, is_metadata, check_header, check_size, box_size, box_body, read_box, scan_boxes,
  scan_mp4_top_level, same_bytes, moov, mdat, max_metadata_element_size,
}

-- What the size field of the box at `o` says: an extended size behind the type, or the rest of the file,
-- or the size itself
abbrev pub SaysSize : Bytes → ℕ → ℕ → ℕ → Type 0
SaysSize content o size header_size =
    let field = be_value 0 (take 4 (drop o content)) in
    ((field ≡ 1) × (size ≡ be_value 0 (take 8 (drop (o + 8) content))) × (header_size ≡ 16))
    ⊎ (((field ≡ 0) × (size ≡ length content - o) × (header_size ≡ 8))
        ⊎ ((1 < field) × (size ≡ field) × (header_size ≡ 8)))

-- A box of the file at the place `o`: it has the size that its field says and ends within the file, its header is read from there, and
-- a metadata box is read whole.
pub record IsBox (content : Bytes) (o : ℕ) (b : Mp4Box) : Type 0 where
  pub placed : b.offset ≡ o
  pub says_size : SaysSize content o b.size (length b.header)
  pub large : 8 ≤ length b.header
  pub header_fits : length b.header ≤ b.size
  pub within : o + b.size ≤ length content
  pub header_is : b.header ≡ take (length b.header) (drop o content)
  pub typ_is : b.typ ≡ take 4 (drop (o + 4) content)
  pub body_is : is_metadata b.typ ≡ true → b.body ≡ take b.size (drop o content)

-- The boxes stand one behind the other, from `o` on.
abbrev pub Tiled : Bytes → ℕ → List Mp4Box → Type 0
Tiled content o [] = Unit
Tiled content o (b ∷ bs) = IsBox content o b × Tiled content (o + b.size) bs

abbrev pub end_of : ℕ → List Mp4Box → ℕ
end_of o [] = o
end_of o (b ∷ bs) = end_of (o + b.size) bs

abbrev pub has_type : Bytes → List Mp4Box → Bool
has_type typ [] = false
has_type typ (b ∷ bs) = same_bytes b.typ typ || has_type typ bs

-- The boxes fill the file, or a `moov` and an `mdat` have been seen, before them or among them.
abbrev pub Stopped : Bytes → ℕ → Bool → Bool → List Mp4Box → Type 0
Stopped content o seen_moov seen_mdat bs =
    (length content ≤ end_of o bs)
    ⊎ (((seen_moov || has_type moov bs) ≡ true) × ((seen_mdat || has_type mdat bs) ≡ true))

pub record Scanned (content : Bytes) (o : ℕ) (seen_moov seen_mdat : Bool) (bs : List Mp4Box)
    : Type 0 where
  pub tiled : Tiled content o bs
  pub stopped : Stopped content o seen_moov seen_mdat bs

or_assoc : (a b c : Bool) → ((a || b) || c) ≡ true → (a || (b || c)) ≡ true
or_assoc true b c h = refl
or_assoc false b c h = h

Scanned-cons :
    (content : Bytes) (o : ℕ) (m d : Bool) (b : Mp4Box) (bs : List Mp4Box)
    → IsBox content o b
    → Scanned content (o + b.size) (m || same_bytes b.typ moov) (d || same_bytes b.typ mdat) bs
    → Scanned content o m d (b ∷ bs)
Scanned-cons content o m d b bs is_box s = record {
  tiled = (is_box, s.tiled);
  stopped = elim s.stopped [
    | inl full ↦ inl full
    | inr (has_moov, has_mdat) ↦ inr (
      or_assoc m (same_bytes b.typ moov) (has_type moov bs) has_moov,
      or_assoc d (same_bytes b.typ mdat) (has_type mdat bs) has_mdat,
    )
  ];
}

check_header-Ensures :
    {St : Type 0} (Inv : St → Type 0) (content : Bytes) (off : ℕ) (r : Read)
    → IsPart content 8 off r
    → Ensures Inv (IsFull content 8 off) (check_header r)
unfolding check_header
check_header-Ensures Inv content off r p s v = ground (arith, p.part, p.complete, v)

module _ (content : Bytes) (source : Source) (serves : Serves content source) where
  read_then-Ensures :
      {A : Type 0} (Q : A → Type 0) (n off : ℕ) (f : Bytes → Act source.State A)
      → ((bs : Bytes) → IsFull content n off bs → Ensures serves.Inv Q (f bs))
      → Ensures serves.Inv Q (read source n off >>= λ r. check_read r >>= f)
  read_then-Ensures Q n off f rest =
      bind-Ensures serves.Inv (IsPart content n off) Q (read source n off) _
        (read-Ensures content source serves n off)
        (λ r p.
          bind-Ensures serves.Inv (IsFull content n off) Q (check_read r) f
            (check_read-Ensures serves.Inv content n off r p) rest)

  -- A size with a header of at least eight bytes that is read from the file.
  abbrev IsSized : ℕ → ℕ × Bytes → Type 0
  IsSized o (size, header) =
      (8 ≤ length header)
      × (header ≡ take (length header) (drop o content))
      × SaysSize content o size (length header)

  full : (n o : ℕ) (bs : Bytes) → IsFull content n o bs → bs ≡ take n (drop o content)
  full n o bs h = h.0 ∙ ap (λ k. take k (drop o content)) h.1

  joined :
      (o : ℕ) (head tail : Bytes)
      → IsFull content 8 o head
      → IsFull content 8 (o + 8) tail
      → (8 ≤ length (head ++ tail)) × (head ++ tail ≡ take (length (head ++ tail)) (drop o content))
  joined o head tail h t =
      let size : length (head ++ tail) ≡ 16 = omega (arith, length-append head tail, h.1, t.1) in
      let whole : head ++ tail ≡ take 16 (drop o content) =
        ap₂ ◌++◌ (full 8 o head h)
          (full 8 (o + 8) tail t ∙ ap (take 8) (sym (drop-drop 8 o content)))
        ∙ take-add 8 8 (drop o content) in
      (omega arith, whole ∙ ap (λ k. take k (drop o content)) (sym size))

  field_is :
      (o : ℕ) (head : Bytes)
      → IsFull content 8 o head
      → be_value 0 (take 4 head) ≡ be_value 0 (take 4 (drop o content))
  field_is o head h = ap (be_value 0) (ap (take 4) (full 8 o head h) ∙ take_of_take)
    where
      take_of_take : take 4 (take 8 (drop o content)) ≡ take 4 (drop o content)
      take_of_take = take-drop-take 4 0 8 (drop o content) (omega arith)

  extended :
      (o : ℕ) (head tail : Bytes)
      → IsFull content 8 o head
      → IsFull content 8 (o + 8) tail
      → be_value 0 (take 4 head) ≡ 1
      → IsSized o (be_value 0 tail, head ++ tail)
  extended o head tail h t is_one =
      let both = joined o head tail h t in
      (
        both.0,
        both.1,
        inl (
          sym (field_is o head h) ∙ is_one,
          ap (be_value 0) (full 8 (o + 8) tail t),
          omega (arith, length-append head tail, h.1, t.1),
        ),
      )

  box_size-Ensures :
      (o : ℕ) (head : Bytes)
      → IsFull content 8 o head
      → Ensures serves.Inv (IsSized o) (box_size source o head)
  unfolding box_size
  box_size-Ensures o head h =
      if-Ensures serves.Inv (IsSized o) (be_value 0 (take 4 head) == 1) _ _
        (λ is_one. read_then-Ensures (IsSized o) 8 (o + 8) _ (λ tail t.
          if-Ensures serves.Inv (IsSized o) (ltb (2 ^ 63 - 1) (be_value 0 tail)) _ _
            (λ e. fail-Ensures serves.Inv (IsSized o) box_too_large)
            (λ e.
              pure-Ensures serves.Inv (IsSized o) (be_value 0 tail, head ++ tail)
                (extended o head tail h t (ground (arith, is_one))))))
        (λ not_one.
          if-Ensures serves.Inv (IsSized o) (be_value 0 (take 4 head) == 0) _ _
            (λ is_zero.
              pure-Ensures serves.Inv (IsSized o) (source.size - o, head)
                (
                  omega arith,
                  h.0,
                  inr (inl (ground (arith, field_is o head h), omega (arith, serves.sized), h.1)),
                ))
            (λ not_zero.
              pure-Ensures serves.Inv (IsSized o) (be_value 0 (take 4 head), head)
                (
                  omega arith,
                  h.0,
                  inr (inr (ground (arith, field_is o head h), field_is o head h, h.1)),
                )))

  -- The body of a metadata box is the whole box.
  abbrev IsBody : ℕ → Bytes → ℕ → Bytes → Type 0
  IsBody o typ size body = is_metadata typ ≡ true → body ≡ take size (drop o content)

  box_body-Ensures :
      (typ : Bytes) (o size : ℕ)
      → Ensures serves.Inv (IsBody o typ size) (box_body source typ o size)
  unfolding box_body
  box_body-Ensures typ o size =
      if-Ensures serves.Inv (IsBody o typ size) (is_metadata typ) _ _
        (λ meta.
          if-Ensures serves.Inv (IsBody o typ size) (ltb max_metadata_element_size size) _ _
            (λ e. fail-Ensures serves.Inv (IsBody o typ size) metadata_too_large)
            (λ e.
              bind-Ensures serves.Inv (IsPart content size o) (IsBody o typ size)
                (read source size o) _ (read-Ensures content source serves size o)
                (λ r p.
                  weaken-Ensures serves.Inv (IsFull content size o) (IsBody o typ size)
                    (check_read r) (λ body f meta. full size o body f)
                    (check_read-Ensures serves.Inv content size o r p))))
        (λ other. pure-Ensures serves.Inv (IsBody o typ size) [] (λ meta. cc))

  abbrev Fits : ℕ → ℕ → ℕ → Unit {0} → Type 0
  Fits header_size size o u = (header_size ≤ size) × (size ≤ source.size - o)

  read_box-Ensures :
      (o : ℕ) → o < source.size → Ensures serves.Inv (IsBox content o) (read_box source o)
  unfolding read_box
  read_box-Ensures o inside =
      bind-Ensures serves.Inv (IsPart content 8 o) (IsBox content o) (read source 8 o) _
        (read-Ensures content source serves 8 o)
        λ r p.
          bind-Ensures serves.Inv (IsFull content 8 o) (IsBox content o) (check_header r) _
            (check_header-Ensures serves.Inv content o r p)
            λ head h.
              bind-Ensures serves.Inv (IsSized o) (IsBox content o) (box_size source o head) _
                (box_size-Ensures o head h)
                λ (size, header) sized.
                  bind-Ensures serves.Inv (Fits (length header) size o) (IsBox content o)
                    (check_size (length header) size (source.size - o)) _
                    (if-Ensures serves.Inv (Fits (length header) size o)
                      (ltb size (length header) || ltb (source.size - o) size) _ _
                      (λ e. fail-Ensures serves.Inv (Fits (length header) size o) bad_box)
                      (λ e.
                        pure-Ensures serves.Inv (Fits (length header) size o) tt (ground arith)))
                    λ u fits.
                      bind-Ensures serves.Inv (IsBody o (take 4 (drop 4 head)) size)
                        (IsBox content o) (box_body source (take 4 (drop 4 head)) o size) _
                        (box_body-Ensures (take 4 (drop 4 head)) o size)
                        λ body b. pure-Ensures serves.Inv (IsBox content o) _ (record {
                          placed = refl;
                          says_size = sized.2;
                          large = sized.0;
                          header_fits = fits.0;
                          within = omega (arith, serves.sized);
                          header_is = sized.1;
                          typ_is =
                              ap (λ bs. take 4 (drop 4 bs)) (full 8 o head h)
                              ∙ take-drop-take 4 4 8 (drop o content) (omega arith)
                              ∙ ap (take 4) (drop-drop 4 o content);
                          body_is = b;
                        })

  at_end : (o : ℕ) (m d : Bool) → source.size ≤ o → Scanned content o m d []
  at_end o m d h = record { tiled = tt; stopped = inl (omega (arith, h, serves.sized)) }

  scan_boxes-Ensures :
      (fuel o : ℕ) (m d : Bool)
      → source.size ≤ o + fuel
      → Ensures serves.Inv (Scanned content o m d) (scan_boxes source fuel o m d)
  unfolding scan_boxes
  scan_boxes-Ensures zero o m d enough =
      if-Ensures serves.Inv (Scanned content o m d) (ltb o source.size) _ _
        (λ e. absurd (ground arith))
        (λ e. pure-Ensures serves.Inv (Scanned content o m d) [] (at_end o m d (ground arith)))
  scan_boxes-Ensures (suc fuel) o m d enough =
      if-Ensures serves.Inv (Scanned content o m d) (ltb o source.size) _ _
        (λ e.
          bind-Ensures serves.Inv (IsBox content o) (Scanned content o m d) (read_box source o) _
            (read_box-Ensures o (ltb→lt _ _ e))
            λ b is_box.
              let m' = m || same_bytes b.typ moov in
              let d' = d || same_bytes b.typ mdat in
              bind-Ensures serves.Inv (Scanned content (o + b.size) m' d') (Scanned content o m d) _
                _
                (rest (o + b.size) m' d' (
                  scan_boxes-Ensures fuel (o + b.size) m' d'
                    (omega (arith, is_box.large, is_box.header_fits))))
                λ bs scanned.
                  pure-Ensures serves.Inv (Scanned content o m d) (b ∷ bs)
                    (Scanned-cons content o m d b bs is_box scanned))
        (λ e. pure-Ensures serves.Inv (Scanned content o m d) [] (at_end o m d (ground arith)))
    where
      rest :
          (o' : ℕ) (x y : Bool)
          → Ensures serves.Inv (Scanned content o' x y) (scan_boxes source fuel o' x y)
          → Ensures serves.Inv
              (Scanned content o' x y)
              (elim (x && y) [ true ↦ pure [] | false ↦ scan_boxes source fuel o' x y ])
      rest o' true true h =
          pure-Ensures serves.Inv (Scanned content o' true true) []
            (record { tiled = tt; stopped = inr (refl, refl) })
      rest o' true false h = h
      rest o' false y h = h

  -- The scan ends, and the boxes that it returns stand one behind the other from the start of the
  -- file, to its end or until `moov` and `mdat` are among them.
  pub scan_mp4_top_level-Ensures :
      Ensures serves.Inv (Scanned content 0 false false) (scan_mp4_top_level source)
  unfolding scan_mp4_top_level
  scan_mp4_top_level-Ensures = scan_boxes-Ensures source.size 0 false false (omega arith)
