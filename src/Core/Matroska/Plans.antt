-- ===== src/Core/Matroska/Plans.antt =====
-- The plan of a Matroska file.
use mediastub.Prelude.{
  ◌<◌, ◌⊎◌, inl, inr, false, ◌&&◌, leb, Bool-cases, ℕ, ◌+◌, ◌≤◌, ◌≡◌, refl, sym, ap, subst, ◌∙◌,
  true, not, ◌||◌, [], ◌∷◌, arith, length, take, ltb, ◌==◌, All, ◌^◌,
}
use mediastub.Prelude.Int.{pos}
use mediastub.Core.Base.{Bytes, ok, unsupported, bad_header, truncated_header, no_segment}
use mediastub.Core.Source.{Source}
use mediastub.Core.Source.Faithful.{Serves, IsPart}
use mediastub.Core.Action.{read, check_read}
use mediastub.Core.Action.Ensures.{
  Ensures, IsFull, bind-Ensures, pure-Ensures, fail-Ensures, if-Ensures, lift-Ensures,
  weaken-Ensures, check_read-Ensures, read-Ensures,
}
use mediastub.Core.Plan.{Plan, new_plan}
use mediastub.Core.Plan.Normal.{IsNormal, new_plan_normal}
use mediastub.Core.Ebml.{EbmlElement, ebml_header_id, ebml_segment_id}
use mediastub.Core.Ebml.Digits.{IsByte}
use mediastub.Core.MatroskaPrefix.{prefix_of}
use mediastub.Core.MatroskaPrefix.Layout.{prefix_of_layout}
use mediastub.Core.Matroska.{
  Raws, is_empty, has_info_and_tracks, read_ebml_element, check_header_end, segment_end_of,
  build_prefix, probe_segment, probe_matroska,
}
use mediastub.Core.Matroska.Scan.{
  ParsesTo, here, IsRead, RawsOf, read_ebml_element-Ensures, scan_metadata-Ensures,
}

abbrev pub one_extent : ℕ → Bytes → Plan
one_extent size prefix = record {
  logical_size = size;
  extents = record { offset = 0; bytes = prefix } ∷ [];
}

one_extent-IsNormal :
    (size : ℕ) (prefix : Bytes) → length prefix ≤ size → IsNormal (one_extent size prefix)
one_extent-IsNormal size prefix h = record { chain = omega arith; within = omega arith }

segment_end-le :
    (size : ℕ) (segment : EbmlElement)
    → segment_end_of size segment ≤ segment.offset + segment.header_size + size
segment_end-le size segment = ground arith

-- Where the elements of a segment end: with the segment, if its size is known and it lies in the file,
-- else with the file
pub record EndsBy (size start segment_end : ℕ) (segment : EbmlElement) : Type 0 where
  in_file : segment_end ≤ size
  ends : (segment_end ≡ size) ⊎ ((segment.unknown ≡ false) × (segment_end ≡ start + segment.size))

-- The headers of the file and of its segment
pub record IsOpened (content : Bytes) (header_end : ℕ) (header segment : EbmlElement) : Type 0 where
  header_parses : ParsesTo content 0 header
  header_known : header.unknown ≡ false
  header_has_id : header.id ≡ ebml_header_id
  header_end_is : header_end ≡ header.header_size + header.size
  header_within : header_end ≤ length content
  segment_parses : ParsesTo content header_end segment
  segment_has_id : segment.id ≡ ebml_segment_id

-- A plan of one extent at 0, made by `prefix_of` of the file's own header and of metadata elements of
-- the file's segment.
pub record IsMatroskaStub (content : Bytes) (p : Plan) : Type 0 where
  pub header_end : ℕ
  pub header : EbmlElement
  pub segment : EbmlElement
  pub segment_end : ℕ
  pub raws : Raws
  pub prefix : Bytes
  pub opened : IsOpened content header_end header segment
  pub ends_by : EndsBy (length content) (header_end + segment.header_size) segment_end segment
  pub raws_of : RawsOf content (header_end + segment.header_size) segment_end raws
  pub has_info : 0 < length raws.info
  pub has_tracks : 0 < length raws.tracks
  pub built :
      prefix_of
        (length content)
        (take header_end content)
        (raws.info ∷ raws.tracks ∷ raws.tags ∷ [])
      ≡ ok prefix
  pub is_plan : p ≡ one_extent (length content) prefix
  pub normal : IsNormal p

segment_end_of-EndsBy :
    (size start : ℕ) (segment : EbmlElement)
    → segment.offset + segment.header_size ≡ start
    → EndsBy size start (segment_end_of size segment) segment
segment_end_of-EndsBy size start segment h =
    elim (Bool-cases
      (not segment.unknown && leb (segment.offset + segment.header_size + segment.size) size)) [
        | inl inside ↦
            rw inside (record { in_file = ground arith; ends = inr (ground arith, omega arith) })
        | inr outside ↦ rw outside (record { in_file = omega arith; ends = inl refl })
      ]

not_empty : (bs : Bytes) → not (is_empty bs) ≡ true → 0 < length bs
not_empty [] h = cc
not_empty (b ∷ bs) h = omega arith

has_both :
    (raws : Raws)
    → has_info_and_tracks raws ≡ true
    → (0 < length raws.info) × (0 < length raws.tracks)
has_both raws h = (not_empty raws.info (ground arith), not_empty raws.tracks (ground arith))

module _ (content : Bytes) (bytes : All IsByte content) (source : Source)
    (serves : Serves content source) where
  abbrev IsBuilt : ℕ → Raws → Bytes → Type 0
  IsBuilt header_end raws prefix =
      (prefix_of (length content) (take header_end content)
          (raws.info ∷ raws.tracks ∷ raws.tags ∷ [])
        ≡ ok prefix)

  abbrev IsComplete : ℕ → Raws → Bytes → Type 0
  IsComplete header_end raws prefix =
      IsBuilt header_end raws prefix × (has_info_and_tracks raws ≡ true)

  build_prefix-Ensures :
      (header_end : ℕ) (raws : Raws)
      → Ensures serves.Inv (IsBuilt header_end raws) (build_prefix source header_end raws)
  unfolding build_prefix
  build_prefix-Ensures header_end raws =
      bind-Ensures serves.Inv (IsPart content header_end 0) (IsBuilt header_end raws)
        (read source header_end 0) _ (read-Ensures content source serves header_end 0)
        λ r p.
          bind-Ensures serves.Inv (IsFull content header_end 0) (IsBuilt header_end raws)
            (check_read r) _ (check_read-Ensures serves.Inv content header_end 0 r p)
            λ header full. lift-Ensures serves.Inv (IsBuilt header_end raws) _ λ prefix h.
              subst
                (λ hd.
                  prefix_of (length content) hd (raws.info ∷ raws.tracks ∷ raws.tags ∷ [])
                  ≡ ok prefix)
                (full.0 ∙ ap (λ k. take k content) full.1)
                (subst
                  (λ n. prefix_of n header (raws.info ∷ raws.tracks ∷ raws.tags ∷ []) ≡ ok prefix)
                  serves.sized h)

  probe_segment-Ensures :
      (header_end : ℕ) (header segment : EbmlElement)
      → IsOpened content header_end header segment
      → segment.offset ≡ header_end
      → Ensures serves.Inv (IsMatroskaStub content) (probe_segment source header_end segment)
  unfolding probe_segment
  probe_segment-Ensures header_end header segment opened placed =
      let start = segment.offset + segment.header_size in
      let end = segment_end_of source.size segment in
      bind-Ensures serves.Inv (RawsOf content start end) (IsMatroskaStub content) _ _
        (scan_metadata-Ensures content bytes source serves start end source.size start
          (record { info = []; tracks = []; tags = [] }) (segment_end-le source.size segment) here
          (record { info_found = inl refl; tracks_found = inl refl; tags_found = inl refl }))
        λ raws v.
          bind-Ensures serves.Inv (IsComplete header_end raws) (IsMatroskaStub content) _ _
            (if-Ensures serves.Inv (IsComplete header_end raws) (has_info_and_tracks raws) _ _
              (λ both.
                weaken-Ensures serves.Inv (IsBuilt header_end raws) (IsComplete header_end raws) _
                  (λ prefix made. (made, both)) (build_prefix-Ensures header_end raws))
              (λ e. fail-Ensures serves.Inv (IsComplete header_end raws) unsupported))
            λ prefix built. lift-Ensures serves.Inv (IsMatroskaStub content) _ λ p made.
              let layout =
                prefix_of_layout (length content) (take header_end content) _ prefix built.0 in
              let normal = one_extent-IsNormal (length content) prefix layout.4 in
              let is_plan : p ≡ one_extent (length content) prefix = cc (
                sym made
                ∙ ap (λ n. new_plan (pos n) (record { offset = pos 0; bytes = prefix } ∷ []))
                    serves.sized
                ∙ new_plan_normal (one_extent (length content) prefix) normal) in
              let both = has_both raws built.1 in
              let begins : start ≡ header_end + segment.header_size = omega arith in
              record {
                header_end = header_end;
                header = header;
                segment = segment;
                segment_end = end;
                raws = raws;
                prefix = prefix;
                opened = opened;
                ends_by =
                    subst (λ n. EndsBy n (header_end + segment.header_size) end segment)
                      serves.sized
                      (segment_end_of-EndsBy source.size (header_end + segment.header_size) segment
                        begins);
                raws_of = subst (λ n. RawsOf content n end raws) begins v;
                has_info = both.0;
                has_tracks = both.1;
                built = built.0;
                is_plan = is_plan;
                normal = subst IsNormal (sym is_plan) normal;
              }

  -- The end of a header that is accepted
  record IsHeaderEnd (header : EbmlElement) (n : ℕ) : Type 0 where
    known : header.unknown ≡ false
    has_id : header.id ≡ ebml_header_id
    end_is : n ≡ header.offset + header.header_size + header.size
    within : n ≤ length content

  check_header_end-Ensures :
      (header : EbmlElement)
      → Ensures serves.Inv (IsHeaderEnd header) (check_header_end source.size header)
  check_header_end-Ensures header =
      let end = header.offset + header.header_size + header.size in
      if-Ensures serves.Inv (IsHeaderEnd header)
        (not (header.id == ebml_header_id) || header.unknown) _ _
        (λ e. fail-Ensures serves.Inv (IsHeaderEnd header) bad_header)
        (λ good.
          if-Ensures serves.Inv (IsHeaderEnd header) (ltb source.size end || ltb (2 ^ 20) end) _ _
            (λ e. fail-Ensures serves.Inv (IsHeaderEnd header) truncated_header)
            (λ e. pure-Ensures serves.Inv (IsHeaderEnd header) end (record {
              known = ground arith;
              has_id = ground arith;
              end_is = refl;
              within = ground (arith, serves.sized);
            })))

  pub probe_matroska-Ensures : Ensures serves.Inv (IsMatroskaStub content) (probe_matroska source)
  unfolding probe_matroska
  probe_matroska-Ensures =
      bind-Ensures serves.Inv (IsRead content 0) (IsMatroskaStub content)
        (read_ebml_element source 0) _ (read_ebml_element-Ensures content bytes source serves 0)
        λ header h.
          bind-Ensures serves.Inv (IsHeaderEnd header) (IsMatroskaStub content)
            (check_header_end source.size header) _ (check_header_end-Ensures header)
            λ header_end checked.
              bind-Ensures serves.Inv (IsRead content header_end) (IsMatroskaStub content)
                (read_ebml_element source header_end) _
                (read_ebml_element-Ensures content bytes source serves header_end)
                λ segment at_segment.
                  if-Ensures serves.Inv (IsMatroskaStub content) (segment.id == ebml_segment_id) _ _
                    (λ is_segment.
                      probe_segment-Ensures header_end header segment
                        (record {
                          header_parses = h.parses;
                          header_known = checked.known;
                          header_has_id = checked.has_id;
                          header_end_is = omega (arith, checked.end_is, h.placed);
                          header_within = checked.within;
                          segment_parses = at_segment.parses;
                          segment_has_id = ground arith;
                        })
                        at_segment.placed)
                    (λ e. fail-Ensures serves.Inv (IsMatroskaStub content) no_segment)
