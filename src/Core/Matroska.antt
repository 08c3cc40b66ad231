-- ===== src/Core/Matroska.antt =====
-- core/matroska.go, the second half: the metadata of a Matroska file and the prefix built of it.
pub mod Scan
pub mod Plans
use mediastub.Prelude.{
  ℕ, zero, suc, ◌+◌, ◌-◌, ◌*◌, ◌^◌, Bool, true, false, ◌||◌, ◌&&◌, not, List, [], ◌∷◌, ◌++◌, length,
  ltb, leb, ◌==◌, if◌then◌else◌,
}
use mediastub.Prelude.Int.{pos}
use mediastub.Core.Base.{
  Bytes, Result, ok, err, bad_header, truncated_header, no_segment, unknown_sized,
  metadata_too_large, unsupported,
}
use mediastub.Core.Source.{Source}
use mediastub.Core.Action.{
  Act, stuck, continue, ◌>>=◌, lift, pure, fail, read, check_read, check_but_eof, attempt,
}
use mediastub.Core.Ebml.{
  EbmlElement, ebml_header_id, ebml_segment_id, ebml_info_id, ebml_tracks_id, ebml_tags_id,
  ebml_cluster_id, parse_element,
}
use mediastub.Core.Plan.{Plan, new_plan}
use mediastub.Core.MatroskaPrefix.{prefix_of}
use mediastub.Core.Mp4.{max_metadata_element_size}

-- `infoRaw`, `tracksRaw` and `tagsRaw`; a missing one is empty.
pub record Raws : Type 0 where
  pub info : Bytes
  pub tracks : Bytes
  pub tags : Bytes

abbrev pub is_empty : Bytes → Bool
is_empty [] = true
is_empty (b ∷ bs) = false

abbrev pub metadata_element : ℕ → Bool
metadata_element id = id == ebml_info_id || id == ebml_tracks_id || id == ebml_tags_id

-- `len(infoRaw) != 0 && len(tracksRaw) != 0`
abbrev pub has_info_and_tracks : Raws → Bool
has_info_and_tracks raws = not (is_empty raws.info) && not (is_empty raws.tracks)

-- The inner `switch` that stores an element.
abbrev pub store_raw : ℕ → Bytes → Raws → Raws
store_raw id raw raws =
    if id == ebml_info_id
    then record raws { info = raw }
    else if id == ebml_tracks_id
    then record raws { tracks = raw }
    else record raws { tags = raw }

module _ (source : Source) where
  unfoldable pub read_ebml_element : ℕ → Act source.State EbmlElement
  read_ebml_element offset = do
    r ← read source 12 offset
    buf ← check_but_eof r
    lift (parse_element buf offset)

  -- The outer `switch`: a metadata element is read whole.
  unfoldable pub keep_element : ℕ → ℕ → ℕ → Raws → Act source.State Raws
  keep_element id offset total raws =
      let kept = (do
        r ← read source total offset
        raw ← check_read r
        pure (store_raw id raw raws)) in
      if metadata_element id
      then if ltb max_metadata_element_size total then fail metadata_too_large else kept
      else pure raws

  -- One round of the loop `scanMetadata`, on the element at `offset`; `next` goes on with the loop.
  unfoldable pub scan_element :
      (ℕ → Raws → Act source.State Raws) → ℕ → ℕ → Raws → EbmlElement → Act source.State Raws
  scan_element next segment_end offset raws e =
      let total = e.header_size + e.size in
      let kept : Act source.State Raws = (do
        raws' ← keep_element e.id offset total raws
        if has_info_and_tracks raws' && (not (is_empty raws'.tags) || not (metadata_element e.id))
            then pure raws'
            else next (offset + total) raws') in
      if e.unknown
      then if e.id == ebml_cluster_id then pure raws else fail unknown_sized
      else if e.id == ebml_cluster_id && has_info_and_tracks raws
      then pure raws
      else if ltb total e.header_size || ltb (segment_end - offset) total
      then pure raws
      else kept

  -- `if err != nil { break }`
  abbrev pub unless_error :
      Result EbmlElement → Raws → (EbmlElement → Act source.State Raws) → Act source.State Raws
  unless_error (ok e) raws f = f e
  unless_error (err x) raws f = pure raws

  -- The loop `scanMetadata`, with the rounds that are left.
  unfoldable pub scan_metadata : ℕ → ℕ → ℕ → Raws → Act source.State Raws
  scan_metadata zero segment_end offset raws =
      if ltb offset segment_end then (λ s. (stuck, s)) else pure raws
  scan_metadata (suc fuel) segment_end offset raws =
      let more : Act source.State Raws = (do
        element ← attempt (read_ebml_element offset)
        unless_error element raws
            (scan_element (scan_metadata fuel segment_end) segment_end offset raws)) in
      if ltb offset segment_end then more else pure raws

-- A header of the EBML file: not of unknown size, within the file and within a megabyte.
abbrev pub check_header_end : {St : Type 0} → ℕ → EbmlElement → Act St ℕ
check_header_end size header =
    let header_end = header.offset + header.header_size + header.size in
    if not (header.id == ebml_header_id) || header.unknown
    then fail bad_header
    else if ltb size header_end || ltb (2 ^ 20) header_end
    then fail truncated_header
    else pure header_end

-- `segmentEnd`, from the segment's header.
abbrev pub segment_end_of : ℕ → EbmlElement → ℕ
segment_end_of size segment =
    let body = segment.offset + segment.header_size in
    if not segment.unknown && leb (body + segment.size) size then body + segment.size else size

module _ (source : Source) where
  unfoldable pub build_prefix : ℕ → Raws → Act source.State Bytes
  build_prefix header_end raws = do
    r ← read source header_end 0
    header ← check_read r
    lift (prefix_of source.size header (raws.info ∷ raws.tracks ∷ raws.tags ∷ []))

  -- The part of `probeMatroska` behind the two headers.
  unfoldable pub probe_segment : ℕ → EbmlElement → Act source.State Plan
  probe_segment header_end segment = do
    raws ←
        scan_metadata source source.size (segment_end_of source.size segment)
          (segment.offset + segment.header_size) (record { info = []; tracks = []; tags = [] })
    prefix ← if has_info_and_tracks raws then build_prefix header_end raws else fail unsupported
    lift (new_plan (pos source.size) (record { offset = pos 0; bytes = prefix } ∷ []))

  unfoldable pub probe_matroska : Act source.State Plan
  probe_matroska = do
    header ← read_ebml_element source 0
    header_end ← check_header_end source.size header
    segment ← read_ebml_element source header_end
    if segment.id == ebml_segment_id then probe_segment header_end segment else fail no_segment
