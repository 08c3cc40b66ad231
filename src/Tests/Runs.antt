-- ===== src/Tests/Runs.antt =====
-- Runs of the definitions on small files.
use mediastub.Prelude.{[], ◌∷◌, ◌++◌, ◌≡◌, refl}
use mediastub.Core.Base.{Bytes, ok, err}
use mediastub.Core.Source.{bytes_source, budgeted_read, limits_of, bytes_read_at, after_read}
use mediastub.Core.Action.{Outcome, done, stuck, read, check_but_eof, check_read, attempt}
use mediastub.Core.Ebml.{be_value, be_bytes, encode_vint, mark_first, parse_element, vint_length}
use mediastub.Core.Plan.{Plan, new_plan}
use mediastub.Core.Mp4.{
  probe_mp4, scan_mp4_top_level, scan_boxes, read_box, check_header, box_size, box_body, has_moov,
  box_extent,
}
use mediastub.Core.MatroskaPrefix.{prefix_of}
use mediastub.Core.Matroska.{
  build_prefix, keep_element, probe_matroska, probe_segment, read_ebml_element, scan_element,
  scan_metadata,
}
use mediastub.Core.Probe.{Probed, probe, looks_like_mp4, probe_head, probe_bounded}
use mediastub.Tests.Files.{mp4_file, mp4_stub, matroska_file, small_budget}

abbrev plan_found : Outcome Probed → Outcome Plan
plan_found (done (ok r)) = done (ok r.plan)
plan_found (done (err e)) = done (err e)
plan_found stuck = stuck

abbrev run : Bytes → Outcome Plan
run content = plan_found (probe (bytes_source content) small_budget tt)

mp4_found : run mp4_file ≡ done (ok mp4_stub)
unfolding probe probe_bounded probe_head read check_but_eof check_read budgeted_read limits_of
    bytes_read_at after_read be_value probe_mp4 scan_mp4_top_level scan_boxes read_box check_header
    box_size box_body has_moov box_extent new_plan looks_like_mp4 attempt be_bytes encode_vint
    mark_first parse_element vint_length build_prefix keep_element probe_matroska probe_segment
    read_ebml_element scan_element scan_metadata prefix_of
mp4_found = refl

-- The stub of the Matroska file keeps its size: the header, a segment of 8 size bytes, the two
-- elements, an empty cluster and a void element up to the end.
matroska_found :
    run matroska_file
    ≡ done (
        ok (record {
          logical_size = 54;
          extents =
              record {
                offset = 0;
                bytes =
                    (0x1a ∷ 0x45 ∷ 0xdf ∷ 0xa3 ∷ 0x80 ∷ [])
                    ++ (0x18 ∷ 0x53 ∷ 0x80 ∷ 0x67 ∷ 1 ∷ 0 ∷ 0 ∷ 0 ∷ 0 ∷ 0 ∷ 0 ∷ 37 ∷ [])
                    ++ (0x15 ∷ 0x49 ∷ 0xa9 ∷ 0x66 ∷ 0x81 ∷ 1 ∷ [])
                    ++ (0x16 ∷ 0x54 ∷ 0xae ∷ 0x6b ∷ 0x81 ∷ 2 ∷ [])
                    ++ (0x1f ∷ 0x43 ∷ 0xb6 ∷ 0x75 ∷ 0x83 ∷ 0xe7 ∷ 0x81 ∷ 0 ∷ [])
                    ++ (0xec ∷ 1 ∷ 0 ∷ 0 ∷ 0 ∷ 0 ∷ 0 ∷ 0 ∷ 8 ∷ []);
              }
              ∷ [];
        }))
unfolding probe probe_bounded probe_head read check_but_eof check_read budgeted_read limits_of
    bytes_read_at after_read be_value probe_mp4 scan_mp4_top_level scan_boxes read_box check_header
    box_size box_body has_moov box_extent new_plan looks_like_mp4 attempt be_bytes encode_vint
    mark_first parse_element vint_length build_prefix keep_element probe_matroska probe_segment
    read_ebml_element scan_element scan_metadata prefix_of
matroska_found = refl
