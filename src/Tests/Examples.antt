-- ===== src/Tests/Examples.antt =====
-- The theorems of the package core at small files.
use mathlib.Core.List.{Perm}
use mediastub.Prelude.{
  ◌≤◌, ◌≡◌, refl, List, [], ◌∷◌, ◌++◌, All, false, arith, length, take, drop, none, if◌then◌else◌,
  get_or, map,
}
use mediastub.Prelude.Int.{pos}
use mediastub.Core.Base.{Bytes, ok}
use mediastub.Core.Source.{bytes_source, budgeted, budgeted_read, new_budgeted, limits_of}
use mediastub.Core.Source.Faithful.{IsPart, after_reads, bytes-Serves, budgeted_read_transparent}
use mediastub.Core.Source.Accounting.{logged, total, budgeted_within_limits}
use mediastub.Core.Action.Ensures.{Holds}
use mediastub.Core.Plan.{RawExtent, Plan, new_plan, read_at}
use mediastub.Core.Plan.Normal.{IsNormal, raw, new_plan_sound, new_plan_normal}
use mediastub.Core.Plan.Reading.{contents, read_at-contents}
use mediastub.Core.Stub.{IsStub, covered, read_at_stub}
use mediastub.Core.Ebml.{
  be_value, encode_vint, parse_element, vint_length, mark_first, be_bytes, ebml_segment_id,
}
use mediastub.Core.Ebml.Digits.{IsByte}
use mediastub.Core.Ebml.RoundTrip.{parse_element-encode_vint}
use mediastub.Core.Ebml.Bounds.{IsBounded, parse_element_bounds}
use mediastub.Core.MatroskaPrefix.{prefix_of}
use mediastub.Core.MatroskaPrefix.Layout.{prefix_of_layout}
use mediastub.Core.Mp4.{probe_mp4}
use mediastub.Core.Mp4.Plans.{IsMp4Stub, probe_mp4-IsStub}
use mediastub.Core.Probe.{probe}
use mediastub.Core.Probe.Sound.{IsProbed, probe_sound}
use mediastub.Tests.Files.{mp4_file, mp4_stub, matroska_file, small_budget, small_limits}

mp4_file-bytes : All IsByte mp4_file
mp4_file-bytes = ground arith

matroska_file-bytes : All IsByte matroska_file
matroska_file-bytes = ground arith

mp4_stub-IsNormal : IsNormal mp4_stub
mp4_stub-IsNormal = record { chain = ground arith; within = ground arith }

mp4_stub-IsStub : IsStub mp4_file mp4_stub
mp4_stub-IsStub = record {
  normal = mp4_stub-IsNormal;
  same_size = refl;
  kept = (refl, (refl, (refl, tt)));
}

probe_sound_example :
    Holds
      (IsProbed matroska_file (limits_of small_budget))
      (probe (bytes_source matroska_file) small_budget tt)
unfolding bytes-Serves
probe_sound_example =
    probe_sound matroska_file matroska_file-bytes (bytes_source matroska_file)
      (bytes-Serves matroska_file) small_budget tt tt

read_at_stub_example :
    get_or (read_at mp4_stub 6 (pos 26)).bytes 2 0
    ≡ (if covered mp4_stub.extents 28 then get_or mp4_file 28 0 else 0)
read_at_stub_example =
    read_at_stub mp4_file mp4_stub 6 26 2 mp4_stub-IsStub (omega arith) (omega arith)

probe_mp4-IsStub_example : Holds (IsMp4Stub mp4_file) (probe_mp4 (bytes_source mp4_file) tt).0
unfolding bytes-Serves
probe_mp4-IsStub_example =
    probe_mp4-IsStub mp4_file (bytes_source mp4_file) (bytes-Serves mp4_file) tt tt

budgeted_read_transparent_example :
    IsPart mp4_file 4 12
      (budgeted_read
        (bytes_source mp4_file)
        small_limits
        (after_reads
          (budgeted (bytes_source mp4_file) small_limits)
          (new_budgeted tt)
          ((8, 0) ∷ (3, 10) ∷ []))
        4
        (pos 12)).0
unfolding bytes-Serves
budgeted_read_transparent_example =
    budgeted_read_transparent mp4_file (bytes_source mp4_file) (bytes-Serves mp4_file) small_limits
      tt ((8, 0) ∷ (3, 10) ∷ []) 4 12 tt

budgeted_within_limits_example :
    let t =
      after_reads
        (budgeted (logged (bytes_source mp4_file)) small_limits)
        (new_budgeted (tt, []))
        ((8, 0) ∷ (20, 10) ∷ []) in
    (t.stats.requests ≡ length t.inner.1)
    × (t.stats.bytes ≡ total t.inner.1)
    × (length t.inner.1 ≤ 20)
    × (total t.inner.1 ≤ 400)
unfolding bytes-Serves
budgeted_within_limits_example =
    budgeted_within_limits mp4_file (bytes_source mp4_file) (bytes-Serves mp4_file) small_limits tt
      ((8, 0) ∷ (20, 10) ∷ []) tt

abbrev two_extents : List RawExtent
two_extents =
    record { offset = pos 6; bytes = 5 ∷ 6 ∷ [] } ∷ record { offset = pos 1; bytes = 7 ∷ [] } ∷ []

abbrev two_sorted : Plan
two_sorted = record {
  logical_size = 10;
  extents = record { offset = 1; bytes = 7 ∷ [] } ∷ record { offset = 6; bytes = 5 ∷ 6 ∷ [] } ∷ [];
}

two_extents-new_plan : new_plan (pos 10) two_extents ≡ ok two_sorted
unfolding new_plan
two_extents-new_plan = refl

new_plan_sound_example :
    IsNormal two_sorted × (pos 10 ≡ pos 10) × Perm (map raw two_sorted.extents) two_extents
new_plan_sound_example = new_plan_sound (pos 10) two_extents two_sorted two_extents-new_plan

new_plan_normal_example : new_plan (pos 35) (map raw mp4_stub.extents) ≡ ok mp4_stub
new_plan_normal_example = new_plan_normal mp4_stub mp4_stub-IsNormal

read_at-contents_example :
    read_at mp4_stub 6 (pos 26)
    ≡ record { bytes = take 6 (drop 26 (contents mp4_stub)); error = none }
read_at-contents_example = read_at-contents mp4_stub 6 26 mp4_stub-IsNormal

abbrev short_prefix : Bytes
short_prefix =
    (0x1a ∷ 0x45 ∷ 0xdf ∷ 0xa3 ∷ 0x80 ∷ [])
    ++ (0x18 ∷ 0x53 ∷ 0x80 ∷ 0x67 ∷ 1 ∷ 0 ∷ 0 ∷ 0 ∷ 0 ∷ 0 ∷ 0 ∷ 83 ∷ [])
    ++ (0xa1 ∷ 0xa2 ∷ [])
    ++ (0x1f ∷ 0x43 ∷ 0xb6 ∷ 0x75 ∷ 0x83 ∷ 0xe7 ∷ 0x81 ∷ 0 ∷ [])
    ++ (0xec ∷ 1 ∷ 0 ∷ 0 ∷ 0 ∷ 0 ∷ 0 ∷ 0 ∷ 64 ∷ [])

short_prefix_built :
    prefix_of 100 (0x1a ∷ 0x45 ∷ 0xdf ∷ 0xa3 ∷ 0x80 ∷ []) ((0xa1 ∷ []) ∷ (0xa2 ∷ []) ∷ [])
    ≡ ok short_prefix
unfolding prefix_of encode_vint mark_first be_bytes
short_prefix_built = refl

prefix_of_layout_example :
    (take 5 short_prefix ≡ 0x1a ∷ 0x45 ∷ 0xdf ∷ 0xa3 ∷ 0x80 ∷ [])
    × (take 2 (drop 17 short_prefix) ≡ 0xa1 ∷ 0xa2 ∷ [])
    × (parse_element (drop 5 short_prefix) 5
        ≡ ok (record {
          id = ebml_segment_id;
          offset = 5;
          header_size = 12;
          size = 83;
          unknown = false;
        }))
    × (parse_element (drop 27 short_prefix) 27
        ≡ ok (record { id = 0xec; offset = 27; header_size = 9; size = 64; unknown = false }))
    × (36 ≤ 100)
prefix_of_layout_example =
    prefix_of_layout 100 (0x1a ∷ 0x45 ∷ 0xdf ∷ 0xa3 ∷ 0x80 ∷ []) ((0xa1 ∷ []) ∷ (0xa2 ∷ []) ∷ [])
      short_prefix short_prefix_built

encode_500 : encode_vint 500 2 ≡ ok (0x41 ∷ 0xf4 ∷ [])
unfolding encode_vint mark_first be_bytes
encode_500 = refl

parse_element-encode_vint_example :
    parse_element (0x42 ∷ 0x86 ∷ 0x41 ∷ 0xf4 ∷ 9 ∷ []) 7
    ≡ ok (record {
      id = be_value 0 (0x42 ∷ 0x86 ∷ []);
      offset = 7;
      header_size = 4;
      size = 500;
      unknown = false;
    })
parse_element-encode_vint_example =
    parse_element-encode_vint 0x42 (0x86 ∷ []) (0x41 ∷ 0xf4 ∷ []) (9 ∷ []) 500 2 7
      (unfold vint_length in refl) encode_500

parsed_info :
    parse_element (0x15 ∷ 0x49 ∷ 0xa9 ∷ 0x66 ∷ 0x81 ∷ 1 ∷ []) 10
    ≡ ok (record { id = 0x1549a966; offset = 10; header_size = 5; size = 1; unknown = false })
unfolding parse_element vint_length be_value
parsed_info = refl

parse_element_bounds_example :
    IsBounded
      (0x15 ∷ 0x49 ∷ 0xa9 ∷ 0x66 ∷ 0x81 ∷ 1 ∷ [])
      10
      (record { id = 0x1549a966; offset = 10; header_size = 5; size = 1; unknown = false })
parse_element_bounds_example =
    parse_element_bounds (0x15 ∷ 0x49 ∷ 0xa9 ∷ 0x66 ∷ 0x81 ∷ 1 ∷ []) 10 _ (ground arith) parsed_info
