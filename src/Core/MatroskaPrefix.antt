-- ===== src/Core/MatroskaPrefix.antt =====
-- core/matroska.go, `buildMatroskaPrefix`: the front of a Matroska stub.
pub mod Layout
use mediastub.Prelude.{ℕ, ◌+◌, ◌-◌, List, [], ◌∷◌, ◌++◌, length, ltb, if◌then◌else◌}
use mediastub.Core.Base.{Bytes, Result, ok, err, ◌>>=◌, object_too_small, no_room}
use mediastub.Core.Ebml.{encode_vint}

abbrev pub segment_id_bytes : Bytes
segment_id_bytes = 0x18 ∷ 0x53 ∷ 0x80 ∷ 0x67 ∷ []

-- A Cluster with a Timecode of 0.
abbrev pub cluster_bytes : Bytes
cluster_bytes = 0x1f ∷ 0x43 ∷ 0xb6 ∷ 0x75 ∷ 0x83 ∷ 0xe7 ∷ 0x81 ∷ 0x00 ∷ []

-- `append(prefix, element...)` for each of the elements.
abbrev pub join : List Bytes → Bytes
join [] = []
join (bs ∷ rest) = bs ++ join rest

-- The size field of the segment. `bodySize` may be negative in the source; the test is written
-- without the difference.
abbrev pub segment_field : ℕ → ℕ → Result Bytes
segment_field size header_end =
    if ltb size (header_end + 12 + 9)
    then err object_too_small
    else encode_vint (size - header_end - 12) 8

-- The front up to the void element.
abbrev pub before_void : Bytes → Bytes → List Bytes → Bytes
before_void header segment_size elements =
    header ++ (segment_id_bytes ++ (segment_size ++ (join elements ++ cluster_bytes)))

-- The size field of the void element; `voidPayload` may be negative in the source.
abbrev pub void_field : ℕ → ℕ → ℕ → Result Bytes
void_field body_size header_end prefix_length =
    if ltb (body_size + header_end + 12) (prefix_length + 9)
    then err no_room
    else encode_vint (body_size + header_end + 12 - prefix_length - 9) 8

-- `buildMatroskaPrefix` behind the read of the header.
unfoldable pub prefix_of : ℕ → Bytes → List Bytes → Result Bytes
prefix_of size header elements = do
  segment_size ← segment_field size (length header)
  let prefix = before_void header segment_size elements
  void_size ← void_field (size - length header - 12) (length header) (length prefix)
  ok (prefix ++ (0xec ∷ void_size))
