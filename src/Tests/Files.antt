-- ===== src/Tests/Files.antt =====
-- Small files and the sources over them.
use mediastub.Prelude.{[], ◌∷◌, ◌++◌, replicate}
use mediastub.Prelude.Int.{pos}
use mediastub.Core.Base.{Bytes}
use mediastub.Core.Source.{Budget, Limits}
use mediastub.Core.Plan.{Plan}

-- A `ftyp` box of 12 bytes, a `moov` of 10 and a `mdat` of 13.
abbrev pub mp4_file : Bytes
mp4_file =
    (0 ∷ 0 ∷ 0 ∷ 12 ∷ b'f' ∷ b't' ∷ b'y' ∷ b'p' ∷ b'i' ∷ b's' ∷ b'o' ∷ b'm' ∷ [])
    ++ (0 ∷ 0 ∷ 0 ∷ 10 ∷ b'm' ∷ b'o' ∷ b'o' ∷ b'v' ∷ 1 ∷ 2 ∷ [])
    ++ (0 ∷ 0 ∷ 0 ∷ 13 ∷ b'm' ∷ b'd' ∷ b'a' ∷ b't' ∷ 9 ∷ 9 ∷ 9 ∷ 9 ∷ 9 ∷ [])

-- What the stub of it shows: the payload of `mdat` is a hole.
abbrev pub mp4_stub : Plan
mp4_stub = record {
  logical_size = 35;
  extents =
      record {
        offset = 0;
        bytes = 0 ∷ 0 ∷ 0 ∷ 12 ∷ b'f' ∷ b't' ∷ b'y' ∷ b'p' ∷ b'i' ∷ b's' ∷ b'o' ∷ b'm' ∷ [];
      }
      ∷ record { offset = 12; bytes = 0 ∷ 0 ∷ 0 ∷ 10 ∷ b'm' ∷ b'o' ∷ b'o' ∷ b'v' ∷ 1 ∷ 2 ∷ [] }
      ∷ record { offset = 22; bytes = 0 ∷ 0 ∷ 0 ∷ 13 ∷ b'm' ∷ b'd' ∷ b'a' ∷ b't' ∷ [] }
      ∷ [];
}

-- An empty EBML header, and a segment of Info, Tracks and a void element.
abbrev pub matroska_file : Bytes
matroska_file =
    (0x1a ∷ 0x45 ∷ 0xdf ∷ 0xa3 ∷ 0x80 ∷ [])
    ++ (0x18 ∷ 0x53 ∷ 0x80 ∷ 0x67 ∷ 0xac ∷ [])
    ++ (0x15 ∷ 0x49 ∷ 0xa9 ∷ 0x66 ∷ 0x81 ∷ 1 ∷ [])
    ++ (0x16 ∷ 0x54 ∷ 0xae ∷ 0x6b ∷ 0x81 ∷ 2 ∷ [])
    ++ (0xec ∷ 0x9e ∷ [])
    ++ replicate 30 7

abbrev pub small_budget : Budget
small_budget = record { max_bytes = pos 400; max_requests = pos 20; window_size = pos 16 }

abbrev pub small_limits : Limits
small_limits = record { max_bytes = 400; max_requests = 20; window_size = 16 }
