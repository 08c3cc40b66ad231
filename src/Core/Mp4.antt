-- ===== src/Core/Mp4.antt =====
-- core/mp4.go: the top-level boxes of an MP4 file and the plan made of them.
pub mod Scan
pub mod Plans
use mediastub.Prelude.{
  ℕ, zero, suc, ◌+◌, ◌-◌, ◌*◌, ◌^◌, Bool, true, false, ◌||◌, ◌&&◌, Option, none, some, List, [],
  ◌∷◌, ◌++◌, map, length, take, drop, replicate, overlay, ltb, ◌==◌, if◌then◌else◌, not,
}
use mediastub.Prelude.Int.{pos}
use mediastub.Core.Base.{
  Bytes, Error, Read, err, eof, box_too_large, bad_box, metadata_too_large, unsupported,
}
use mediastub.Core.Source.{Source}
use mediastub.Core.Action.{
  Act, done, stuck, continue, ◌>>=◌, ◌>>◌, lift, pure, fail, read, check_read, checked,
}
use mediastub.Core.Ebml.{be_value}
use mediastub.Core.Plan.{RawExtent, Plan, new_plan}

-- `==` of strings, as bytes.
abbrev pub same_bytes : Bytes → Bytes → Bool
same_bytes [] [] = true
same_bytes [] (y ∷ ys) = false
same_bytes (x ∷ xs) [] = false
same_bytes (x ∷ xs) (y ∷ ys) = x == y && same_bytes xs ys

abbrev pub ftyp : Bytes
ftyp = b'f' ∷ b't' ∷ b'y' ∷ b'p' ∷ []

abbrev pub moov : Bytes
moov = b'm' ∷ b'o' ∷ b'o' ∷ b'v' ∷ []

abbrev pub mdat : Bytes
mdat = b'm' ∷ b'd' ∷ b'a' ∷ b't' ∷ []

abbrev pub max_metadata_element_size : ℕ
max_metadata_element_size = 64 * 2 ^ 20

-- The field `data` is `body`.
pub record Mp4Box : Type 0 where
  pub offset : ℕ
  pub size : ℕ
  pub header_size : ℕ
  pub typ : Bytes
  pub header : Bytes
  pub body : Bytes

abbrev pub is_metadata : Bytes → Bool
is_metadata typ = same_bytes typ ftyp || same_bytes typ moov

-- The first read of a box: `io.EOF` is let pass if all eight bytes came.
unfoldable pub check_header : {St : Type 0} → Read → Act St Bytes
check_header r = elim r.error [
  | none ↦ pure r.bytes
  | some eof ↦ if length r.bytes == 8 then pure r.bytes else fail eof
  | some e ↦ fail e
]

abbrev pub check_size : {St : Type 0} → ℕ → ℕ → ℕ → Act St (Unit {0})
check_size header_size size left =
    if ltb size header_size || ltb left size then fail bad_box else pure tt

module _ (source : Source) where
  -- The size and the header of the box, from its first eight bytes.
  unfoldable pub box_size : ℕ → Bytes → Act source.State (ℕ × Bytes)
  box_size offset head =
      let size = be_value 0 (take 4 head) in
      let extended = (do
        tail ← check_read (← read source 8 (offset + 8))
        let size64 = be_value 0 tail
        if ltb (2 ^ 63 - 1) size64 then fail box_too_large else pure (size64, head ++ tail)) in
      if size == 1
      then extended
      else if size == 0
      then pure (source.size - offset, head)
      else pure (size, head)

  -- `box.data` is read for `ftyp` and `moov` alone.
  unfoldable pub box_body : Bytes → ℕ → ℕ → Act source.State Bytes
  box_body typ offset size =
      let body = (do check_read (← read source size offset)) in
      if is_metadata typ
      then if ltb max_metadata_element_size size then fail metadata_too_large else body
      else pure []

  -- One round of the loop.
  unfoldable pub read_box : ℕ → Act source.State Mp4Box
  read_box offset = do
    head ← check_header (← read source 8 offset)
    (size, header) ← box_size offset head
    let typ = take 4 (drop 4 head)
    check_size (length header) size (source.size - offset)
    body ← box_body typ offset size
    pure (record {
      offset = offset;
      size = size;
      header_size = length header;
      typ = typ;
      header = header;
      body = body;
    })

  -- The loop, with the rounds that are left and the flags `seenMoov` and `seenMdat`.
  unfoldable pub scan_boxes : ℕ → ℕ → Bool → Bool → Act source.State (List Mp4Box)
  scan_boxes zero offset seen_moov seen_mdat =
      if ltb offset source.size then (λ s. (stuck, s)) else pure []
  scan_boxes (suc fuel) offset seen_moov seen_mdat =
      let more = (do
        box ← read_box offset
        let seen_moov' = seen_moov || same_bytes box.typ moov
        let seen_mdat' = seen_mdat || same_bytes box.typ mdat
        rest ← elim (seen_moov' && seen_mdat') [
          | true ↦ pure []
          | false ↦ scan_boxes fuel (offset + box.size) seen_moov' seen_mdat'
        ]
        pure (box ∷ rest)) in
      if ltb offset source.size then more else pure []

  -- A box has eight bytes at least, so there are fewer rounds than bytes.
  unfoldable pub scan_mp4_top_level : Act source.State (List Mp4Box)
  scan_mp4_top_level = scan_boxes source.size 0 false false

-- The extent that stands for a box: the whole box if it is metadata, else its header.
unfoldable pub box_extent : Mp4Box → RawExtent
box_extent b = record {
  offset = pos b.offset;
  bytes = if is_metadata b.typ then b.body else b.header;
}

unfoldable pub has_moov : List Mp4Box → Bool
has_moov [] = false
has_moov (b ∷ bs) = same_bytes b.typ moov || has_moov bs

module _ (source : Source) where
  unfoldable pub probe_mp4 : Act source.State Plan
  probe_mp4 = do
    boxes ← scan_mp4_top_level source
    if has_moov boxes
        then lift (new_plan (pos source.size) (map box_extent boxes))
        else fail unsupported
