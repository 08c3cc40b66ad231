-- ===== src/Core/Plan.antt =====
-- core/plan.go: sparse read plans.
pub mod Normal
pub mod Reading
use mediastub.Prelude.{
  ℕ, ◌+◌, ◌-◌, Bool, true, ◌&&◌, Option, none, some, List, [], ◌∷◌, length, take, drop, replicate,
  copy_at, ltb, leb, if◌then◌else◌, min, max,
}
use mediastub.Core.Base.{
  Bytes, Result, ok, err, ◌>>=◌, Read, eof, negative_offset, negative_size, extent_outside,
  overlapping,
}
use mediastub.Prelude.Int.{ℤ, pos, negsuc}

-- An `Extent` as a caller hands it in: its offset may be negative.
pub record RawExtent : Type 0 where
  pub offset : ℤ
  pub bytes : Bytes

-- An `Extent` of a plan, after the guard on the sign of its offset.
pub record Extent : Type 0 where
  pub offset : ℕ
  pub bytes : Bytes

abbrev pub extent_end : Extent → ℕ
extent_end e = e.offset + length e.bytes

pub record Plan : Type 0 where
  pub logical_size : ℕ
  pub extents : List Extent

-- One round of the validating loop. `len > size - offset` is written without the difference.
check_extent : ℕ → RawExtent → Result Extent
check_extent size e = elim e.offset [
  | negsuc n ↦ err extent_outside
  | pos o ↦
      if ltb size (o + length e.bytes)
      then err extent_outside
      else ok (record { offset = o; bytes = e.bytes })
]

check_extents : ℕ → List RawExtent → Result (List Extent)
check_extents size [] = ok []
check_extents size (e ∷ es) = do x ← check_extent size e; xs ← check_extents size es; ok (x ∷ xs)

-- `sort.Slice` by offset. Up to twelve extents it is an insertion sort, which keeps the order of
-- equal offsets.
pub insert_extent : Extent → List Extent → List Extent
insert_extent e [] = e ∷ []
insert_extent e (x ∷ xs) =
    let behind = insert_extent e xs in if leb e.offset x.offset then e ∷ x ∷ xs else x ∷ behind

pub sort_extents : List Extent → List Extent
sort_extents [] = []
sort_extents (e ∷ es) = insert_extent e (sort_extents es)

-- The loop over neighbours; the first argument is the end of the extent before.
pub no_overlap : ℕ → List Extent → Bool
no_overlap before [] = true
no_overlap before (e ∷ es) = leb before e.offset && no_overlap (extent_end e) es

unfoldable pub new_plan : ℤ → List RawExtent → Result Plan
unfolding check_extents check_extent insert_extent sort_extents no_overlap
new_plan (negsuc n) es = err negative_size
new_plan (pos size) es = do
  checked ← check_extents size es
  let sorted = sort_extents checked
  if no_overlap 0 sorted
      then ok (record { logical_size = size; extents = sorted })
      else err overlapping

-- The loop of `ReadAt` over the extents, with its `continue` and its `break`.
unfoldable pub fill : ℕ → ℕ → List Extent → Bytes → Bytes
fill off stop [] b = b
fill off stop (e ∷ es) b =
    let skipped = fill off stop es b in
    let from = max off e.offset in
    let to = min stop (extent_end e) in
    let copied =
      fill off stop es
        (copy_at b (from - off) (take (to - from) (drop (from - e.offset) e.bytes))) in
    if leb (extent_end e) off then skipped else if leb stop e.offset then b else copied

unfoldable pub read_at : Plan → ℕ → ℤ → Read
read_at p len (negsuc n) = record { bytes = []; error = some negative_offset }
read_at p len (pos off) =
    let n = min len (p.logical_size - off) in
    let b = fill off (off + n) p.extents (replicate n 0) in
    if leb p.logical_size off
    then record { bytes = []; error = some eof }
    else record { bytes = b; error = if ltb n len then some eof else none }
