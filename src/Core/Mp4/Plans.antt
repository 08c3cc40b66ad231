-- ===== src/Core/Mp4/Plans.antt =====
-- The plan of an MP4 file is a stub of the file.
use mediastub.Prelude.{
  ◌||◌, ℕ, ◌+◌, ◌≤◌, ◌≡◌, refl, sym, ap, subst, ◌∙◌, Bool, true, false, List, [], ◌∷◌, map, arith,
  length, take, drop, if◌then◌else◌, length-take, take-length-take,
}
use mediastub.Prelude.Int.{pos}
use mediastub.Core.Base.{Bytes, ok, unsupported}
use mediastub.Core.Source.{Source}
use mediastub.Core.Source.Faithful.{Serves}
use mediastub.Core.Action.Ensures.{
  Ensures, Holds, bind-Ensures, fail-Ensures, if-Ensures, lift-Ensures,
}
use mediastub.Core.Plan.{Extent, Plan, new_plan}
use mediastub.Core.Plan.Normal.{Chain, Within, raw, new_plan_normal}
use mediastub.Core.Stub.{Kept, IsStub}
use mediastub.Core.Mp4.{
  Mp4Box, moov, same_bytes, is_metadata, box_extent, has_moov, scan_mp4_top_level, probe_mp4,
}
use mediastub.Core.Mp4.Scan.{IsBox, Tiled, has_type, Scanned, scan_mp4_top_level-Ensures}

-- The bytes that the plan keeps of a box.
abbrev kept_of : Mp4Box → Bytes
kept_of b = if is_metadata b.typ then b.body else b.header

abbrev extents_of : List Mp4Box → List Extent
extents_of [] = []
extents_of (b ∷ bs) = record { offset = b.offset; bytes = kept_of b } ∷ extents_of bs

abbrev pub plan_of : Bytes → List Mp4Box → Plan
plan_of content bs = record { logical_size = length content; extents = extents_of bs }

raw-extents_of : (bs : List Mp4Box) → map raw (extents_of bs) ≡ map box_extent bs
unfolding box_extent
raw-extents_of [] = refl
raw-extents_of (b ∷ bs) = ap (λ es. box_extent b ∷ es) (raw-extents_of bs)

-- What is kept of a box is a part of the file that lies in the box.
record IsKept (content : Bytes) (o size : ℕ) (bs : Bytes) : Type 0 where
  part : bs ≡ take (length bs) (drop o content)
  fits : length bs ≤ size

kept_of-IsKept :
    (content : Bytes) (o : ℕ) (b : Mp4Box) → IsBox content o b → IsKept content o b.size (kept_of b)
kept_of-IsKept content o b v = go (is_metadata b.typ) v.body_is
  where
    go :
        (m : Bool)
        → (m ≡ true → b.body ≡ take b.size (drop o content))
        → IsKept content o b.size (if m then b.body else b.header)
    go true whole = subst (IsKept content o b.size) (sym (whole (λ i. true))) (record {
      part = take-length-take b.size (drop o content);
      fits = omega (arith, length-take b.size (drop o content));
    })
    go false whole = record { part = v.header_is; fits = v.header_fits }

Chain-mono : (lo lo' : ℕ) (es : List Extent) → lo ≤ lo' → Chain lo' es → Chain lo es
Chain-mono lo lo' [] h c = tt
Chain-mono lo lo' (e ∷ es) h c = (omega (arith, c.0), c.1)

Tiled-Chain :
    (content : Bytes) (o : ℕ) (bs : List Mp4Box) → Tiled content o bs → Chain o (extents_of bs)
Tiled-Chain content o [] t = tt
Tiled-Chain content o (b ∷ bs) t =
    let k = kept_of-IsKept content o b t.0 in
    (
      omega (arith, t.0.placed),
      Chain-mono (b.offset + length (kept_of b)) (o + b.size) (extents_of bs)
          (omega (arith, t.0.placed, k.fits)) (Tiled-Chain content (o + b.size) bs t.1),
    )

Tiled-Within :
    (content : Bytes) (o : ℕ) (bs : List Mp4Box)
    → Tiled content o bs
    → Within (length content) (extents_of bs)
Tiled-Within content o [] t = tt
Tiled-Within content o (b ∷ bs) t =
    let k = kept_of-IsKept content o b t.0 in
    (omega (arith, t.0.placed, t.0.within, k.fits), Tiled-Within content (o + b.size) bs t.1)

Tiled-Kept :
    (content : Bytes) (o : ℕ) (bs : List Mp4Box) → Tiled content o bs → Kept content (extents_of bs)
Tiled-Kept content o [] t = tt
Tiled-Kept content o (b ∷ bs) t =
    let k = kept_of-IsKept content o b t.0 in
    (
      k.part ∙ ap (λ i. take (length (kept_of b)) (drop i content)) (sym t.0.placed),
      Tiled-Kept content (o + b.size) bs t.1,
    )

Tiled-IsStub :
    (content : Bytes) (bs : List Mp4Box) → Tiled content 0 bs → IsStub content (plan_of content bs)
Tiled-IsStub content bs t = record {
  normal = record { chain = Tiled-Chain content 0 bs t; within = Tiled-Within content 0 bs t };
  same_size = refl;
  kept = Tiled-Kept content 0 bs t;
}

-- For boxes that stand one behind the other `new_plan` finds no fault.
pub new_plan-boxes :
    (content : Bytes) (bs : List Mp4Box)
    → Tiled content 0 bs
    → new_plan (pos (length content)) (map box_extent bs) ≡ ok (plan_of content bs)
new_plan-boxes content bs t =
    ap (new_plan (pos (length content))) (sym (raw-extents_of bs))
    ∙ new_plan_normal (plan_of content bs) (Tiled-IsStub content bs t).normal

-- The plan is that of boxes which stand one behind the other from the start of the file, a `moov`
-- box among them, and it is a stub of the file.
abbrev pub IsMp4Stub : Bytes → Plan → Type 0
IsMp4Stub content p =
    IsStub content p
    × ((bs : List Mp4Box) × Scanned content 0 false false bs
        × (has_type moov bs ≡ true)
        × (p ≡ plan_of content bs))

has_moov-has_type : (bs : List Mp4Box) → has_moov bs ≡ has_type moov bs
unfolding has_moov
has_moov-has_type [] = refl
has_moov-has_type (b ∷ bs) = ap (λ x. same_bytes b.typ moov || x) (has_moov-has_type bs)

pub probe_mp4-Ensures :
    (content : Bytes) (source : Source) (serves : Serves content source)
    → Ensures serves.Inv (IsMp4Stub content) (probe_mp4 source)
unfolding probe_mp4
probe_mp4-Ensures content source serves =
    bind-Ensures serves.Inv (Scanned content 0 false false) (IsMp4Stub content)
      (scan_mp4_top_level source) _ (scan_mp4_top_level-Ensures content source serves)
      λ bs t.
        if-Ensures serves.Inv (IsMp4Stub content) (has_moov bs) _ _
          (λ moov_there. lift-Ensures serves.Inv (IsMp4Stub content) _ λ p made.
            let is_plan : p ≡ plan_of content bs = cc (
              sym made
              ∙ ap (λ n. new_plan (pos n) (map box_extent bs)) serves.sized
              ∙ new_plan-boxes content bs t.tiled) in
            (
              subst (IsStub content) (sym is_plan) (Tiled-IsStub content bs t.tiled),
              (bs, t, sym (has_moov-has_type bs) ∙ moov_there, is_plan),
            ))
          (λ e. fail-Ensures serves.Inv (IsMp4Stub content) unsupported)

-- Over a source that reads from `content`, `probe_mp4` ends, and a plan that it returns is a stub
-- of `content`: it is made of boxes that stand one behind the other from the start of the file, each
-- of the size that its size field says, to the end of the file or until a `moov` and an `mdat` are among
-- them; and a `moov` box is. Of `moov` and `ftyp` it keeps the whole box, of the others the header,
-- each with the bytes and at the place that it has in the file.
pub probe_mp4-IsStub :
    (content : Bytes) (source : Source) (serves : Serves content source) (s : source.State)
    → serves.Inv s
    → Holds (IsMp4Stub content) (probe_mp4 source s).0
probe_mp4-IsStub content source serves s v = (probe_mp4-Ensures content source serves s v).1
