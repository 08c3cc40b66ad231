-- ===== src/Core/Stub.antt =====
-- Plans whose extents are cut out of a file: what a reader of the stub sees of the file.
use mediastub.Prelude.{
  ℕ, ◌+◌, ◌-◌, ◌≤◌, ◌<◌, ◌≡◌, refl, ap, ◌∙◌, Bool, false, ◌||◌, ◌&&◌, List, [], ◌∷◌, arith, length,
  get_or, take, drop, ltb, leb, if◌then◌else◌, All, get_or-take, get_or-drop,
}
use mediastub.Prelude.Int.{pos}
use mediastub.Core.Base.{Bytes}
use mediastub.Core.Plan.{Extent, extent_end, Plan, read_at}
use mediastub.Core.Plan.Normal.{IsNormal}
use mediastub.Core.Plan.Reading.{byte_or, contents, read_at-contents, contents-byte}

-- Every extent holds the bytes that the file has at its offset.
abbrev pub Kept : Bytes → List Extent → Type 0
Kept content es = All (λ e. e.bytes ≡ take (length e.bytes) (drop e.offset content)) es

pub record IsStub (content : Bytes) (p : Plan) : Type 0 where
  pub normal : IsNormal p
  pub same_size : p.logical_size ≡ length content
  pub kept : Kept content p.extents

pub covered : List Extent → ℕ → Bool
covered [] k = false
covered (e ∷ es) k = (leb e.offset k && ltb k (extent_end e)) || covered es k

extent_byte :
    (content : Bytes) (e : Extent) (k : ℕ)
    → e.bytes ≡ take (length e.bytes) (drop e.offset content)
    → e.offset ≤ k
    → k < extent_end e
    → get_or e.bytes (k - e.offset) 0 ≡ get_or content k 0
extent_byte content e k h lo hi =
    ap (λ bs. get_or bs (k - e.offset) 0) h
    ∙ get_or-take (length e.bytes) (drop e.offset content) (k - e.offset) 0 (omega arith)
    ∙ get_or-drop e.offset content (k - e.offset) 0
    ∙ ap (λ i. get_or content i 0) {x = e.offset + (k - e.offset)} {y = k} (omega arith)

byte_or-Kept :
    (content : Bytes) (es : List Extent) (k : ℕ)
    → Kept content es
    → byte_or es k 0 ≡ (if covered es k then get_or content k 0 else 0)
unfolding byte_or covered
byte_or-Kept content [] k h = refl
byte_or-Kept content (e ∷ es) k h =
    ground (arith, extent_byte content e k h.0, byte_or-Kept content es k h.1)

-- A read of `len` bytes at `off` from a stub of `content` gives at each place within the read and the
-- file the byte of the file where an extent covers the place, and 0 elsewhere.
pub read_at_stub :
    (content : Bytes) (p : Plan) (len off j : ℕ)
    → IsStub content p
    → j < len
    → off + j < length content
    → get_or (read_at p len (pos off)).bytes j 0
      ≡ (if covered p.extents (off + j) then get_or content (off + j) 0 else 0)
read_at_stub content p len off j v hj inside =
    ap (λ r. get_or r.bytes j 0) (read_at-contents p len off v.normal)
    ∙ get_or-take len (drop off (contents p)) j 0 hj
    ∙ get_or-drop off (contents p) j 0
    ∙ contents-byte p (off + j) (omega (arith, v.same_size))
    ∙ byte_or-Kept content p.extents (off + j) v.kept
