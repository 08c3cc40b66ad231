-- ===== src/Core/Plan/Reading.antt =====
-- `read_at` agrees with the file that the plan stands for.
use mediastub.Prelude.{
  ℕ, zero, suc, ◌+◌, ◌-◌, ◌≤◌, ◌<◌, ◌≡◌, refl, sym, ap, ◌∙◌, ◌&&◌, none, some, List, [], ◌∷◌, arith,
  ltb, leb, length, get_or, take, drop, replicate, copy_at, if◌then◌else◌, min, max, length-copy_at,
  get_or-copy_at, get_or-take, get_or-drop, get_or_ext, leb→le, Bool-cases, inl, inr, length-take,
  length-drop, length-replicate, get_or-replicate,
}
use mediastub.Prelude.Int.{pos}
use mediastub.Core.Base.{Bytes, eof}
use mediastub.Core.Plan.{Extent, extent_end, Plan, fill, read_at}
use mediastub.Core.Plan.Normal.{Chain, IsNormal}

-- The byte at place `k`: that of the extent that covers it, and else `d`.
unfoldable pub byte_or : List Extent → ℕ → ℕ → ℕ
byte_or [] k d = d
byte_or (e ∷ es) k d =
    let behind = byte_or es k d in
    if leb e.offset k && ltb k (extent_end e) then get_or e.bytes (k - e.offset) 0 else behind

-- The `n` bytes from place `k` on.
pub bytes_from : List Extent → ℕ → ℕ → Bytes
bytes_from es k zero = []
bytes_from es k (suc n) = byte_or es k 0 ∷ bytes_from es (suc k) n

-- The whole sparse file.
pub contents : Plan → Bytes
contents p = bytes_from p.extents 0 p.logical_size

pub length-bytes_from : (es : List Extent) (k n : ℕ) → length (bytes_from es k n) ≡ n
unfolding bytes_from
length-bytes_from es k zero = refl
length-bytes_from es k (suc n) = ap suc (length-bytes_from es (suc k) n)

pub length-contents : (p : Plan) → length (contents p) ≡ p.logical_size
unfolding contents
length-contents p = length-bytes_from p.extents 0 p.logical_size

get_or-bytes_from :
    (es : List Extent) (k n j : ℕ) → j < n → get_or (bytes_from es k n) j 0 ≡ byte_or es (k + j) 0
unfolding bytes_from
get_or-bytes_from es k zero j h = absurd (omega arith)
get_or-bytes_from es k (suc n) zero h = ap (λ i. byte_or es i 0) (omega arith)
get_or-bytes_from es k (suc n) (suc j) h =
    get_or-bytes_from es (suc k) n j (omega arith) ∙ ap (λ i. byte_or es i 0) (omega arith)

-- Before the first extent there is nothing but the default.
byte_or-below : (lo : ℕ) (es : List Extent) (k d : ℕ) → Chain lo es → k < lo → byte_or es k d ≡ d
unfolding byte_or
byte_or-below lo [] k d c h = refl
byte_or-below lo (e ∷ es) k d c h = ground (arith, byte_or-below (extent_end e) es k d c.1)

-- The part of an extent that lies between `off` and `stop`.
abbrev piece : ℕ → ℕ → Extent → Bytes
piece off stop e =
    take (min stop (extent_end e) - max off e.offset) (drop (max off e.offset - e.offset) e.bytes)

length-piece :
    (off stop : ℕ) (e : Extent)
    → length (piece off stop e) ≡ min stop (extent_end e) - max off e.offset
length-piece off stop e = omega (
  arith,
  length-take (min stop (extent_end e) - max off e.offset)
      (drop (max off e.offset - e.offset) e.bytes),
  length-drop (max off e.offset - e.offset) e.bytes,
)

get_or-piece :
    (off stop : ℕ) (e : Extent) (j : ℕ)
    → max off e.offset ≤ off + j
    → off + j < min stop (extent_end e)
    → get_or (piece off stop e) (off + j - max off e.offset) 0
      ≡ get_or e.bytes (off + j - e.offset) 0
get_or-piece off stop e j lo hi =
    get_or-take _ (drop (max off e.offset - e.offset) e.bytes) _ 0 (omega arith)
    ∙ get_or-drop (max off e.offset - e.offset) e.bytes _ 0
    ∙ ap (λ i. get_or e.bytes i 0) (omega arith)

length-fill : (off stop : ℕ) (es : List Extent) (b : Bytes) → length (fill off stop es b) ≡ length b
unfolding fill
length-fill off stop [] b = refl
length-fill off stop (e ∷ es) b =
    let copied = copy_at b (max off e.offset - off) (piece off stop e) in
    ground (
      arith,
      length-fill off stop es b,
      length-fill off stop es copied,
      length-copy_at b (max off e.offset - off) (piece off stop e),
    )

start_of_piece :
    (off : ℕ) (e : Extent) (j : ℕ) → j - (max off e.offset - off) ≡ off + j - max off e.offset
start_of_piece off e j = omega arith

-- One round of the loop: the extent's bytes where it covers the place, the old ones elsewhere.
get_or-copy_at-piece :
    (off stop : ℕ) (e : Extent) (b : Bytes) (j : ℕ)
    → off + length b ≡ stop
    → j < length b
    → off < extent_end e
    → e.offset < stop
    → get_or (copy_at b (max off e.offset - off) (piece off stop e)) j 0 ≡ (
        if leb e.offset (off + j) && ltb (off + j) (extent_end e)
        then get_or e.bytes (off + j - e.offset) 0
        else get_or b j 0)
get_or-copy_at-piece off stop e b j hb h ends begins = ground (
  arith,
  get_or-copy_at b (max off e.offset - off) (piece off stop e) j 0 h,
  length-piece off stop e,
  get_or-piece off stop e j,
  ap (λ i. get_or (piece off stop e) i 0) (start_of_piece off e j),
)

-- A byte of the buffer after the loop.
get_or-fill :
    (off stop lo : ℕ) (es : List Extent) (b : Bytes) (j : ℕ)
    → Chain lo es
    → off + length b ≡ stop
    → j < length b
    → get_or (fill off stop es b) j 0 ≡ byte_or es (off + j) (get_or b j 0)
unfolding fill byte_or
get_or-fill off stop lo [] b j c hb h = refl
get_or-fill off stop lo (e ∷ es) b j c hb h = elim (Bool-cases (leb (extent_end e) off)) [
  | inl gone ↦ rw gone (ground (arith, get_or-fill off stop (extent_end e) es b j c.1 hb h))
  | inr ends ↦ elim (Bool-cases (leb stop e.offset)) [
    | inl done ↦
        rw (ends, done)
          (ground (arith, byte_or-below (extent_end e) es (off + j) (get_or b j 0) c.1))
    | inr begins ↦
        rw (ends, begins)
          (ground (
            arith,
            length-copy_at b (max off e.offset - off) (piece off stop e),
            get_or-copy_at-piece off stop e b j hb h,
            get_or-fill off stop (extent_end e) es
                (copy_at b (max off e.offset - off) (piece off stop e)) j c.1,
            byte_or-below (extent_end e) es (off + j) (get_or e.bytes (off + j - e.offset) 0) c.1,
          ))
  ]
]

fill-bytes_from :
    (p : Plan) (off n : ℕ)
    → IsNormal p
    → fill off (off + n) p.extents (replicate n 0) ≡ bytes_from p.extents off n
fill-bytes_from p off n v =
    let filled = fill off (off + n) p.extents (replicate n 0) in
    let size : length filled ≡ n =
      length-fill off (off + n) p.extents (replicate n 0) ∙ length-replicate n 0 in
    get_or_ext 0 filled (bytes_from p.extents off n)
      (size ∙ sym (length-bytes_from p.extents off n))
      λ j h.
        let inside : j < n = omega arith in
        get_or-fill off (off + n) 0 p.extents (replicate n 0) j v.chain
          (ap (λ k. off + k) (length-replicate n 0))
          (omega (arith, length-replicate n (let z : ℕ = 0 in z)))
        ∙ ap (byte_or p.extents (off + j)) (get_or-replicate n 0 j)
        ∙ sym (get_or-bytes_from p.extents off n j inside)

bytes_from-eq :
    (es : List Extent) (k k' n n' : ℕ) → k ≡ k' → n ≡ n' → bytes_from es k n ≡ bytes_from es k' n'
bytes_from-eq es k k' n n' p q = cc

bytes_from-zero : (es : List Extent) (k n : ℕ) → n ≡ 0 → bytes_from es k n ≡ []
unfolding bytes_from
bytes_from-zero es k zero h = refl
bytes_from-zero es k (suc n) h = absurd (omega arith)

-- A part of the file, cut out of the whole.
take-bytes_from :
    (es : List Extent) (k m n : ℕ) → take m (bytes_from es k n) ≡ bytes_from es k (min m n)
unfolding bytes_from
take-bytes_from es k zero n = bytes_from-eq es k k 0 (min 0 n) (omega arith) (omega arith)
take-bytes_from es k (suc m) zero =
    bytes_from-eq es k k 0 (min (suc m) 0) (omega arith) (omega arith)
take-bytes_from es k (suc m) (suc n) =
    ap (λ bs. byte_or es k 0 ∷ bs) (take-bytes_from es (suc k) m n)
    ∙ bytes_from-eq es k k (suc (min m n)) (min (suc m) (suc n)) (omega arith) (omega arith)

drop-bytes_from :
    (es : List Extent) (k m n : ℕ) → drop m (bytes_from es k n) ≡ bytes_from es (k + m) (n - m)
unfolding bytes_from
drop-bytes_from es k zero n = bytes_from-eq es k (k + 0) n (n - 0) (omega arith) (omega arith)
drop-bytes_from es k (suc m) zero =
    bytes_from-eq es (k + suc m) (k + suc m) 0 (0 - suc m) (omega arith) (omega arith)
drop-bytes_from es k (suc m) (suc n) =
    drop-bytes_from es (suc k) m n
    ∙ bytes_from-eq es (suc k + m) (k + suc m) (n - m) (suc n - suc m) (omega arith) (omega arith)

contents_part :
    (p : Plan) (len off : ℕ)
    → take len (drop off (contents p)) ≡ bytes_from p.extents off (min len (p.logical_size - off))
unfolding contents
contents_part p len off =
    ap (take len) (drop-bytes_from p.extents 0 off p.logical_size)
    ∙ take-bytes_from p.extents (0 + off) len (p.logical_size - off)
    ∙ ap (λ k. bytes_from p.extents k (min len (p.logical_size - off))) (omega arith)

-- For a plan of the form that `new_plan` returns, a read at `off` gives the bytes of the sparse
-- file from `off` on, as many as the file has up to `len`. Its error is `eof` if `off` is not
-- below the logical size or `len` bytes do not fit behind `off`, and there is none otherwise.
pub read_at-contents :
    (p : Plan) (len off : ℕ)
    → IsNormal p
    → read_at p len (pos off) ≡ record {
      bytes = take len (drop off (contents p));
      error = if ltb off p.logical_size && leb (off + len) p.logical_size then none else some eof;
    }
unfolding read_at
read_at-contents p len off v =
    let n = min len (p.logical_size - off) in
    rw (contents_part p len off) (elim (Bool-cases (leb p.logical_size off)) [
      | inl past ↦ rw past (
          ground (
            arith,
            bytes_from-zero p.extents off n (omega (arith, leb→le p.logical_size off past)),
          ))
      | inr inside ↦
          rw (inside, fill-bytes_from p off (min len (p.logical_size - off)) v) (ground arith)
    ])

pub contents-byte :
    (p : Plan) (k : ℕ) → k < p.logical_size → get_or (contents p) k 0 ≡ byte_or p.extents k 0
unfolding contents
contents-byte p k h =
    get_or-bytes_from p.extents 0 p.logical_size k h
    ∙ ap (λ i. byte_or p.extents i 0) {x = 0 + k} {y = k} (omega arith)
