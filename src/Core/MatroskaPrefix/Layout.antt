-- ===== src/Core/MatroskaPrefix/Layout.antt =====
-- The front of a Matroska stub is a Matroska file as large as the original.
use mediastub.Prelude.{
  ℕ, ◌+◌, ◌-◌, ◌≤◌, ◌≡◌, refl, sym, ap, ◌∙◌, false, List, [], ◌∷◌, ◌++◌, arith, length, take, drop,
  ltb, take-append, length-append, drop-append, Bool-cases, inl, inr, drop-append_of_length,
  drop-drop,
}
use mathlib.Core.List.{append-nil, append_assoc}
use mediastub.Core.Base.{Bytes, ok, first_ok}
use mediastub.Core.Ebml.{
  EbmlElement, ebml_segment_id, vint_length, be_value, encode_vint, parse_element,
}
use mediastub.Core.Ebml.RoundTrip.{parse_element-encode_vint, length-encode_vint}
use mediastub.Core.MatroskaPrefix.{
  segment_id_bytes, cluster_bytes, join, segment_field, before_void, void_field, prefix_of,
}

-- What `prefix_of` puts together, and the two sizes that it writes.
pub record IsPrefix (size : ℕ) (header : Bytes) (elements : List Bytes) (p : Bytes) : Type 0 where
  pub segment_size : Bytes
  pub void_size : Bytes
  pub is_prefix : p ≡ before_void header segment_size elements ++ (0xec ∷ void_size)
  pub fits : length p ≤ size
  pub segment_to_end : encode_vint (size - length header - 12) 8 ≡ ok segment_size
  pub void_to_end : encode_vint (size - length p) 8 ≡ ok void_size

segment_field_ok :
    (size header_end : ℕ) (bs : Bytes)
    → segment_field size header_end ≡ ok bs
    → (header_end + 21 ≤ size) × (encode_vint (size - header_end - 12) 8 ≡ ok bs)
segment_field_ok size header_end bs h = elim (Bool-cases (ltb size (header_end + 12 + 9))) [
  | inl small ↦ cc (rw small at h)
  | inr large ↦ (ground arith, rw large at h)
]

void_field_ok :
    (body_size header_end n : ℕ) (bs : Bytes)
    → void_field body_size header_end n ≡ ok bs
    → (n + 9 ≤ body_size + header_end + 12)
      × (encode_vint (body_size + header_end + 12 - n - 9) 8 ≡ ok bs)
void_field_ok body_size header_end n bs h =
    elim (Bool-cases (ltb (body_size + header_end + 12) (n + 9))) [
      | inl small ↦ cc (rw small at h)
      | inr large ↦ (ground arith, rw large at h)
    ]

pub prefix_of-IsPrefix :
    (size : ℕ) (header : Bytes) (elements : List Bytes) (p : Bytes)
    → prefix_of size header elements ≡ ok p
    → IsPrefix size header elements p
unfolding prefix_of
prefix_of-IsPrefix size header elements p h =
    let body_size = size - length header - 12 in
    let (segment_size, made, rest) = first_ok (segment_field size (length header)) _ h in
    let front = before_void header segment_size elements in
    let (void_size, made', last) =
      first_ok (void_field body_size (length header) (length front)) _ rest in
    let (large, segment_ok) = segment_field_ok size (length header) segment_size made in
    let (room, void_ok) = void_field_ok body_size (length header) (length front) void_size made' in
    let is_p : front ++ (0xec ∷ void_size) ≡ p = cc last in
    let long : length p ≡ length front + 9 =
      ap length (sym is_p)
      ∙ length-append front (0xec ∷ void_size)
      ∙ omega (arith, length-encode_vint _ 8 void_size void_ok) in
    record {
      segment_size = segment_size;
      void_size = void_size;
      is_prefix = sym is_p;
      fits = omega arith;
      segment_to_end = segment_ok;
      void_to_end =
          ap (λ v. encode_vint v 8) {x = size - length p}
            {y = body_size + length header + 12 - length front - 9} (omega arith)
          ∙ void_ok;
    }

abbrev element : ℕ → ℕ → ℕ → ℕ → EbmlElement
element id offset header_size size = record {
  id = id;
  offset = offset;
  header_size = header_size;
  size = size;
  unknown = false;
}

abbrev behind_header : Bytes → List Bytes → Bytes → Bytes
behind_header segment_size elements void_size =
    segment_id_bytes ++ (segment_size ++ (join elements ++ (cluster_bytes ++ (0xec ∷ void_size))))

regrouped :
    (header segment_size void_size : Bytes) (elements : List Bytes)
    → before_void header segment_size elements ++ (0xec ∷ void_size)
      ≡ header ++ behind_header segment_size elements void_size
regrouped header segment_size void_size elements = simp append_assoc

-- The front that is built for a file of `size` bytes begins with the given header, and twelve
-- bytes behind it stand the given elements, as they are. Between them stands a segment header, of
-- a known size that reaches exactly to the end of the file. The front ends in the header of a void
-- element, again of a size that reaches exactly to the end, and is not longer than the file.
pub prefix_of_layout :
    (size : ℕ) (header : Bytes) (elements : List Bytes) (p : Bytes)
    → prefix_of size header elements ≡ ok p
    → (take (length header) p ≡ header)
      × (take (length (join elements)) (drop (length header + 12) p) ≡ join elements)
      × (parse_element (drop (length header) p) (length header)
          ≡ ok (element ebml_segment_id (length header) 12 (size - length header - 12)))
      × (parse_element (drop (length p - 9) p) (length p - 9)
          ≡ ok (element 0xec (length p - 9) 9 (size - length p)))
      × (length p ≤ size)
prefix_of_layout size header elements p h =
    let v = prefix_of-IsPrefix size header elements p h in
    let tail = behind_header v.segment_size elements v.void_size in
    let p_is : p ≡ header ++ tail =
      v.is_prefix ∙ regrouped header v.segment_size v.void_size elements in
    let rest = join elements ++ (cluster_bytes ++ (0xec ∷ v.void_size)) in
    let seg_long = length-encode_vint _ 8 v.segment_size v.segment_to_end in
    let void_long = length-encode_vint _ 8 v.void_size v.void_to_end in
    let front = before_void header v.segment_size elements in
    let p_long : length p ≡ length front + 9 =
      ap length v.is_prefix ∙ length-append front (0xec ∷ v.void_size) ∙ omega arith in
    (
      ap (take (length header)) p_is ∙ take-append header tail,
      ap (take (length (join elements))) (
            ap (drop (length header + 12)) p_is
            ∙ sym (drop-drop 12 (length header) (header ++ tail))
            ∙ ap (drop 12) (drop-append header tail)
            ∙ drop-append_of_length 8 v.segment_size rest seg_long)
          ∙ take-append (join elements) (cluster_bytes ++ (0xec ∷ v.void_size)),
      ap (λ bs. parse_element bs (length header))
            (ap (drop (length header)) p_is ∙ drop-append header tail)
          ∙ parse_element-encode_vint 0x18 (0x53 ∷ 0x80 ∷ 0x67 ∷ []) v.segment_size rest
              (size - length header - 12) 8 (length header) (unfold vint_length in refl)
              v.segment_to_end
          ∙ (unfold be_value in refl),
      ap (λ bs. parse_element bs (length p - 9))
            (ap (drop (length p - 9)) v.is_prefix
              ∙ drop-append_of_length (length p - 9) front (0xec ∷ v.void_size) (omega arith)
              ∙ sym (append-nil (0xec ∷ v.void_size)))
          ∙ parse_element-encode_vint 0xec [] v.void_size [] (size - length p) 8 (length p - 9)
              (unfold vint_length in refl) v.void_to_end
          ∙ (unfold be_value in refl),
      v.fits,
    )
