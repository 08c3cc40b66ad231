-- ===== src/Core/Ebml/RoundTrip.antt =====
-- An element whose size `encode_vint` wrote is read back by `parse_element`.
use Prim.Native.Nat.{bit_and}
use native.Mathlib.Nat.{div-add-mod', div-lt_iff_lt-mul, mod-lt, one-le-pow}
use mediastub.Prelude.{
  ℕ, zero, suc, ◌+◌, ◌-◌, ◌*◌, ◌/◌, ◌%◌, ◌^◌, ◌≤◌, ◌<◌, ◌≡◌, refl, sym, ap, subst, ◌∙◌, false, [],
  ◌∷◌, ◌++◌, arith, length, length-append, get_or, take, drop, ltb, ◌==◌, take-append,
  get_or-append, drop_suc-append, take-append_of_length,
}
use mediastub.Core.Base.{Bytes, ok}
use mediastub.Core.Ebml.{vint_length, be_value, be_bytes, mark_first, encode_vint, parse_element}
use mediastub.Core.Ebml.Table.{marked_byte}
use mediastub.Core.Ebml.Digits.{
  be_value-be_bytes, be_bytes-first, mul_mono, lt_eight-IsLength, length-be_bytes,
}

-- The top digit of a value that fits and the digits behind it.
abbrev top : ℕ → ℕ → ℕ
top k v = v / 256 ^ k

abbrev low : ℕ → ℕ → Bytes
low k v = be_bytes k (v % 256 ^ k)

module _ (k v : ℕ) (short : k < 8) (fits : v < 2 ^ (7 * suc k) - 1) where
  v_split : v ≡ top k v * 256 ^ k + v % 256 ^ k
  v_split = sym (div-add-mod' v (256 ^ k))

  low_lt : v % 256 ^ k < 256 ^ k
  low_lt = mod-lt v (one-le-pow k 256 (omega arith))

  top_lt : top k v < 2 ^ (8 - suc k)
  top_lt =
      (div-lt_iff_lt-mul (one-le-pow k 256 (omega arith))).1
        (omega (arith, (lt_eight-IsLength k short).split))

  digits_eq : be_bytes (suc k) v ≡ top k v ∷ low k v
  digits_eq =
      ap (be_bytes (suc k)) v_split
      ∙ be_bytes-first k (top k v) (v % 256 ^ k) low_lt
      ∙ ap (λ n. n ∷ low k v) (omega (arith, top_lt, (lt_eight-IsLength k short).marker))

  encoded : encode_vint v (suc k) ≡ ok ((top k v + 2 ^ (8 - suc k)) ∷ low k v)
  unfolding encode_vint mark_first
  encoded =
      rw digits_eq (
        ground
          (arith, (marked_byte k (top k v) short top_lt).0, (lt_eight-IsLength k short).narrow))

  decoded : be_value (top k v) (low k v) ≡ v
  decoded =
      be_value-be_bytes k (top k v) (v % 256 ^ k) low_lt (
        omega (
          arith,
          mul_mono (top k v + 1) (2 ^ (8 - suc k)) (256 ^ k) (omega (arith, top_lt)),
          (lt_eight-IsLength k short).split,
          (lt_eight-IsLength k short).narrow,
        ))
      ∙ sym v_split

-- `parse_element` on bytes of which every part is known.
parse_element_parts :
    (buf : Bytes) (offset id_len first size_len size : ℕ)
    → id_len + size_len ≤ length buf
    → 0 < size_len
    → vint_length (get_or buf 0 0) 4 ≡ ok id_len
    → get_or buf id_len 0 ≡ first
    → vint_length first 8 ≡ ok size_len
    → be_value (bit_and first (0xff / 2 ^ size_len)) (take (size_len - 1) (drop (id_len + 1) buf))
      ≡ size
    → size < 2 ^ 63
    → parse_element buf offset
      ≡ ok (record {
        id = be_value 0 (take id_len buf);
        offset = offset;
        header_size = id_len + size_len;
        size = size;
        unknown = size == 2 ^ (7 * size_len) - 1;
      })
unfolding parse_element
parse_element_parts buf offset id_len first size_len size long pos_len id_ok is_first first_ok
      is_size small =
    let not_empty : (length buf == 0) ≡ false = ground arith in
    let has_first : ltb (length buf) (id_len + 1) ≡ false = ground arith in
    rw (not_empty, id_ok, has_first, is_first, first_ok, is_size) (ground arith)

-- The identifier `ids`, a size that `encode_vint` wrote in `len` bytes, and anything behind them:
-- `parse_element` gives that identifier and that size back, with the size of the header, and does
-- not take the size for the unknown one.
pub parse_element-encode_vint :
    (i : ℕ) (ids out rest : Bytes) (v len offset : ℕ)
    → vint_length i 4 ≡ ok (length (i ∷ ids))
    → encode_vint v len ≡ ok out
    → parse_element ((i ∷ ids) ++ (out ++ rest)) offset
      ≡ ok (record {
        id = be_value 0 (i ∷ ids);
        offset = offset;
        header_size = length (i ∷ ids) + len;
        size = v;
        unknown = false;
      })
parse_element-encode_vint i ids out rest v zero offset id_ok h = unfold encode_vint in cc
parse_element-encode_vint i ids out rest v (suc k) offset id_ok h =
    let short : k < 8 = unfold encode_vint in ground arith in
    let fits : v < 2 ^ (7 * suc k) - 1 = unfold encode_vint in ground arith in
    let coded : ok ((top k v + 2 ^ (8 - suc k)) ∷ low k v) ≡ ok out =
      sym (encoded k v short fits) ∙ h in
    let is_out : (top k v + 2 ^ (8 - suc k)) ∷ low k v ≡ out = cc coded in
    let marked = marked_byte k (top k v) short (top_lt k v short fits) in
    let first : ℕ = top k v + 2 ^ (8 - suc k) in
    let buf : Bytes = (i ∷ ids) ++ ((first ∷ low k v) ++ rest) in
    let tail : take (suc k - 1) (drop (length (i ∷ ids) + 1) buf) ≡ low k v =
      ap (take (suc k - 1)) (drop_suc-append (i ∷ ids) first (low k v ++ rest))
      ∙ take-append_of_length (suc k - 1) (low k v) rest
          (omega (arith, length-be_bytes k (v % 256 ^ k))) in
    let size_read : be_value (bit_and first (0xff / 2 ^ suc k))
          (take (suc k - 1) (drop (length (i ∷ ids) + 1) buf))
        ≡ v =
      ap (be_value (bit_and first (0xff / 2 ^ suc k))) tail
      ∙ ap (λ b. be_value b (low k v)) marked.2
      ∙ decoded k v short fits in
    subst
      (λ bs.
        parse_element ((i ∷ ids) ++ (bs ++ rest)) offset
        ≡ ok (record {
          id = be_value 0 (i ∷ ids);
          offset = offset;
          header_size = length (i ∷ ids) + suc k;
          size = v;
          unknown = false;
        }))
      is_out
      (parse_element_parts buf offset (length (i ∷ ids)) first (suc k) v
          (omega (
            arith,
            length-append ids (first ∷ (low k v ++ rest)),
            length-append (low k v) rest,
            length-be_bytes k (v % 256 ^ k),
          ))
          (omega arith) id_ok (get_or-append (i ∷ ids) first (low k v ++ rest) 0) marked.1 size_read
          (omega (arith, (lt_eight-IsLength k short).narrow))
        ∙ ground (arith, take-append (i ∷ ids) ((first ∷ low k v) ++ rest)))

length-mark_first : (bits : ℕ) (bs : Bytes) → length (mark_first bits bs) ≡ length bs
unfolding mark_first
length-mark_first bits [] = refl
length-mark_first bits (b ∷ bs) = refl

pub length-encode_vint : (v len : ℕ) (out : Bytes) → encode_vint v len ≡ ok out → length out ≡ len
unfolding encode_vint
length-encode_vint v len out h =
    ground (arith, length-mark_first (2 ^ (8 - len)) (be_bytes len v), length-be_bytes len v)
