-- ===== src/Core/Ebml.antt =====
-- core/matroska.go, the first half: EBML elements and variable-length integers.
mod Table
pub mod Digits
pub mod RoundTrip
pub mod Bounds
use Prim.Native.Nat.{bit_and, bit_or}
use mediastub.Prelude.{
  ℕ, zero, suc, ◌+◌, ◌-◌, ◌*◌, ◌/◌, ◌%◌, ◌^◌, Bool, ◌||◌, List, [], ◌∷◌, ◌++◌, length, get_or, take,
  drop, ltb, leb, ◌==◌, if◌then◌else◌, not,
}
use mediastub.Core.Base.{
  Bytes, Result, ok, err, ◌>>=◌, eof, bad_id, bad_size, element_too_large, bad_vint,
  value_too_large,
}

-- The 32-bit identifiers.
abbrev pub ebml_header_id : ℕ
ebml_header_id = 0x1a45dfa3

abbrev pub ebml_segment_id : ℕ
ebml_segment_id = 0x18538067

abbrev pub ebml_info_id : ℕ
ebml_info_id = 0x1549a966

abbrev pub ebml_tracks_id : ℕ
ebml_tracks_id = 0x1654ae6b

abbrev pub ebml_tags_id : ℕ
ebml_tags_id = 0x1254c367

abbrev pub ebml_cluster_id : ℕ
ebml_cluster_id = 0x1f43b675

pub record EbmlElement : Type 0 where
  pub id : ℕ
  pub offset : ℕ
  pub header_size : ℕ
  pub size : ℕ
  pub unknown : Bool

-- The loop of `vintLength`, with the rounds that are left.
vint_loop : ℕ → ℕ → ℕ → ℕ → Result ℕ
vint_loop zero len mask first = err bad_vint
vint_loop (suc rounds) len mask first =
    let rest = vint_loop rounds (len + 1) (mask / 2) first in
    if bit_and first mask == 0 then rest else ok len

unfoldable pub vint_length : ℕ → ℕ → Result ℕ
unfolding vint_loop
vint_length first max_length = vint_loop max_length 1 0x80 first

-- `acc<<8 | b` on a uint64. The low byte of the shifted value is 0, so the `|` is a sum.
unfoldable pub be_value : ℕ → Bytes → ℕ
be_value acc [] = acc
be_value acc (b ∷ bs) = be_value ((acc * 256 + b) % 2 ^ 64) bs

-- An error of `vintLength` and a header that is cut short are reported alike.
abbrev or_else_err : Result ℕ → Result ℕ → Result ℕ
or_else_err (ok n) e = ok n
or_else_err (err x) e = e

-- `readEBMLElement` behind its read, which gave the bytes `buf` of at most twelve.
unfoldable pub parse_element : Bytes → ℕ → Result EbmlElement
parse_element buf offset = if length buf == 0 then err eof else do
  id_len ← or_else_err (vint_length (get_or buf 0 0) 4) (err bad_id)
  first ← if ltb (length buf) (id_len + 1) then err bad_id else ok (get_or buf id_len 0)
  size_len ← or_else_err (vint_length first 8) (err bad_size)
  let size =
      be_value (bit_and first (0xff / 2 ^ size_len)) (take (size_len - 1) (drop (id_len + 1) buf))
  if ltb (length buf) (id_len + size_len)
      then err bad_size
      else if ltb (2 ^ 63 - 1) size
      then err element_too_large
      else ok (record {
        id = be_value 0 (take id_len buf);
        offset = offset;
        header_size = id_len + size_len;
        size = size;
        unknown = size == 2 ^ (7 * size_len) - 1;
      })

-- The loop of `encodeVINT`, from the last byte to the first.
unfoldable pub be_bytes : ℕ → ℕ → Bytes
be_bytes zero v = []
be_bytes (suc k) v = be_bytes k (v / 256) ++ ((v % 256) ∷ [])

-- `out[0] |= bits`
unfoldable pub mark_first : ℕ → Bytes → Bytes
mark_first bits [] = []
mark_first bits (b ∷ bs) = bit_or b bits ∷ bs

unfoldable pub encode_vint : ℕ → ℕ → Result Bytes
encode_vint value len =
    if ltb len 1 || ltb 8 len || leb (2 ^ (7 * len) - 1) value
    then err value_too_large
    else ok (mark_first (2 ^ (8 - len)) (be_bytes len value))
