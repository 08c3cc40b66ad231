-- ===== src/Core/Ebml/Bounds.antt =====
-- How large the parts of an element can be, whatever the bytes are.
use Prim.Native.Nat.{bit_and}
use native.Mathlib.Nat.{le_trans, pow-le-pow_right}
use mediastub.Prelude.{
  ℕ, zero, suc, ◌+◌, ◌-◌, ◌*◌, ◌/◌, ◌^◌, ◌≤◌, ◌<◌, ◌≡◌, refl, arith, length, get_or, take, drop,
  ltb, ◌==◌, All, All-take, All-drop, All-get_or, length-take, Bool-cases, inl, inr, ◌⊎◌,
  if◌then◌else◌,
}
use mediastub.Core.Base.{Bytes, Result, ok, err, eof, bad_id, bad_size, element_too_large, Error}
use mediastub.Core.Ebml.{EbmlElement, vint_loop, vint_length, be_value, parse_element}
use mediastub.Core.Ebml.Table.{masked_byte}
use mediastub.Core.Ebml.Digits.{IsByte, be_value-lt, mul_mono, mul_mono_right, lt_eight-IsLength}

vint_loop_bounds :
    (rounds len mask first l : ℕ)
    → vint_loop rounds len mask first ≡ ok l
    → (len ≤ l) × (l < len + rounds)
unfolding vint_loop
vint_loop_bounds zero len mask first l h = cc
vint_loop_bounds (suc rounds) len mask first l h =
    ground (arith, vint_loop_bounds rounds (len + 1) (mask / 2) first l)

pub vint_length_bounds :
    (first max_length l : ℕ) → vint_length first max_length ≡ ok l → (1 ≤ l) × (l ≤ max_length)
unfolding vint_length
vint_length_bounds first max_length l h =
    omega (arith, vint_loop_bounds max_length 1 0x80 first l h)

Result-cases : {A : Type 0} (r : Result A) → ((a : A) × (r ≡ ok a)) ⊎ ((e : Error) × (r ≡ err e))
Result-cases (ok a) = inl (a, refl)
Result-cases (err e) = inr (e, refl)

-- The size that a header of length `l` stands for.
abbrev size_of : Bytes → ℕ → ℕ → ℕ
size_of buf id_len l =
    be_value (bit_and (get_or buf id_len 0) (0xff / 2 ^ l)) (take (l - 1) (drop (id_len + 1) buf))

size_of-lt :
    (buf : Bytes) (id_len k : ℕ) → All IsByte buf → k < 8 → size_of buf id_len (suc k) < 2 ^ 56
size_of-lt buf id_len k bytes short =
    let first = bit_and (get_or buf id_len 0) (0xff / 2 ^ suc k) in
    let tail = take (suc k - 1) (drop (id_len + 1) buf) in
    let narrow = lt_eight-IsLength k short in
    let small : first + 1 ≤ 2 ^ (8 - suc k) = omega (
      arith,
      masked_byte (suc k) (get_or buf id_len 0) (omega arith)
          (All-get_or IsByte buf id_len 0 (omega arith) bytes),
    ) in
    let shorter : length tail ≤ k =
      omega (arith, length-take (suc k - 1) (drop (id_len + 1) buf)) in
    let fits : (first + 1) * 256 ^ length tail ≤ 2 ^ 56 =
      le_trans (mul_mono (first + 1) (2 ^ (8 - suc k)) (256 ^ length tail) small) (
        le_trans (mul_mono_right (2 ^ (8 - suc k)) _ _ (pow-le-pow_right (omega arith) shorter))
          (omega (arith, narrow.split, narrow.narrow))) in
    let value =
      be_value-lt first tail
        (All-take IsByte (suc k - 1) _ (All-drop IsByte (id_len + 1) buf bytes)) (omega arith) in
    omega arith

-- What `parse_element` accepts: the header is of 2 to 12 bytes, all of them read, and the size is
-- below 2 ^ 56. So a sum of an offset, a header and a size stays far below 2 ^ 63.
pub record IsBounded (buf : Bytes) (offset : ℕ) (e : EbmlElement) : Type 0 where
  pub placed : e.offset ≡ offset
  pub header_min : 2 ≤ e.header_size
  pub header_max : e.header_size ≤ 12
  pub header_read : e.header_size ≤ length buf
  pub size_max : e.size < 2 ^ 56

-- The cases of `parse_element`: either both integers have a length and the bytes are there, or
-- the result is one of three errors.
parse_element_cases {ℓ} :
    (P : Result EbmlElement → Type ℓ) (buf : Bytes) (offset : ℕ)
    → P (err eof)
    → P (err bad_id)
    → P (err bad_size)
    → ((id_len k : ℕ)
        → 1 ≤ id_len
        → id_len ≤ 4
        → k < 8
        → id_len + suc k ≤ length buf
        → P (
            if ltb (2 ^ 63 - 1) (size_of buf id_len (suc k))
            then err element_too_large
            else ok (record {
              id = be_value 0 (take id_len buf);
              offset = offset;
              header_size = id_len + suc k;
              size = size_of buf id_len (suc k);
              unknown = size_of buf id_len (suc k) == 2 ^ (7 * suc k) - 1;
            })))
    → P (parse_element buf offset)
unfolding parse_element
parse_element_cases P buf offset at_eof no_id no_size parsed = elim (Bool-cases (length buf == 0)) [
  | inl e ↦ rw e at_eof
  | inr some_bytes ↦ elim (Result-cases (vint_length (get_or buf 0 0) 4)) [
    | inr (x, e) ↦ rw (some_bytes, e) no_id
    | inl (id_len, id_ok) ↦ elim (Bool-cases (ltb (length buf) (id_len + 1))) [
      | inl e ↦ rw (some_bytes, id_ok, e) no_id
      | inr has_first ↦ elim (Result-cases (vint_length (get_or buf id_len 0) 8)) [
        | inr (x, e) ↦ rw (some_bytes, id_ok, has_first, e) no_size
        | inl (zero, size_ok) ↦
            absurd (omega (arith, vint_length_bounds (get_or buf id_len 0) 8 0 size_ok))
        | inl (suc k, size_ok) ↦ elim (Bool-cases (ltb (length buf) (id_len + suc k))) [
          | inl e ↦ rw (some_bytes, id_ok, has_first, size_ok, e) no_size
          | inr whole ↦
              let id_bounds = vint_length_bounds (get_or buf 0 0) 4 id_len id_ok in
              rw (some_bytes, id_ok, has_first, size_ok, whole)
                (parsed id_len k id_bounds.0 id_bounds.1
                  (omega (arith, vint_length_bounds (get_or buf id_len 0) 8 (suc k) size_ok))
                  (ground arith))
        ]
      ]
    ]
  ]
]

-- An element that `parse_element` returns for a buffer of bytes has the given offset, a header of 2
-- to 12 bytes, all of them in the buffer, and a size below 2 ^ 56.
pub parse_element_bounds :
    (buf : Bytes) (offset : ℕ) (e : EbmlElement)
    → All IsByte buf
    → parse_element buf offset ≡ ok e
    → IsBounded buf offset e
parse_element_bounds buf offset e bytes =
    parse_element_cases (λ r. r ≡ ok e → IsBounded buf offset e) buf offset (λ h. cc) (λ h. cc)
      (λ h. cc)
      (λ id_len k lo hi short whole.
        let small = size_of-lt buf id_len k bytes short in λ h. ground arith)
