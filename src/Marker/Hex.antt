-- ===== src/Marker/Hex.antt =====
-- Hexadecimal and decimal values of a marker are read back as they were written.
use mediastub.Prelude.{
  ℕ, zero, suc, ◌+◌, ◌*◌, ◌/◌, ◌%◌, ◌^◌, ◌<◌, ◌≡◌, refl, ap, ◌∙◌, some, [], ◌∷◌, All, arith, ltb,
  Bool-cases, inl, inr,
}
use mediastub.Core.Base.{Bytes}
use mediastub.Prelude.Decimal.{digits, decimal}
use mediastub.Syncer.Base.{hex, hex_digit}
use mediastub.Marker.{hex_value, decode_hex, with_digit, digits_value, parse_uint}

hex_value-hex_digit : (n : ℕ) → n < 16 → hex_value (hex_digit n) ≡ some n
hex_value-hex_digit n h = ground (arith, h)

-- Bytes in hexadecimal are decoded to the same bytes.
pub decode_hex-hex : (bs : Bytes) → All (λ b. b < 256) bs → decode_hex (hex bs) ≡ some bs
unfolding decode_hex hex
decode_hex-hex [] h = refl
decode_hex-hex (b ∷ bs) h =
    rw
      (
        hex_value-hex_digit (b / 16) (omega (arith, h.0)),
        hex_value-hex_digit (b % 16) (omega arith),
        decode_hex-hex bs h.1,
      )
      (ap (λ c. some (c ∷ bs)) (omega arith))

with_digit-digit :
    (n d : ℕ) → d < 10 → n * 10 + d < 2 ^ 64 → with_digit n (48 + d) ≡ some (n * 10 + d)
with_digit-digit n d h w = ground (arith, h, w)

digit_value :
    (n d : ℕ) (text : Bytes)
    → d < 10
    → n * 10 + d < 2 ^ 64
    → digits_value n ((48 + d) ∷ text) ≡ digits_value (n * 10 + d) text
unfolding digits_value
digit_value n d text h w = rw (digits_value, with_digit-digit n d h w) refl

digits_value-digits :
    (rounds n : ℕ) (text : Bytes)
    → n < rounds
    → n < 2 ^ 64
    → digits_value 0 (digits rounds n text) ≡ digits_value n text
unfolding digits
digits_value-digits zero n text h w = absurd (omega arith)
digits_value-digits (suc rounds) n text h w = elim (Bool-cases (ltb n 10)) [
  | inl q ↦ rw q (
      digit_value 0 n text (ground (arith, q)) (omega arith)
      ∙ ap (λ m. digits_value m text) (omega arith))
  | inr q ↦ rw q (
      digits_value-digits rounds (n / 10) ((48 + n % 10) ∷ text) (ground (arith, q)) (omega arith)
      ∙ digit_value (n / 10) (n % 10) text (omega arith) (omega arith)
      ∙ ap (λ m. digits_value m text) (omega arith))
]

digits_cons :
    (rounds n b : ℕ) (text : Bytes) → (c : ℕ) × (cs : Bytes) × (digits rounds n (b ∷ text) ≡ c ∷ cs)
unfolding digits
digits_cons zero n b text = (b, text, refl)
digits_cons (suc rounds) n b text = elim (Bool-cases (ltb n 10)) [
  | inl q ↦ (48 + n, b ∷ text, rw q refl)
  | inr q ↦ let (c, cs, h) = digits_cons rounds (n / 10) (48 + n % 10) (b ∷ text) in (c, cs, rw q h)
]

decimal_cons : (n : ℕ) → (c : ℕ) × (cs : Bytes) × (decimal n ≡ c ∷ cs)
unfolding decimal digits
decimal_cons n = elim (Bool-cases (ltb n 10)) [
  | inl q ↦ (48 + n, [], rw q refl)
  | inr q ↦ let (c, cs, h) = digits_cons n (n / 10) (48 + n % 10) [] in (c, cs, rw q h)
]

parse_uint-cons :
    (bs : Bytes) (c : ℕ) (cs : Bytes) → bs ≡ c ∷ cs → parse_uint bs ≡ digits_value 0 bs
unfolding parse_uint
parse_uint-cons [] c cs h = cc
parse_uint-cons (b ∷ bs) c cs h = refl

-- A number below 2 ^ 64 in decimal is parsed to the same number.
pub parse_uint-decimal : (n : ℕ) → n < 2 ^ 64 → parse_uint (decimal n) ≡ some n
unfolding decimal digits_value
parse_uint-decimal n h =
    let (c, cs, q) = decimal_cons n in
    parse_uint-cons (decimal n) c cs q ∙ digits_value-digits (suc n) n [] (omega arith) h
