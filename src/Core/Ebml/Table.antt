-- ===== src/Core/Ebml/Table.antt =====
-- Facts about the bits of one byte, checked for every byte and every length.
use Prim.Native.Nat.{bit_and, bit_or}
use mediastub.Prelude.{
  ℕ, zero, suc, ◌+◌, ◌-◌, ◌/◌, ◌^◌, ◌<◌, ◌≡◌, refl, Bool, true, false, ◌&&◌, arith, ltb, leb, ◌==◌,
  ltb→lt,
}
use mediastub.Core.Base.{Result, ok, err}
use mediastub.Core.Ebml.{vint_length}

below_all : (ℕ → Bool) → ℕ → Bool
below_all test zero = true
below_all test (suc top) = below_all test top && test top

below_all_lem : (test : ℕ → Bool) (top k : ℕ) → k < top → below_all test top ≡ true → test k ≡ true
unfolding below_all
below_all_lem test (suc top) k inside passed = ground (arith, below_all_lem test top k)
below_all_lem test zero k inside passed = absurd (omega arith)

abbrev is_ok : Result ℕ → ℕ → Bool
is_ok (ok n) k = n == k
is_ok (err e) k = false

-- The first byte of a length-`l` integer: its marker bit is set over a value below the marker.
abbrev marked_ok : ℕ → ℕ → ℕ → Bool
marked_ok max_length l b =
    (bit_or b (2 ^ (8 - l)) == b + 2 ^ (8 - l))
    && is_ok (vint_length (b + 2 ^ (8 - l)) max_length) l
    && (bit_and (b + 2 ^ (8 - l)) (0xff / 2 ^ l) == b)

abbrev marked_table : ℕ → ℕ → Bool
marked_table max_length l = below_all (marked_ok max_length l) (2 ^ (8 - l))

table_eight : below_all (λ k. marked_table 8 (suc k)) 8 ≡ true
unfolding below_all vint_length
table_eight = refl

abbrev length_ok : ℕ → Result ℕ → Bool
length_ok max_length (ok l) = leb 1 l && leb l max_length
length_ok max_length (err e) = true

pub marked_byte :
    (k b : ℕ)
    → k < 8
    → b < 2 ^ (8 - suc k)
    → (bit_or b (2 ^ (8 - suc k)) ≡ b + 2 ^ (8 - suc k))
      × (vint_length (b + 2 ^ (8 - suc k)) 8 ≡ ok (suc k))
      × (bit_and (b + 2 ^ (8 - suc k)) (0xff / 2 ^ suc k) ≡ b)
marked_byte k b hk hb =
    let row = below_all_lem (λ k. marked_table 8 (suc k)) 8 k hk table_eight in
    let entry = below_all_lem (marked_ok 8 (suc k)) (2 ^ (8 - suc k)) b hb row in
    marks (vint_length (b + 2 ^ (8 - suc k)) 8) entry
  where
    marks :
        (r : Result ℕ)
        → ((bit_or b (2 ^ (8 - suc k)) == b + 2 ^ (8 - suc k))
            && is_ok r (suc k)
            && (bit_and (b + 2 ^ (8 - suc k)) (0xff / 2 ^ suc k) == b))
          ≡ true
        → (bit_or b (2 ^ (8 - suc k)) ≡ b + 2 ^ (8 - suc k))
          × (r ≡ ok (suc k))
          × (bit_and (b + 2 ^ (8 - suc k)) (0xff / 2 ^ suc k) ≡ b)
    marks (ok n) h = ground arith
    marks (err e) h = ground arith

mask_table :
    below_all (λ l. below_all (λ b. ltb (bit_and b (0xff / 2 ^ l)) (2 ^ (8 - l))) 256) 9 ≡ true
unfolding below_all
mask_table = refl

pub masked_byte : (l b : ℕ) → l < 9 → b < 256 → bit_and b (0xff / 2 ^ l) < 2 ^ (8 - l)
masked_byte l b hl hb = ltb→lt _ _ (
    below_all_lem (λ b. ltb (bit_and b (0xff / 2 ^ l)) (2 ^ (8 - l))) 256 b hb
      (below_all_lem (λ l. below_all (λ b. ltb (bit_and b (0xff / 2 ^ l)) (2 ^ (8 - l))) 256) 9 l hl
        mask_table))
