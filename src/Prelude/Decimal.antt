-- ===== src/Prelude/Decimal.antt =====
-- Numbers in decimal, as byte strings.
use Prim.Native.Nat.{ℕ, zero, suc, ◌+◌, ◌-◌, ◌*◌, ◌/◌, ◌%◌, ◌≤◌, ◌<◌}
use mathlib.Core.Path.{◌≡◌, sym, subst, ap, ◌∙◌}
use mathlib.Core.Logic.{inl, inr}
use mathlib.Core.List.{List, [], ◌∷◌}
use native.Mathlib.Omega.{arith}
use mediastub.Prelude.Tests.{ltb, Bool-cases, if◌then◌else◌}
use mediastub.Prelude.Lists.{All}
use mediastub.Prelude.Int.{ℤ, pos, negsuc}

-- The digits of a number in front of a text; a round takes the last digit off.
unfoldable pub digits : ℕ → ℕ → List ℕ → List ℕ
digits zero n text = text
digits (suc rounds) n text =
    let rest = digits rounds (n / 10) ((48 + n % 10) ∷ text) in
    if ltb n 10 then (48 + n) ∷ text else rest

-- `strconv.FormatUint` in base 10, and `%d`: a number has no more digits than its successor says.
unfoldable pub decimal : ℕ → List ℕ
decimal n = digits (suc n) n []

-- `%d` of a signed integer
unfoldable pub decimal_ℤ : ℤ → List ℕ
decimal_ℤ (pos n) = decimal n
decimal_ℤ (negsuc n) = 45 ∷ decimal (suc n)

-- The number that decimal digits say, behind a number that is already read.
unfoldable pub value : ℕ → List ℕ → ℕ
value read [] = read
value read (b ∷ bs) = value (read * 10 + (b - 48)) bs

value-digits :
    (rounds n : ℕ) (text : List ℕ) → n < rounds → value 0 (digits rounds n text) ≡ value n text
unfolding digits value
value-digits zero n text h = absurd (omega arith)
value-digits (suc rounds) n text h = elim (Bool-cases (ltb n 10)) [
  | inl q ↦ rw q (ap (λ m. value m text) (omega arith))
  | inr q ↦ rw q (
      value-digits rounds (n / 10) ((48 + n % 10) ∷ text) (ground (arith, q))
      ∙ ap (λ m. value m text) (omega arith))
]

-- A decimal text says the number that it was made of.
pub value-decimal : (n : ℕ) → value 0 (decimal n) ≡ n
unfolding decimal value
value-decimal n = value-digits (suc n) n [] (omega arith)

pub decimal_injective : (m n : ℕ) → decimal m ≡ decimal n → m ≡ n
decimal_injective m n h = sym (value-decimal m) ∙ ap (value 0) h ∙ value-decimal n

digits_are :
    (P : ℕ → Type 0) (rounds n : ℕ) (text : List ℕ)
    → ((d : ℕ) → d < 10 → P (48 + d))
    → All P text
    → All P (digits rounds n text)
unfolding digits
digits_are P zero n text p h = h
digits_are P (suc rounds) n text p h = elim (Bool-cases (ltb n 10)) [
  | inl q ↦ rw q (p n (ground (arith, q)), h)
  | inr q ↦
      rw q (digits_are P rounds (n / 10) ((48 + n % 10) ∷ text) p (p (n % 10) (omega arith), h))
]

-- What holds of the ten digits holds of the bytes of a decimal text.
pub decimal_are : (P : ℕ → Type 0) (n : ℕ) → ((d : ℕ) → d < 10 → P (48 + d)) → All P (decimal n)
unfolding decimal
decimal_are P n p = digits_are P (suc n) n [] p tt

no_sign : (n : ℕ) (text : List ℕ) → decimal n ≡ 45 ∷ text → ⊥
no_sign n text h =
    too_small
      (subst (λ bs. All (λ b. 48 ≤ b) bs) h (decimal_are (λ b. 48 ≤ b) n (λ d q. omega arith)))
  where
    too_small : All (λ b. 48 ≤ b) (45 ∷ text) → ⊥
    too_small q = omega (arith, q.0)

pub decimal_ℤ-injective : (m n : ℤ) → decimal_ℤ m ≡ decimal_ℤ n → m ≡ n
unfolding decimal_ℤ
decimal_ℤ-injective (pos m) (pos n) h = ap pos (decimal_injective m n h)
decimal_ℤ-injective (negsuc m) (negsuc n) h =
    ap negsuc (pred (decimal_injective (suc m) (suc n) (tail_same h)))
  where
    tail_same : {xs ys : List ℕ} → 45 ∷ xs ≡ 45 ∷ ys → xs ≡ ys
    tail_same q = cc

    pred : {a b : ℕ} → suc a ≡ suc b → a ≡ b
    pred q = omega arith
decimal_ℤ-injective (pos m) (negsuc n) h = absurd (no_sign m _ h)
decimal_ℤ-injective (negsuc m) (pos n) h = absurd (no_sign n _ (sym h))
