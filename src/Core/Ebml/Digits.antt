-- ===== src/Core/Ebml/Digits.antt =====
-- Big-endian numbers: reading back what was written, and how large a number can be.
use native.Mathlib.Nat.{pow-suc, one-le-pow}
use mediastub.Prelude.{
  ℕ, zero, suc, ◌+◌, ◌-◌, ◌*◌, ◌/◌, ◌%◌, ◌^◌, ◌≤◌, ◌<◌, ◌≡◌, refl, sym, ap, subst, ◌∙◌, [], ◌∷◌,
  ◌++◌, arith, length, length-append, All,
}
use mediastub.Core.Base.{Bytes}
use mediastub.Core.Ebml.{be_value, be_bytes}

abbrev pub IsByte : ℕ → Type 0
IsByte b = b < 256

-- The powers that the eight lengths lead to.
pub record IsLength (k : ℕ) : Type 0 where
  pub split : 2 ^ (7 * suc k) ≡ 2 ^ (8 - suc k) * 256 ^ k
  pub narrow : 2 ^ (7 * suc k) ≤ 2 ^ 56
  pub marker : 2 ^ (8 - suc k) ≤ 128

pub lt_eight-IsLength : (k : ℕ) → k < 8 → IsLength k
lt_eight-IsLength zero h = omega arith
lt_eight-IsLength (suc zero) h = omega arith
lt_eight-IsLength (suc (suc zero)) h = omega arith
lt_eight-IsLength (suc (suc (suc zero))) h = omega arith
lt_eight-IsLength (suc (suc (suc (suc zero)))) h = omega arith
lt_eight-IsLength (suc (suc (suc (suc (suc zero))))) h = omega arith
lt_eight-IsLength (suc (suc (suc (suc (suc (suc zero)))))) h = omega arith
lt_eight-IsLength (suc (suc (suc (suc (suc (suc (suc zero))))))) h = omega arith
lt_eight-IsLength (suc (suc (suc (suc (suc (suc (suc (suc k)))))))) h = absurd (omega arith)

be_value-append_one :
    (acc b : ℕ) (bs : Bytes) → be_value acc (bs ++ (b ∷ [])) ≡ (be_value acc bs * 256 + b) % 2 ^ 64
unfolding be_value
be_value-append_one acc b [] = refl
be_value-append_one acc b (x ∷ bs) = be_value-append_one ((acc * 256 + x) % 2 ^ 64) b bs

pow_suc-mul : (a k : ℕ) → a * 256 ^ suc k ≡ 256 * (a * 256 ^ k)
pow_suc-mul a k = omega (arith, ap (λ (t : ℕ). a * t) (pow-suc 256 k))

pub length-be_bytes : (k v : ℕ) → length (be_bytes k v) ≡ k
unfolding be_bytes
length-be_bytes zero v = refl
length-be_bytes (suc k) v =
    omega
      (arith, length-append (be_bytes k (v / 256)) ((v % 256) ∷ []), length-be_bytes k (v / 256))

-- Reading `k` digits of `v` behind `acc` gives both, while 64 bits are enough.
pub be_value-be_bytes :
    (k acc v : ℕ)
    → v < 256 ^ k
    → (acc + 1) * 256 ^ k ≤ 2 ^ 64
    → be_value acc (be_bytes k v) ≡ acc * 256 ^ k + v
unfolding be_bytes
be_value-be_bytes zero acc v h fits = unfold be_value in omega arith
be_value-be_bytes (suc k) acc v h fits =
    let more = pow_suc-mul acc k in
    let more' = pow_suc-mul (acc + 1) k in
    let one = pow-suc 256 k in
    let rest = be_value-be_bytes k acc (v / 256) (omega arith) (omega arith) in
    be_value-append_one acc (v % 256) (be_bytes k (v / 256)) ∙ omega arith

-- The first digit, and the digits behind it.
pub be_bytes-first :
    (k b w : ℕ) → w < 256 ^ k → be_bytes (suc k) (b * 256 ^ k + w) ≡ (b % 256) ∷ be_bytes k w
unfolding be_bytes
be_bytes-first zero b w h = ap (λ n. (n % 256) ∷ []) (omega arith)
be_bytes-first (suc k) b w h =
    let more = pow_suc-mul b k in
    let one = pow-suc 256 k in
    let high : (b * 256 ^ suc k + w) / 256 ≡ b * 256 ^ k + w / 256 = omega arith in
    let low : (b * 256 ^ suc k + w) % 256 ≡ w % 256 = omega arith in
    ap (λ n. be_bytes (suc k) n ++ (((b * 256 ^ suc k + w) % 256) ∷ [])) high
    ∙ ap (λ n. be_bytes (suc k) (b * 256 ^ k + w / 256) ++ (n ∷ [])) low
    ∙ ap (λ bs. bs ++ ((w % 256) ∷ [])) (be_bytes-first k b (w / 256) (omega arith))

pub mul_mono : (a b c : ℕ) → a ≤ b → a * c ≤ b * c
mul_mono a b c h = grind arith

pub mul_mono_right : (a b c : ℕ) → b ≤ c → a * b ≤ a * c
mul_mono_right a b c h = grind arith

-- Digits behind `acc` give less than `acc + 1` shifted by them.
pub be_value-lt :
    (acc : ℕ) (bs : Bytes)
    → All IsByte bs
    → (acc + 1) * 256 ^ length bs ≤ 2 ^ 64
    → be_value acc bs < (acc + 1) * 256 ^ length bs
unfolding be_value
be_value-lt acc [] bytes fits = omega arith
be_value-lt acc (b ∷ bs) bytes fits =
    let x = acc * 256 + b in
    let grown = pow_suc-mul (acc + 1) (length bs) in
    let positive = one-le-pow (length bs) 256 (omega arith) in
    let step : (x + 1) * 256 ^ length bs ≤ 256 * ((acc + 1) * 256 ^ length bs) =
      omega (arith, mul_mono (x + 1) (256 * (acc + 1)) (256 ^ length bs) (omega arith)) in
    let small : x + 1 ≤ (x + 1) * 256 ^ length bs =
      omega (arith, mul_mono 1 (256 ^ length bs) (x + 1) positive) in
    let below : x % 2 ^ 64 ≡ x = omega arith in
    let rest = be_value-lt x bs bytes.1 (omega arith) in
    subst (λ y. be_value y bs < (acc + 1) * 256 ^ suc (length bs)) (sym below) (omega arith)
