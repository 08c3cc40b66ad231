-- ===== src/Core/PlanHash/Injective.antt =====
-- The input of the digest determines the plan.
use mediastub.Prelude.{
  ℕ, ◌^◌, ◌<◌, ◌≡◌, refl, sym, ap, ap₂, subst, ◌∙◌, List, [], ◌∷◌, ◌++◌, arith, length, take, drop,
  length-append, take-append_of_length, drop-append_of_length,
}
use mediastub.Core.Base.{Bytes}
use mediastub.Core.Plan.{Extent, Plan}
use mediastub.Core.Plan.Normal.{IsNormal, Within}
use mediastub.Core.Ebml.{be_bytes, be_value}
use mediastub.Core.Ebml.Digits.{length-be_bytes, be_value-be_bytes}
use mediastub.Core.PlanHash.{hash_extents, hash_input}

be_value_eight : (v : ℕ) → v < 2 ^ 64 → be_value 0 (be_bytes 8 v) ≡ v
be_value_eight v h = be_value-be_bytes 8 0 v (omega arith) (omega arith) ∙ omega arith

-- Parts of the same length at the front are the same, and so is what is behind them.
front_same :
    (n : ℕ) (xs ys xs' ys' : Bytes)
    → length xs ≡ n
    → length ys ≡ n
    → xs ++ xs' ≡ ys ++ ys'
    → (xs ≡ ys) × (xs' ≡ ys')
front_same n xs ys xs' ys' hx hy h = (
  sym (take-append_of_length n xs xs' hx) ∙ ap (take n) h ∙ take-append_of_length n ys ys' hy,
  sym (drop-append_of_length n xs xs' hx) ∙ ap (drop n) h ∙ drop-append_of_length n ys ys' hy,
)

number_same :
    (a b : ℕ) (xs ys : Bytes)
    → a < 2 ^ 64
    → b < 2 ^ 64
    → be_bytes 8 a ++ xs ≡ be_bytes 8 b ++ ys
    → (a ≡ b) × (xs ≡ ys)
number_same a b xs ys ha hb h =
    let (digits, rest) =
      front_same 8 (be_bytes 8 a) (be_bytes 8 b) xs ys (length-be_bytes 8 a) (length-be_bytes 8 b)
        h in
    (sym (be_value_eight a ha) ∙ ap (be_value 0) digits ∙ be_value_eight b hb, rest)

-- A list of extents does not run out where an extent is left.
extent_left : (e : Extent) (es : List Extent) → [] ≡ hash_extents (e ∷ es) → ⊥
unfolding hash_extents
extent_left e es h =
    let more = e.bytes ++ hash_extents es in
    let long = length-append (be_bytes 8 e.offset) (be_bytes 8 (length e.bytes) ++ more) in
    let empty : 0 ≡ length (be_bytes 8 e.offset ++ (be_bytes 8 (length e.bytes) ++ more)) =
      ap length h in
    omega (arith, length-be_bytes 8 e.offset)

extent_same : (e f : Extent) → e.offset ≡ f.offset → e.bytes ≡ f.bytes → e ≡ f
extent_same e f ho hb = ap₂ (λ o bs. record { offset = o; bytes = bs }) ho hb

hash_extents_same :
    (size : ℕ) (es fs : List Extent)
    → size < 2 ^ 64
    → Within size es
    → Within size fs
    → hash_extents es ≡ hash_extents fs
    → es ≡ fs
unfolding hash_extents
hash_extents_same size [] [] h ve vf same = refl
hash_extents_same size [] (f ∷ fs) h ve vf same = absurd (extent_left f fs same)
hash_extents_same size (e ∷ es) [] h ve vf same = absurd (extent_left e es (sym same))
hash_extents_same size (e ∷ es) (f ∷ fs) h ve vf same =
    let (offsets, rest) =
      number_same e.offset f.offset _ _ (omega (arith, ve.0)) (omega (arith, vf.0)) same in
    let (lengths, rest') =
      number_same (length e.bytes) (length f.bytes) _ _ (omega (arith, ve.0)) (omega (arith, vf.0))
        rest in
    let (bytes, last) = front_same (length f.bytes) e.bytes f.bytes _ _ lengths refl rest' in
    ap₂ (λ x xs. x ∷ xs) (extent_same e f offsets bytes)
      (hash_extents_same size es fs h ve.1 vf.1 last)

-- Two plans of the form that `new_plan` returns, of sizes below 2 ^ 63, which feed the same bytes to
-- the digest of `Hash` are the same plan.
pub hash_input_injective :
    (p q : Plan)
    → IsNormal p
    → IsNormal q
    → p.logical_size < 2 ^ 63
    → q.logical_size < 2 ^ 63
    → hash_input p ≡ hash_input q
    → p ≡ q
unfolding hash_input
hash_input_injective p q vp vq hp hq same =
    let (sizes, rest) =
      number_same p.logical_size q.logical_size _ _ (omega arith) (omega arith) same in
    let within : Within p.logical_size q.extents =
      subst (λ n. Within n q.extents) (sym sizes) vq.within in
    ap₂ (λ n es. record { logical_size = n; extents = es }) sizes
      (hash_extents_same p.logical_size p.extents q.extents (omega arith) vp.within within rest)
