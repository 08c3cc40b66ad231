-- ===== src/Core/Plan/Normal.antt =====
-- What `new_plan` accepts, and the form of the plans that it returns.
use mathlib.Core.List.{Perm}
use mathlib.Core.List.Perm
use mathlib.Core.Path.{subst}
use mediastub.Prelude.{
  ℕ, ◌≤◌, ◌≡◌, refl, ap, ◌∙◌, true, List, [], ◌∷◌, map, arith, leb, All, Bool-cases, inl, inr,
}
use mediastub.Prelude.Int.{ℤ, pos, negsuc}
use mediastub.Core.Base.{ok, first_ok}
use mediastub.Core.Plan.{
  RawExtent, Extent, extent_end, Plan, check_extent, check_extents, insert_extent, sort_extents,
  no_overlap, new_plan,
}

-- The extents stand in order, and each ends before the next one begins.
abbrev pub Chain : ℕ → List Extent → Type 0
Chain lo [] = Unit
Chain lo (e ∷ es) = (lo ≤ e.offset) × Chain (extent_end e) es

abbrev pub Within : ℕ → List Extent → Type 0
Within size es = All (λ e. extent_end e ≤ size) es

pub record IsNormal (p : Plan) : Type 0 where
  pub chain : Chain 0 p.extents
  pub within : Within p.logical_size p.extents

abbrev pub raw : Extent → RawExtent
raw e = record { offset = pos e.offset; bytes = e.bytes }

no_overlap-Chain : (lo : ℕ) (es : List Extent) → no_overlap lo es ≡ true → Chain lo es
unfolding no_overlap
no_overlap-Chain lo [] h = tt
no_overlap-Chain lo (e ∷ es) h = ground (arith, no_overlap-Chain (extent_end e) es)

Chain-no_overlap : (lo : ℕ) (es : List Extent) → Chain lo es → no_overlap lo es ≡ true
unfolding no_overlap
Chain-no_overlap lo [] h = refl
Chain-no_overlap lo (e ∷ es) h = ground (arith, Chain-no_overlap (extent_end e) es h.1)

insert_extent-Within :
    (size : ℕ) (e : Extent) (es : List Extent)
    → extent_end e ≤ size
    → Within size es
    → Within size (insert_extent e es)
unfolding insert_extent
insert_extent-Within size e [] h hs = (h, tt)
insert_extent-Within size e (x ∷ xs) h hs = ground (arith, insert_extent-Within size e xs h hs.1)

sort_extents-Within : (size : ℕ) (es : List Extent) → Within size es → Within size (sort_extents es)
unfolding sort_extents
sort_extents-Within size [] h = tt
sort_extents-Within size (e ∷ es) h =
    insert_extent-Within size e _ h.0 (sort_extents-Within size es h.1)

insert_extent_perm : (e : Extent) (es : List Extent) → Perm (insert_extent e es) (e ∷ es)
unfolding insert_extent
insert_extent_perm e [] = Perm.refl _
insert_extent_perm e (x ∷ xs) = elim (Bool-cases (leb e.offset x.offset)) [
  | inl before ↦ rw before (Perm.refl _)
  | inr behind ↦ rw behind (Perm.trans (Perm.cons x (insert_extent_perm e xs)) (Perm.swap e x xs))
]

sort_extents_perm : (es : List Extent) → Perm (sort_extents es) es
unfolding sort_extents
sort_extents_perm [] = Perm.refl []
sort_extents_perm (e ∷ es) =
    Perm.trans (insert_extent_perm e (sort_extents es)) (Perm.cons e (sort_extents_perm es))

-- A chain is sorted already.
insert_extent-Chain :
    (lo : ℕ) (e : Extent) (es : List Extent) → Chain lo (e ∷ es) → insert_extent e es ≡ e ∷ es
unfolding insert_extent
insert_extent-Chain lo e [] h = refl
insert_extent-Chain lo e (x ∷ xs) h = ground arith

sort_extents-Chain : (lo : ℕ) (es : List Extent) → Chain lo es → sort_extents es ≡ es
unfolding sort_extents
sort_extents-Chain lo [] h = refl
sort_extents-Chain lo (e ∷ es) h =
    ap (insert_extent e) (sort_extents-Chain (extent_end e) es h.1) ∙ insert_extent-Chain lo e es h

check_extent_ok :
    (size : ℕ) (e : RawExtent) (x : Extent)
    → check_extent size e ≡ ok x
    → (extent_end x ≤ size) × (e ≡ raw x)
unfolding check_extent
check_extent_ok size e x h = ground arith

check_extents_ok :
    (size : ℕ) (es : List RawExtent) (xs : List Extent)
    → check_extents size es ≡ ok xs
    → Within size xs × (es ≡ map raw xs)
unfolding check_extents
check_extents_ok size [] [] h = (tt, refl)
check_extents_ok size [] (x ∷ xs) h = cc
check_extents_ok size (e ∷ es) xs h =
    let (x, hx, rest) = first_ok (check_extent size e) _ h in
    let (ys, hys, last) = first_ok (check_extents size es) _ rest in
    let (fits, is_x) = check_extent_ok size e x hx in
    let (all_fit, is_ys) = check_extents_ok size es ys hys in
    ground (arith, fits, is_x, all_fit, is_ys, last)

check_extents-raw :
    (size : ℕ) (xs : List Extent) → Within size xs → check_extents size (map raw xs) ≡ ok xs
unfolding check_extents check_extent
check_extents-raw size [] h = refl
check_extents-raw size (x ∷ xs) h = rw (check_extents-raw size xs h.1) (ground arith)

abbrev sorted_plan : ℕ → List Extent → Plan
sorted_plan size xs = record { logical_size = size; extents = sort_extents xs }

-- A plan that `new_plan` returns has the given size, holds the given extents, each of them once, within
-- the file and in an order in which each ends before the next begins.
pub new_plan_sound :
    (size : ℤ) (es : List RawExtent) (p : Plan)
    → new_plan size es ≡ ok p
    → IsNormal p × (size ≡ pos p.logical_size) × Perm (map raw p.extents) es
unfolding new_plan
new_plan_sound (negsuc n) es p h = cc
new_plan_sound (pos size) es p h =
    let (xs, hxs, rest) = first_ok (check_extents size es) _ h in
    let (fits, is_raw) = check_extents_ok size es xs hxs in
    elim (Bool-cases (no_overlap 0 (sort_extents xs))) [
      | inl fine ↦
          let is_p : sorted_plan size xs ≡ p = cc (rw fine at rest) in
          subst (λ q. IsNormal q × (pos size ≡ pos q.logical_size) × Perm (map raw q.extents) es)
            is_p
            (
              record {
                chain = no_overlap-Chain 0 _ fine;
                within = sort_extents-Within size xs fits;
              },
              refl,
              rw is_raw (Perm.map raw (sort_extents_perm xs)),
            )
      | inr clash ↦ cc (rw clash at rest)
    ]

-- A plan whose extents lie within its size and in an order in which each ends before the next begins
-- is returned by `new_plan` when its own size and extents are given to it.
pub new_plan_normal :
    (p : Plan) → IsNormal p → new_plan (pos p.logical_size) (map raw p.extents) ≡ ok p
unfolding new_plan
new_plan_normal p v = rw (
  check_extents-raw p.logical_size p.extents v.within,
  sort_extents-Chain 0 p.extents v.chain,
  Chain-no_overlap 0 p.extents v.chain,
)
