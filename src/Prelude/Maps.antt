-- ===== src/Prelude/Maps.antt =====
-- Maps from byte strings, as association lists.
use Prim.Native.Nat.{ℕ}
use mathlib.Core.Path.{◌≡◌, refl, sym, ap, subst, ◌∙◌}
use mathlib.Core.Logic.{inl, inr}
use mathlib.Core.Bool.{Bool, true, false, ◌&&◌}
use mathlib.Core.Option.{Option, none, some}
use mathlib.Core.List.{List, [], ◌∷◌}
use native.Mathlib.Omega.{arith}
use mediastub.Prelude.Tests.{◌==◌, Bool-cases, if◌then◌else◌}

-- `==` of strings, as bytes.
unfoldable pub same : List ℕ → List ℕ → Bool
same [] [] = true
same [] (y ∷ ys) = false
same (x ∷ xs) [] = false
same (x ∷ xs) (y ∷ ys) = x == y && same xs ys

pub same_refl : (xs : List ℕ) → same xs xs ≡ true
unfolding same
same_refl [] = refl
same_refl (x ∷ xs) = ground (arith, same_refl xs)

pub same_sound : (xs ys : List ℕ) → same xs ys ≡ true → xs ≡ ys
unfolding same
same_sound [] [] h = refl
same_sound [] (y ∷ ys) h = cc
same_sound (x ∷ xs) [] h = cc
same_sound (x ∷ xs) (y ∷ ys) h = ground (arith, same_sound xs ys)

abbrev pub Map : Type 0 → Type 0
Map A = List (List ℕ × A)

unfoldable pub lookup : {A : Type 0} → List ℕ → Map A → Option A
lookup k [] = none
lookup k ((k', v) ∷ rest) = if same k k' then some v else lookup k rest

-- `delete(m, k)`
unfoldable pub delete : {A : Type 0} → List ℕ → Map A → Map A
delete k [] = []
delete k ((k', v) ∷ rest) = let kept = delete k rest in if same k k' then kept else (k', v) ∷ kept

-- `m[k] = v`
unfoldable pub insert : {A : Type 0} → List ℕ → A → Map A → Map A
insert k v m = (k, v) ∷ delete k m

pub lookup-insert : {A : Type 0} (k : List ℕ) (v : A) (m : Map A) → lookup k (insert k v m) ≡ some v
unfolding lookup insert
lookup-insert k v m = rw (same_refl k) refl

same_apart : (xs ys zs : List ℕ) → same xs ys ≡ false → same ys zs ≡ true → same xs zs ≡ false
same_apart xs ys zs h g = subst (λ v. same xs v ≡ false) (same_sound ys zs g) h

pub lookup-delete_other :
    {A : Type 0} (k k' : List ℕ) (m : Map A)
    → same k k' ≡ false
    → lookup k (delete k' m) ≡ lookup k m
unfolding lookup delete
lookup-delete_other k k' [] h = refl
lookup-delete_other k k' ((k'', v) ∷ rest) h = elim (Bool-cases (same k' k'')) [
  | inl e ↦ rw (e, same_apart k k' k'' h e) (lookup-delete_other k k' rest h)
  | inr e ↦ rw (e, lookup-delete_other k k' rest h) refl
]

pub lookup-delete_self : {A : Type 0} (k : List ℕ) (m : Map A) → lookup k (delete k m) ≡ none
unfolding lookup delete
lookup-delete_self k [] = refl
lookup-delete_self k ((k', v) ∷ rest) = elim (Bool-cases (same k k')) [
  | inl e ↦ rw e (lookup-delete_self k rest)
  | inr e ↦ ground (arith, e, lookup-delete_self k rest)
]

-- What is found after a deletion was there before, under another key.
pub lookup-delete-some :
    {A : Type 0} (k k' : List ℕ) (m : Map A) (v : A)
    → lookup k (delete k' m) ≡ some v
    → (same k k' ≡ false) × (lookup k m ≡ some v)
lookup-delete-some k k' m v h = elim (Bool-cases (same k k')) [
  | inl e ↦ absurd (
      none_apart v
        (sym (lookup-delete_self k m) ∙ ap (λ q. lookup k (delete q m)) (same_sound k k' e) ∙ h))
  | inr e ↦ (e, sym (lookup-delete_other k k' m e) ∙ h)
]
  where
    none_apart : {A : Type 0} (v : A) → ◌≡◌ {A = Option A} none (some v) → ⊥
    none_apart v e = cc

pub lookup-insert_other :
    {A : Type 0} (k k' : List ℕ) (v : A) (m : Map A)
    → same k k' ≡ false
    → lookup k (insert k' v m) ≡ lookup k m
unfolding lookup insert
lookup-insert_other k k' v m h = rw h (lookup-delete_other k k' m h)
