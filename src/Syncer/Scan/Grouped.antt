-- ===== src/Syncer/Scan/Grouped.antt =====
-- The groups that the scan makes of a listing, in any order of a map, hold what was listed.
use mediastub.Prelude.{
  ◌≡◌, refl, sym, ap, subst, ◌∙◌, Bool, true, false, List, [], ◌∷◌, ◌++◌, if◌then◌else◌, Bool-cases,
  inl, inr,
}
use mathlib.Core.List.{append-nil, append_assoc}
use mediastub.Prelude.Maps.{
  Map, lookup, insert, delete, same, same_sound, same_refl, lookup-insert, lookup-insert_other,
}
use mediastub.Syncer.Base.{RelPath, Entry}
use mediastub.Syncer.Scan.{slice_of, with_entry, group_entries}
use mediastub.Syncer.Scan.Counted.{objects_of, AllListed}

-- The objects of a listing that have a path
unfoldable pub objects_in : RelPath → List Entry → List Entry
objects_in rel [] = []
objects_in rel (e ∷ es) = let rest = objects_in rel es in if same rel e.path then e ∷ rest else rest

-- The same groups in another order, as Go ranges over a map: groups of different paths change places.
pub data Reordered : Map (List Entry) → Map (List Entry) → Type 0 where
  unmoved : {gs : Map (List Entry)} → Reordered gs gs
  swapped :
      {gs : Map (List Entry)} (p q : RelPath) (es fs : List Entry)
      → same p q ≡ false
      → Reordered ((p, es) ∷ (q, fs) ∷ gs) ((q, fs) ∷ (p, es) ∷ gs)
  behind :
      {gs hs : Map (List Entry)} (p : RelPath) (es : List Entry)
      → Reordered gs hs
      → Reordered ((p, es) ∷ gs) ((p, es) ∷ hs)
  by_way : {gs hs ks : Map (List Entry)} → Reordered gs hs → Reordered hs ks → Reordered gs ks

swap_ifs :
    (a b : Bool) (xs ys zs : List Entry)
    → (a ≡ true → b ≡ true → ⊥)
    → (if a then xs ++ (if b then ys ++ zs else zs) else if b then ys ++ zs else zs)
      ≡ (if b then ys ++ (if a then xs ++ zs else zs) else if a then xs ++ zs else zs)
swap_ifs true true xs ys zs h = absurd (h refl refl)
swap_ifs true false xs ys zs h = refl
swap_ifs false true xs ys zs h = refl
swap_ifs false false xs ys zs h = refl

pub Reordered-objects_of :
    (rel : RelPath) {gs hs : Map (List Entry)}
    → Reordered gs hs
    → objects_of rel hs ≡ objects_of rel gs
unfolding objects_of
Reordered-objects_of rel unmoved = refl
Reordered-objects_of rel (swapped {gs} p q es fs h) =
    swap_ifs (same rel q) (same rel p) fs es (objects_of rel gs)
      (λ is_q is_p. apart (sym (subst (λ x. same x q ≡ true) (same_sound rel p is_p) is_q) ∙ h))
  where
    apart : true ≡ false → ⊥
    apart x = cc
Reordered-objects_of rel (behind p es r) =
    ap (λ xs. if same rel p then es ++ xs else xs) (Reordered-objects_of rel r)
Reordered-objects_of rel (by_way r r') = Reordered-objects_of rel r' ∙ Reordered-objects_of rel r

pub Reordered-AllListed : {gs hs : Map (List Entry)} → Reordered gs hs → AllListed gs → AllListed hs
Reordered-AllListed unmoved l = l
Reordered-AllListed (swapped p q es fs h) (a, (b, l)) = (b, (a, l))
Reordered-AllListed (behind p es r) (a, l) = (a, Reordered-AllListed r l)
Reordered-AllListed (by_way r r') l = Reordered-AllListed r' (Reordered-AllListed r l)

delete-objects_of : (p : RelPath) (gs : Map (List Entry)) → objects_of p (delete p gs) ≡ []
unfolding objects_of delete
delete-objects_of p [] = refl
delete-objects_of p ((q, es) ∷ gs) = elim (Bool-cases (same p q)) [
  | inl h ↦ rw h (delete-objects_of p gs)
  | inr h ↦ rw (h, h) (delete-objects_of p gs)
]

delete-objects_of_other :
    (rel p : RelPath) (gs : Map (List Entry))
    → same rel p ≡ false
    → objects_of rel (delete p gs) ≡ objects_of rel gs
unfolding objects_of delete
delete-objects_of_other rel p [] other = refl
delete-objects_of_other rel p ((q, es) ∷ gs) other = elim (Bool-cases (same p q)) [
  | inr h ↦
      rw h (ap (λ xs. if same rel q then es ++ xs else xs) (delete-objects_of_other rel p gs other))
  | inl h ↦
      let not_q : same rel q ≡ false = subst (λ x. same rel x ≡ false) (same_sound p q h) other in
      rw (h, not_q) (delete-objects_of_other rel p gs other)
]

-- No path has two groups.
abbrev IsGrouped : Map (List Entry) → Type 0
IsGrouped gs = (rel : RelPath) → objects_of rel gs ≡ slice_of (lookup rel gs)

insert-objects_of :
    (p : RelPath) (v : List Entry) (gs : Map (List Entry)) → objects_of p (insert p v gs) ≡ v
unfolding objects_of insert
insert-objects_of p v gs = rw (same_refl p, delete-objects_of p gs) (append-nil v)

insert-objects_of_other :
    (rel p : RelPath) (v : List Entry) (gs : Map (List Entry))
    → same rel p ≡ false
    → objects_of rel (insert p v gs) ≡ objects_of rel gs
unfolding objects_of insert
insert-objects_of_other rel p v gs other = rw other (delete-objects_of_other rel p gs other)

insert-IsGrouped :
    (p : RelPath) (v : List Entry) (gs : Map (List Entry))
    → IsGrouped gs
    → IsGrouped (insert p v gs)
insert-IsGrouped p v gs g rel = elim (Bool-cases (same rel p)) [
  | inl h ↦
      subst (λ q. objects_of q (insert p v gs) ≡ slice_of (lookup q (insert p v gs)))
        (sym (same_sound rel p h))
        (insert-objects_of p v gs ∙ ap slice_of (sym (lookup-insert p v gs)))
  | inr h ↦
      insert-objects_of_other rel p v gs h
      ∙ g rel
      ∙ ap slice_of (sym (lookup-insert_other rel p v gs h))
]

with_entry-objects_of :
    (rel : RelPath) (e : Entry) (gs : Map (List Entry))
    → IsGrouped gs
    → objects_of rel (with_entry e gs)
      ≡ objects_of rel gs ++ (if same rel e.path then e ∷ [] else [])
with_entry-objects_of rel e gs g = elim (Bool-cases (same rel e.path)) [
  | inl h ↦ rw h (
      subst (λ q. objects_of q (with_entry e gs) ≡ objects_of q gs ++ e ∷ [])
        (sym (same_sound rel e.path h))
        (insert-objects_of e.path _ gs ∙ ap (λ xs. xs ++ e ∷ []) (sym (g e.path))))
  | inr h ↦ rw h (insert-objects_of_other rel e.path _ gs h ∙ sym (append-nil _))
]

group_entries-objects_of :
    (rel : RelPath) (es : List Entry) (gs : Map (List Entry))
    → IsGrouped gs
    → objects_of rel (group_entries es gs) ≡ objects_of rel gs ++ objects_in rel es
unfolding group_entries objects_in
group_entries-objects_of rel [] gs g = sym (append-nil _)
group_entries-objects_of rel (e ∷ es) gs g =
    group_entries-objects_of rel es (with_entry e gs) (insert-IsGrouped e.path _ gs g)
    ∙ ap (λ xs. xs ++ objects_in rel es) (with_entry-objects_of rel e gs g)
    ∙ append_assoc (objects_of rel gs) _ (objects_in rel es)
    ∙ ap (λ xs. objects_of rel gs ++ xs) (one (same rel e.path))
  where
    one :
        (b : Bool)
        → (if b then e ∷ [] else []) ++ objects_in rel es
          ≡ (if b then e ∷ objects_in rel es else objects_in rel es)
    one true = refl
    one false = refl

-- The groups of a listing, in any order
pub groups-objects_in :
    (rel : RelPath) (es : List Entry) (gs : Map (List Entry))
    → Reordered (group_entries es []) gs
    → objects_of rel gs ≡ objects_in rel es
groups-objects_in rel es gs r =
    Reordered-objects_of rel r
    ∙ group_entries-objects_of rel es [] (λ q. unfold objects_of lookup in refl)
    ∙ ap (λ xs. xs ++ objects_in rel es) nothing
  where
    nothing : objects_of rel [] ≡ []
    nothing = unfold objects_of in refl
