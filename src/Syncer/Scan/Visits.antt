-- ===== src/Syncer/Scan/Visits.antt =====
-- The directories that a scan lists, and what they have for a path.
use mediastub.Prelude.{
  ◌≡◌, refl, sym, ap, subst, ◌∙◌, ◌⊎◌, inl, inr, true, List, [], ◌∷◌, ◌++◌, if◌then◌else◌, All,
  Bool-cases,
}
use mathlib.Core.List.{append_assoc}
use mediastub.Prelude.Maps.{Map, same, same_refl}
use mediastub.Syncer.Base.{RelPath, Entry}
use mediastub.Syncer.Scan.Counted.{objects_of}
use mediastub.Syncer.Scan.Grouped.{objects_in}

-- A directory with its listing
abbrev pub Visit : Type 0
Visit = RelPath × List Entry

abbrev pub Has : {A : Type 0} → A → List A → Type 0
Has x [] = ⊥
Has x (y ∷ ys) = (x ≡ y) ⊎ Has x ys

pub Has-left : {A : Type 0} (x : A) (xs ys : List A) → Has x xs → Has x (xs ++ ys)
Has-left x [] ys h = absurd h
Has-left x (y ∷ xs) ys (inl e) = inl e
Has-left x (y ∷ xs) ys (inr h) = inr (Has-left x xs ys h)

pub Has-right : {A : Type 0} (x : A) (xs ys : List A) → Has x ys → Has x (xs ++ ys)
Has-right x [] ys h = h
Has-right x (y ∷ xs) ys h = inr (Has-right x xs ys h)

pub Has-either : {A : Type 0} (x : A) (xs ys : List A) → Has x (xs ++ ys) → Has x xs ⊎ Has x ys
Has-either x [] ys h = inr h
Has-either x (y ∷ xs) ys (inl e) = inl (inl e)
Has-either x (y ∷ xs) ys (inr h) = elim (Has-either x xs ys h) [
  | inl before ↦ inl (inr before)
  | inr behind ↦ inr behind
]

pub All-map :
    {A : Type 0} (P Q : A → Type 0) (xs : List A) → ((x : A) → P x → Q x) → All P xs → All Q xs
All-map P Q [] f h = tt
All-map P Q (x ∷ xs) f h = (f x h.0, All-map P Q xs f h.1)

pub All-both :
    {A : Type 0} (P : A → Type 0) (xs ys : List A) → All P xs → All P ys → All P (xs ++ ys)
All-both P [] ys h k = k
All-both P (x ∷ xs) ys h k = (h.0, All-both P xs ys h.1 k)

-- The objects that directories list for a path
unfoldable pub objects_at : RelPath → List Visit → List Entry
objects_at rel [] = []
objects_at rel ((dir, es) ∷ visits) = objects_in rel es ++ objects_at rel visits

-- A directory is listed.
abbrev pub Visited : RelPath → List Visit → Type 0
Visited dir visits = (es : List Entry) × Has (dir, es) visits

pub Visited-left : (dir : RelPath) (vs ws : List Visit) → Visited dir vs → Visited dir (vs ++ ws)
Visited-left dir vs ws (es, h) = (es, Has-left (dir, es) vs ws h)

pub Visited-right : (dir : RelPath) (vs ws : List Visit) → Visited dir ws → Visited dir (vs ++ ws)
Visited-right dir vs ws (es, h) = (es, Has-right (dir, es) vs ws h)

-- A directory that lists a path as a directory is among them.
pub record Entered (visits : List Visit) (path : RelPath) : Type 0 where
  pub visit : Visit
  pub listed : Has visit visits
  pub entry : Entry
  pub listed_there : Has entry (objects_in path visit.1)
  pub is_dir : entry.is_dir ≡ true

pub Entered-left : (vs ws : List Visit) (p : RelPath) → Entered vs p → Entered (vs ++ ws) p
Entered-left vs ws p e = record {
  visit = e.visit;
  listed = Has-left e.visit vs ws e.listed;
  entry = e.entry;
  listed_there = e.listed_there;
  is_dir = e.is_dir;
}

pub Entered-right : (vs ws : List Visit) (p : RelPath) → Entered ws p → Entered (vs ++ ws) p
Entered-right vs ws p e = record {
  visit = e.visit;
  listed = Has-right e.visit vs ws e.listed;
  entry = e.entry;
  listed_there = e.listed_there;
  is_dir = e.is_dir;
}

pub objects_of-append :
    (rel : RelPath) (gs hs : Map (List Entry))
    → objects_of rel (gs ++ hs) ≡ objects_of rel gs ++ objects_of rel hs
unfolding objects_of
objects_of-append rel [] hs = refl
objects_of-append rel ((p, es) ∷ gs) hs = elim (Bool-cases (same rel p)) [
  | inl h ↦ rw h (
      ap (λ xs. es ++ xs) (objects_of-append rel gs hs)
      ∙ sym (append_assoc es (objects_of rel gs) (objects_of rel hs)))
  | inr h ↦ rw h (objects_of-append rel gs hs)
]

-- An object of a group is one for the path of the group.
pub Has-objects_of :
    (p : RelPath) (e : Entry) (gs : Map (List Entry)) → Has (p, e ∷ []) gs → Has e (objects_of p gs)
unfolding objects_of
Has-objects_of p e [] h = absurd h
Has-objects_of p e ((q, es) ∷ gs) (inl h) =
    subst (λ g. Has e (if same p g.0 then g.1 ++ objects_of p gs else objects_of p gs)) h
      (rw (same_refl p) (inl refl))
Has-objects_of p e ((q, es) ∷ gs) (inr h) = elim (Bool-cases (same p q)) [
  | inl is_q ↦ rw is_q (Has-right e es (objects_of p gs) (Has-objects_of p e gs h))
  | inr other ↦ rw other (Has-objects_of p e gs h)
]

-- One object in all comes from one listing.
append_one : (xs ys : List Entry) (e : Entry) → xs ++ ys ≡ e ∷ [] → (xs ≡ e ∷ []) ⊎ (ys ≡ e ∷ [])
append_one [] ys e h = inr h
append_one (x ∷ []) [] e h = inl h
append_one (x ∷ []) (y ∷ ys) e h = cc
append_one (x ∷ x' ∷ xs) ys e h = cc

pub objects_at_one :
    (rel : RelPath) (visits : List Visit) (e : Entry)
    → objects_at rel visits ≡ e ∷ []
    → (v : Visit) × Has v visits × (objects_in rel v.1 ≡ e ∷ [])
unfolding objects_at
objects_at_one rel [] e h = absurd cc
objects_at_one rel ((dir, es) ∷ visits) e h =
    elim (append_one (objects_in rel es) (objects_at rel visits) e h) [
      | inl here ↦ ((dir, es), inl refl, here)
      | inr later ↦ let (v, has, one) = objects_at_one rel visits e later in (v, inr has, one)
    ]
