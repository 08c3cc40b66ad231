-- ===== src/Syncer/Scan/Counted.antt =====
-- How often a path was listed decides what the scan makes of it.
use mediastub.Prelude.{
  ◌≡◌, refl, sym, subst, ◌∙◌, false, Option, none, some, List, [], ◌∷◌, ◌++◌, if◌then◌else◌,
  Bool-cases, inl, inr, All,
}
use mathlib.Core.List.{append-nil, append_assoc}
use mediastub.Prelude.Maps.{
  Map, lookup, same, same_sound, lookup-insert, lookup-insert_other, lookup-delete_other,
}
use mediastub.Syncer.Base.{RelPath, Entry, Snapshot}
use mediastub.Syncer.Scan.{slice_of, add_duplicates, add_one, add_group, add_groups}

-- The objects that groups list for a path, the latest group last.
unfoldable pub objects_of : RelPath → Map (List Entry) → List Entry
objects_of rel [] = []
objects_of rel ((p, es) ∷ groups) =
    let rest = objects_of rel groups in if same rel p then es ++ rest else rest

-- What the scan makes of a path, by the objects that were listed for it: an entry, or duplicates.
abbrev pub Counted : RelPath → Snapshot → List Entry → Type 0
Counted rel s [] = (lookup rel s.entries ≡ none) × (lookup rel s.duplicates ≡ none)
Counted rel s (e ∷ []) = (lookup rel s.entries ≡ some e) × (lookup rel s.duplicates ≡ none)
Counted rel s (e ∷ f ∷ es) = (ds : List Entry) × (lookup rel s.duplicates ≡ some ds)

-- Two objects at least
abbrev IsMany : List Entry → Type 0
IsMany (e ∷ f ∷ es) = Unit
IsMany _ = ⊥

many-Counted :
    (rel : RelPath) (s : Snapshot) (xs : List Entry) (ds : List Entry)
    → IsMany xs
    → lookup rel s.duplicates ≡ some ds
    → Counted rel s xs
many-Counted rel s [] ds m h = absurd m
many-Counted rel s (e ∷ []) ds m h = absurd m
many-Counted rel s (e ∷ f ∷ xs) ds m h = (ds, h)

add_duplicates-found :
    (rel : RelPath) (s : Snapshot) (es : List Entry)
    → lookup rel (add_duplicates rel es s).duplicates
      ≡ some (slice_of (lookup rel s.duplicates) ++ es)
add_duplicates-found rel s es =
    lookup-insert rel (slice_of (lookup rel s.duplicates) ++ es) s.duplicates

add_duplicates-Counted :
    (rel : RelPath) (s : Snapshot) (es xs : List Entry)
    → IsMany xs
    → Counted rel (add_duplicates rel es s) xs
add_duplicates-Counted rel s es xs m =
    many-Counted rel (add_duplicates rel es s) xs _ m
      (lookup-insert rel (slice_of (lookup rel s.duplicates) ++ es) s.duplicates)

append-IsMany : (xs : List Entry) (e f : Entry) (es : List Entry) → IsMany (xs ++ e ∷ f ∷ es)
append-IsMany [] e f es = tt
append-IsMany (x ∷ []) e f es = tt
append-IsMany (x ∷ y ∷ xs) e f es = tt

add_one-Counted :
    (rel : RelPath) (s : Snapshot) (e : Entry) (o : Option Entry) (xs : List Entry)
    → lookup rel s.entries ≡ o
    → Counted rel s xs
    → Counted rel (add_one rel e o s) (xs ++ e ∷ [])
add_one-Counted rel s e none [] h c = (lookup-insert rel e s.entries, c.1)
add_one-Counted rel s e (some old) [] h c = absurd (apart (sym h ∙ c.0))
  where
    apart : some old ≡ none → ⊥
    apart q = cc
add_one-Counted rel s e none (x ∷ []) h c = absurd (apart (sym h ∙ c.0))
  where
    apart : none ≡ some x → ⊥
    apart q = cc
add_one-Counted rel s e (some old) (x ∷ []) h c = (_, add_duplicates-found rel s (old ∷ e ∷ []))
add_one-Counted rel s e none (x ∷ y ∷ xs) h c = c
add_one-Counted rel s e (some old) (x ∷ y ∷ xs) h c = (_, add_duplicates-found rel s (old ∷ e ∷ []))

abbrev pub IsListed : List Entry → Type 0
IsListed [] = ⊥
IsListed (e ∷ es) = Unit

same_path-Counted :
    (rel : RelPath) (s : Snapshot) (es xs : List Entry)
    → IsListed es
    → Counted rel s xs
    → Counted rel (add_group rel es s) (xs ++ es)
same_path-Counted rel s [] xs l c = absurd l
same_path-Counted rel s (e ∷ []) xs l c = add_one-Counted rel s e (lookup rel s.entries) xs refl c
same_path-Counted rel s (e ∷ f ∷ es) xs l c =
    add_duplicates-Counted rel s (e ∷ f ∷ es) (xs ++ e ∷ f ∷ es) (append-IsMany xs e f es)

-- A step that is about another path
record Apart (rel : RelPath) (s t : Snapshot) : Type 0 where
  same_entry : lookup rel t.entries ≡ lookup rel s.entries
  same_duplicates : lookup rel t.duplicates ≡ lookup rel s.duplicates

Apart-Counted :
    (rel : RelPath) (s t : Snapshot) (xs : List Entry)
    → Apart rel s t
    → Counted rel s xs
    → Counted rel t xs
Apart-Counted rel s t [] a c = (a.same_entry ∙ c.0, a.same_duplicates ∙ c.1)
Apart-Counted rel s t (e ∷ []) a c = (a.same_entry ∙ c.0, a.same_duplicates ∙ c.1)
Apart-Counted rel s t (e ∷ f ∷ es) a c = (c.0, a.same_duplicates ∙ c.1)

add_duplicates-Apart :
    (rel p : RelPath) (s : Snapshot) (es : List Entry)
    → same rel p ≡ false
    → Apart rel s (add_duplicates p es s)
add_duplicates-Apart rel p s es h = record {
  same_entry = lookup-delete_other rel p s.entries h;
  same_duplicates = lookup-insert_other rel p _ s.duplicates h;
}

add_one-Apart :
    (rel p : RelPath) (s : Snapshot) (e : Entry) (o : Option Entry)
    → same rel p ≡ false
    → Apart rel s (add_one p e o s)
add_one-Apart rel p s e none h = record {
  same_entry = lookup-insert_other rel p e s.entries h;
  same_duplicates = refl;
}
add_one-Apart rel p s e (some old) h = add_duplicates-Apart rel p s (old ∷ e ∷ []) h

add_group-Apart :
    (rel p : RelPath) (s : Snapshot) (es : List Entry)
    → same rel p ≡ false
    → Apart rel s (add_group p es s)
add_group-Apart rel p s [] h = add_duplicates-Apart rel p s [] h
add_group-Apart rel p s (e ∷ []) h = add_one-Apart rel p s e (lookup p s.entries) h
add_group-Apart rel p s (e ∷ f ∷ es) h = add_duplicates-Apart rel p s (e ∷ f ∷ es) h

-- No group is empty.
abbrev pub AllListed : Map (List Entry) → Type 0
AllListed groups = All (λ g. IsListed g.1) groups

pub add_groups-Counted :
    (rel : RelPath) (groups : Map (List Entry)) (s : Snapshot) (xs : List Entry)
    → AllListed groups
    → Counted rel s xs
    → Counted rel (add_groups groups s) (xs ++ objects_of rel groups)
unfolding add_groups objects_of
add_groups-Counted rel [] s xs l c = subst (Counted rel s) (sym (append-nil xs)) c
add_groups-Counted rel ((p, es) ∷ groups) s xs l c = elim (Bool-cases (same rel p)) [
  | inl h ↦ rw h (
      subst (Counted rel (add_groups groups (add_group p es s)))
        (append_assoc xs es (objects_of rel groups))
        (add_groups-Counted rel groups (add_group p es s) (xs ++ es) l.1 (
          subst (λ q. Counted rel (add_group q es s) (xs ++ es)) (same_sound rel p h)
            (same_path-Counted rel s es xs l.0 c))))
  | inr h ↦ rw h (
      add_groups-Counted rel groups (add_group p es s) xs l.1
        (Apart-Counted rel s (add_group p es s) xs (add_group-Apart rel p s es h) c))
]

add_duplicates-none :
    (rel p : RelPath) (s : Snapshot) (es : List Entry)
    → lookup rel (add_duplicates p es s).duplicates ≡ none
    → lookup rel s.duplicates ≡ none
add_duplicates-none rel p s es h = elim (Bool-cases (same rel p)) [
  | inr other ↦ sym (add_duplicates-Apart rel p s es other).same_duplicates ∙ h
  | inl is_p ↦ absurd (
      apart (
        sym (add_duplicates-found p s es)
        ∙ subst (λ q. lookup q (add_duplicates p es s).duplicates ≡ none) (same_sound rel p is_p)
            h))
]
  where
    apart : {ds : List Entry} → some ds ≡ none → ⊥
    apart q = cc

add_one-none :
    (rel p : RelPath) (s : Snapshot) (e : Entry) (o : Option Entry)
    → lookup rel (add_one p e o s).duplicates ≡ none
    → lookup rel s.duplicates ≡ none
add_one-none rel p s e none h = h
add_one-none rel p s e (some old) h = add_duplicates-none rel p s (old ∷ e ∷ []) h

add_group-none :
    (rel p : RelPath) (s : Snapshot) (es : List Entry)
    → lookup rel (add_group p es s).duplicates ≡ none
    → lookup rel s.duplicates ≡ none
add_group-none rel p s [] h = add_duplicates-none rel p s [] h
add_group-none rel p s (e ∷ []) h = add_one-none rel p s e (lookup p s.entries) h
add_group-none rel p s (e ∷ f ∷ es) h = add_duplicates-none rel p s (e ∷ f ∷ es) h

-- What is no duplicate now has never been one.
pub add_groups-none :
    (rel : RelPath) (groups : Map (List Entry)) (s : Snapshot)
    → lookup rel (add_groups groups s).duplicates ≡ none
    → lookup rel s.duplicates ≡ none
unfolding add_groups
add_groups-none rel [] s h = h
add_groups-none rel ((p, es) ∷ groups) s h =
    add_group-none rel p s es (add_groups-none rel groups (add_group p es s) h)
