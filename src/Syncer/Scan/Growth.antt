-- ===== src/Syncer/Scan/Growth.antt =====
-- What a walk through directories adds to a snapshot.
use mediastub.Prelude.{
  ◌≡◌, refl, sym, subst, ap, ◌∙◌, ◌⊎◌, Bool, true, false, ◌&&◌, none, List, [], ◌∷◌, ◌++◌,
  Bool-cases, inl, inr, All,
}
use mathlib.Core.List.{append_assoc}
use mediastub.Prelude.Maps.{Map, lookup, insert, delete, same}
use mediastub.Syncer.Base.{RelPath, Result, ok, Entry, Snapshot}
use mediastub.Syncer.Scan.{slice_of, with_entry, group_entries, add_groups, is_one_dir}
use mediastub.Syncer.Scan.Counted.{objects_of, IsListed, AllListed, add_groups-none}
use mediastub.Syncer.Scan.Grouped.{objects_in}
use mediastub.Syncer.Scan.Visits.{
  Visit, Has, Has-either, All-map, All-both, Visited, Visited-left, Visited-right, Entered,
  Entered-left, Entered-right,
}

delete-AllListed :
    (p : RelPath) (groups : Map (List Entry)) → AllListed groups → AllListed (delete p groups)
unfolding delete
delete-AllListed p [] l = tt
delete-AllListed p ((q, es) ∷ groups) l = elim (Bool-cases (same p q)) [
  | inl h ↦ rw h (delete-AllListed p groups l.1)
  | inr h ↦ rw h (l.0, delete-AllListed p groups l.1)
]

append-IsListed : (xs : List Entry) (e : Entry) → IsListed (xs ++ e ∷ [])
append-IsListed [] e = tt
append-IsListed (x ∷ xs) e = tt

pub group_entries-AllListed :
    (es : List Entry) (groups : Map (List Entry))
    → AllListed groups
    → AllListed (group_entries es groups)
unfolding group_entries insert
group_entries-AllListed [] groups l = l
group_entries-AllListed (e ∷ es) groups l =
    group_entries-AllListed es (with_entry e groups)
      (append-IsListed (slice_of (lookup e.path groups)) e, delete-AllListed e.path groups l)

pub append-AllListed :
    (gs hs : Map (List Entry)) → AllListed gs → AllListed hs → AllListed (gs ++ hs)
append-AllListed [] hs a b = b
append-AllListed (g ∷ gs) hs a b = (a.0, append-AllListed gs hs a.1 b)

pub add_groups-append :
    (gs hs : Map (List Entry)) (s : Snapshot)
    → add_groups (gs ++ hs) s ≡ add_groups hs (add_groups gs s)
unfolding add_groups
add_groups-append [] hs s = refl
add_groups-append ((p, es) ∷ gs) hs s = add_groups-append gs hs _

-- A group that stands for a directory
abbrev pub IsDirIn : Map (List Entry) → RelPath → Type 0
IsDirIn gs p = (e : Entry) × Has (p, e ∷ []) gs × (e.is_dir ≡ true)

-- A path with one object, a directory, that is no duplicate
abbrev pub IsOneDirIn : Map (List Entry) → Snapshot → RelPath → Type 0
IsOneDirIn gs t p =
    (e : Entry) × (objects_of p gs ≡ e ∷ []) × (e.is_dir ≡ true) × (lookup p t.duplicates ≡ none)

pub one_dir :
    (es : List Entry) → is_one_dir es ≡ true → (e : Entry) × (es ≡ e ∷ []) × (e.is_dir ≡ true)
one_dir [] h = cc
one_dir (e ∷ []) h = (e, refl, h)
one_dir (e ∷ f ∷ es) h = cc

pub both_true : (a b : Bool) → (a && b) ≡ true → (a ≡ true) × (b ≡ true)
both_true true b h = (refl, h)
both_true false b h = cc

-- A group with objects holds all objects of its path, if that has one.
pub first_one : (es xs : List Entry) (e : Entry) → IsListed es → es ++ xs ≡ e ∷ [] → es ≡ e ∷ []
first_one [] xs e l h = absurd l
first_one (f ∷ []) [] e l h = h
first_one (f ∷ []) (x ∷ xs) e l h = cc
first_one (f ∷ g ∷ es) xs e l h = cc

abbrev pub IsDir : RelPath → RelPath → Type 0
IsDir dir p = p ≡ dir

module _ (read_dir : RelPath → Result (List Entry))
    (order order_dirs : Map (List Entry) → Map (List Entry)) where
  unfoldable pub groups_of : List Visit → Map (List Entry)
  groups_of [] = []
  groups_of ((dir, es) ∷ visits) = order (group_entries es []) ++ groups_of visits

  pub groups_of-append : (vs ws : List Visit) → groups_of (vs ++ ws) ≡ groups_of vs ++ groups_of ws
  unfolding groups_of
  groups_of-append [] ws = refl
  groups_of-append ((dir, es) ∷ vs) ws =
      ap (λ gs. order (group_entries es []) ++ gs) (groups_of-append vs ws)
      ∙ sym (append_assoc (order (group_entries es [])) (groups_of vs) (groups_of ws))

  -- A path that a listing has once, as a directory, and that is no duplicate in the end, is listed.
  abbrev pub Descended : Snapshot → List Visit → Type 0
  Descended t visits =
      (rel : RelPath) (e : Entry) (v : Visit)
      → Has v visits
      → objects_in rel v.1 ≡ e ∷ []
      → e.is_dir ≡ true
      → lookup rel t.duplicates ≡ none
      → Visited rel visits

  -- A snapshot that what some directories list has been added to. A directory was listed since it is
  -- one of `Origin`, or since another lists it; and those of `Must` were.
  pub record Grew (Origin : RelPath → Type 0) (Must : Snapshot → RelPath → Type 0) (s t : Snapshot)
      : Type 0 where
    pub visits : List Visit
    pub reads : All (λ v. read_dir v.0 ≡ ok v.1) visits
    pub added : t ≡ add_groups (groups_of visits) s
    pub descended : Descended t visits
    pub entered : All (λ v. Origin v.0 ⊎ Entered visits v.0) visits
    pub must : (p : RelPath) → Must t p → Visited p visits

  pub Grew-none :
      {O : RelPath → Type 0} {M : Snapshot → RelPath → Type 0} (s t : Snapshot) (rel : RelPath)
      → Grew O M s t
      → lookup rel t.duplicates ≡ none
      → lookup rel s.duplicates ≡ none
  Grew-none s t rel a h =
      add_groups-none rel (groups_of a.visits) s
        (subst (λ u. lookup rel u.duplicates ≡ none) a.added h)

  module _ {O O' P : RelPath → Type 0} {M M' N : Snapshot → RelPath → Type 0} where
    pub then-Grew :
        (s t u : Snapshot) (a : Grew O M s t) (b : Grew O' M' t u)
        → ((p : RelPath) → O p → P p)
        → ((p : RelPath) → O' p → P p)
        → ((p : RelPath) → N u p → Visited p (a.visits ++ b.visits))
        → Grew P N s u
    then-Grew s t u a b from from' must = record {
      visits = a.visits ++ b.visits;
      reads = All-both _ a.visits b.visits a.reads b.reads;
      added =
          b.added
          ∙ ap (add_groups (groups_of b.visits)) a.added
          ∙ sym (add_groups-append (groups_of a.visits) (groups_of b.visits) s)
          ∙ ap (λ gs. add_groups gs s) (sym (groups_of-append a.visits b.visits));
      descended = λ rel e v has one dir unique. elim (Has-either v a.visits b.visits has) [
        | inl before ↦
            Visited-left rel a.visits b.visits
              (a.descended rel e v before one dir (Grew-none t u rel b unique))
        | inr behind ↦
            Visited-right rel a.visits b.visits (b.descended rel e v behind one dir unique)
      ];
      entered =
          All-both _ a.visits b.visits
            (All-map _ _ a.visits
              (λ v h. elim h [
                | inl o ↦ inl (from v.0 o)
                | inr e ↦ inr (Entered-left a.visits b.visits v.0 e)
              ])
              a.entered)
            (All-map _ _ b.visits
              (λ v h. elim h [
                | inl o ↦ inl (from' v.0 o)
                | inr e ↦ inr (Entered-right a.visits b.visits v.0 e)
              ])
              b.entered);
      must = must;
    }

  module _ {O P : RelPath → Type 0} {M N : Snapshot → RelPath → Type 0} where
    pub same-Grew :
        (s t : Snapshot) (a : Grew O M s t)
        → ((p : RelPath) → O p → P p)
        → ((p : RelPath) → N t p → M t p)
        → Grew P N s t
    same-Grew s t a from to = record {
      visits = a.visits;
      reads = a.reads;
      added = a.added;
      descended = a.descended;
      entered =
          All-map _ _ a.visits (λ v h. elim h [ inl o ↦ inl (from v.0 o) | inr e ↦ inr e ])
            a.entered;
      must = λ p h. a.must p (to p h);
    }

  pub nothing-Grew : (s : Snapshot) → Grew (IsDirIn []) (IsOneDirIn []) s s
  unfolding add_groups groups_of objects_of
  nothing-Grew s = record {
    visits = [];
    reads = tt;
    added = refl;
    descended = λ rel e v has one dir unique. absurd has;
    entered = tt;
    must = λ p (e, h, dir, unique). absurd (apart h);
  }
    where
      apart : {e : Entry} → [] ≡ e ∷ [] → ⊥
      apart q = cc
