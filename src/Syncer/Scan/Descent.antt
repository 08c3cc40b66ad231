-- ===== src/Syncer/Scan/Descent.antt =====
-- The walk goes into the directories that its listings have once.
use mediastub.Prelude.{
  ℕ, zero, suc, ◌≡◌, refl, sym, subst, ap, ap₂, ◌∙◌, true, false, not, ◌&&◌, none, List, [], ◌∷◌,
  Bool-cases, inl, inr,
}
use mediastub.Prelude.Maps.{Map, lookup, same, same_sound}
use mediastub.Syncer.Base.{RelPath, Result, ok, err, Entry, Snapshot}
use mediastub.Syncer.Scan.{
  group_entries, add_groups, then_walk, walk_dirs, walk_listing, walk_dir, is_one_dir, is_some,
}
use mediastub.Syncer.Scan.Counted.{objects_of, IsListed, AllListed}
use mediastub.Syncer.Scan.Grouped.{objects_in, Reordered, Reordered-AllListed, groups-objects_in}
use mediastub.Syncer.Scan.Visits.{
  Has, All-map, Visited-left, Visited-right, Entered-right, Has-objects_of,
}
use mediastub.Syncer.Scan.Growth.{
  group_entries-AllListed, add_groups-append, IsDir, IsDirIn, IsOneDirIn, one_dir, both_true,
  first_one, groups_of, Grew, Grew-none, then-Grew, same-Grew, nothing-Grew,
}

module _ (read_dir : RelPath → Result (List Entry))
    (order order_dirs : Map (List Entry) → Map (List Entry)) where
  -- What a result says, if it is a snapshot
  abbrev pub GrewTo :
      (RelPath → Type 0) → (Snapshot → RelPath → Type 0) → Snapshot → Result Snapshot → Type 0
  GrewTo O M s (ok t) = Grew read_dir order order_dirs O M s t
  GrewTo O M s (err e) = Unit

  -- The walk of a directory
  abbrev pub WalksDir : RelPath → Snapshot → Result Snapshot → Type 0
  WalksDir dir s r = GrewTo (IsDir dir) (λ t. IsDir dir) s r

  -- The walk of the directories among groups
  abbrev WalksDirs : Map (List Entry) → Snapshot → Result Snapshot → Type 0
  WalksDirs gs s r = GrewTo (IsDirIn gs) (IsOneDirIn gs) s r

  entered_dir :
      (p : RelPath) (es : List Entry) (gs : Map (List Entry)) (s t u : Snapshot)
      → is_one_dir es ≡ true
      → Grew read_dir order order_dirs (IsDir p) (λ t. IsDir p) s t
      → Grew read_dir order order_dirs (IsDirIn gs) (IsOneDirIn gs) t u
      → Grew read_dir order order_dirs (IsDirIn ((p, es) ∷ gs)) (IsOneDirIn ((p, es) ∷ gs)) s u
  unfolding objects_of
  entered_dir p es gs s t u is_dir a b =
      let (e, is_one, dir) = one_dir es is_dir in
      then-Grew read_dir order order_dirs s t u a b
        (λ q is_p. (e, inl (ap₂ (λ x y. (x, y)) is_p (sym is_one)), dir))
        (λ q (f, has, dir'). (f, inr has, dir'))
        (λ q (f, one, dir', unique). elim (Bool-cases (same q p)) [
          | inl is_p ↦ Visited-left q a.visits b.visits (a.must q (same_sound q p is_p))
          | inr other ↦
              Visited-right q a.visits b.visits (b.must q (f, rw other at one, dir', unique))
        ])

  passed_by :
      (p : RelPath) (es : List Entry) (gs : Map (List Entry)) (s u : Snapshot)
      → IsListed es
      → (is_one_dir es && not (is_some (lookup p s.duplicates))) ≡ false
      → Grew read_dir order order_dirs (IsDirIn gs) (IsOneDirIn gs) s u
      → Grew read_dir order order_dirs (IsDirIn ((p, es) ∷ gs)) (IsOneDirIn ((p, es) ∷ gs)) s u
  unfolding objects_of
  passed_by p es gs s u listed stay b =
      same-Grew read_dir order order_dirs s u b (λ q (f, has, dir). (f, inr has, dir))
        (λ q (f, one, dir, unique). elim (Bool-cases (same q p)) [
          | inr other ↦ (f, rw other at one, dir, unique)
          | inl is_p ↦
              let whole : es ≡ f ∷ [] = first_one es (objects_of q gs) f listed (rw is_p at one) in
              let never =
                subst (λ k. lookup k s.duplicates ≡ none) (same_sound q p is_p)
                  (Grew-none read_dir order order_dirs s u q b unique) in
              absurd (
                apart (
                  sym (ap₂ (λ a o. a && not (is_some o)) (ap is_one_dir whole ∙ dir) never) ∙ stay))
        ])
    where
      apart : true ≡ false → ⊥
      apart q = cc

  then_walk-WalksDirs :
      (p : RelPath) (es : List Entry) (gs : Map (List Entry)) (s : Snapshot)
      (next : Snapshot → Result Snapshot) (r : Result Snapshot)
      → is_one_dir es ≡ true
      → WalksDir p s r
      → ((t : Snapshot) → WalksDirs gs t (next t))
      → WalksDirs ((p, es) ∷ gs) s (then_walk next r)
  then_walk-WalksDirs p es gs s next (err e) is_dir a b = tt
  then_walk-WalksDirs p es gs s next (ok t) is_dir a b = by_result (next t) (b t)
    where
      by_result : (r : Result Snapshot) → WalksDirs gs t r → WalksDirs ((p, es) ∷ gs) s r
      by_result (err e) b = tt
      by_result (ok u) b = entered_dir p es gs s t u is_dir a b

  passed_by-WalksDirs :
      (p : RelPath) (es : List Entry) (gs : Map (List Entry)) (s : Snapshot) (r : Result Snapshot)
      → IsListed es
      → (is_one_dir es && not (is_some (lookup p s.duplicates))) ≡ false
      → WalksDirs gs s r
      → WalksDirs ((p, es) ∷ gs) s r
  passed_by-WalksDirs p es gs s (err e) listed stay b = tt
  passed_by-WalksDirs p es gs s (ok u) listed stay b = passed_by p es gs s u listed stay b

  walk_dirs-WalksDirs :
      (walk : RelPath → Snapshot → Result Snapshot)
      → ((dir : RelPath) (s : Snapshot) → WalksDir dir s (walk dir s))
      → (gs : Map (List Entry)) (s : Snapshot) → AllListed gs
      → WalksDirs gs s (walk_dirs walk gs s)
  unfolding walk_dirs
  walk_dirs-WalksDirs walk h [] s l = nothing-Grew read_dir order order_dirs s
  walk_dirs-WalksDirs walk h ((p, es) ∷ gs) s l =
      elim (Bool-cases (is_one_dir es && not (is_some (lookup p s.duplicates)))) [
        | inl goes ↦ rw goes (
            then_walk-WalksDirs p es gs s (walk_dirs walk gs) (walk p s) (both_true _ _ goes).0
              (h p s) (λ t. walk_dirs-WalksDirs walk h gs t l.1))
        | inr stays ↦ rw stays (
            passed_by-WalksDirs p es gs s (walk_dirs walk gs s) l.0 stays
              (walk_dirs-WalksDirs walk h gs s l.1))
      ]

  module _ (sorts : (gs : Map (List Entry)) → Reordered gs (order gs))
      (sorts_dirs : (gs : Map (List Entry)) → Reordered gs (order_dirs gs)) where
    listing-Grew :
        (dir : RelPath) (es : List Entry) (s u : Snapshot)
        → read_dir dir ≡ ok es
        → Grew read_dir order order_dirs
            (IsDirIn (order_dirs (group_entries es [])))
            (IsOneDirIn (order_dirs (group_entries es [])))
            (add_groups (order (group_entries es [])) s)
            u
        → Grew read_dir order order_dirs (IsDir dir) (λ t. IsDir dir) s u
    unfolding groups_of
    listing-Grew dir es s u reads b =
        let gs = order_dirs (group_entries es []) in
        record {
          visits = (dir, es) ∷ b.visits;
          reads = (reads, b.reads);
          added =
              b.added
              ∙ sym (
                  add_groups-append (order (group_entries es []))
                    (groups_of read_dir order order_dirs b.visits) s);
          descended = λ rel e v has one is_dir unique. elim has [
            | inl is_v ↦
                let here : objects_of rel gs ≡ e ∷ [] =
                  groups-objects_in rel es gs (sorts_dirs (group_entries es []))
                  ∙ subst (λ w. objects_in rel w.1 ≡ e ∷ []) is_v one in
                Visited-right rel ((dir, es) ∷ []) b.visits (b.must rel (e, here, is_dir, unique))
            | inr later ↦
                Visited-right rel ((dir, es) ∷ []) b.visits
                  (b.descended rel e v later one is_dir unique)
          ];
          entered = (
            inl refl,
            All-map _ _ b.visits
                (λ v h. elim h [
                  | inl (e, has, is_dir) ↦ inr (record {
                    visit = (dir, es);
                    listed = inl refl;
                    entry = e;
                    listed_there =
                        subst (Has e)
                          (groups-objects_in v.0 es gs (sorts_dirs (group_entries es [])))
                          (Has-objects_of v.0 e gs has);
                    is_dir = is_dir;
                  })
                  | inr e ↦ inr (Entered-right ((dir, es) ∷ []) b.visits v.0 e)
                ])
                b.entered,
          );
          must = λ p is_dir. (es, inl (ap (λ x. (x, es)) is_dir));
        }

    walk_listing-WalksDir :
        (walk : RelPath → Snapshot → Result Snapshot) (dir : RelPath) (r : Result (List Entry))
        (s : Snapshot)
        → ((d : RelPath) (t : Snapshot) → WalksDir d t (walk d t))
        → read_dir dir ≡ r
        → WalksDir dir s (walk_listing read_dir order order_dirs walk r s)
    walk_listing-WalksDir walk dir (err e) s h q = tt
    walk_listing-WalksDir walk dir (ok es) s h q =
        let gs = order_dirs (group_entries es []) in
        let t = add_groups (order (group_entries es [])) s in
        by_result (walk_dirs walk gs t) (
          walk_dirs-WalksDirs walk h gs t (
            Reordered-AllListed (sorts_dirs (group_entries es []))
              (group_entries-AllListed es [] tt)))
      where
        by_result :
            (r : Result Snapshot)
            → WalksDirs
                (order_dirs (group_entries es []))
                (add_groups (order (group_entries es [])) s)
                r
            → WalksDir dir s r
        by_result (err e) b = tt
        by_result (ok u) b = listing-Grew dir es s u q b

    pub walk_dir-WalksDir :
        (depth : ℕ) (dir : RelPath) (s : Snapshot)
        → WalksDir dir s (walk_dir read_dir order order_dirs depth dir s)
    unfolding walk_dir
    walk_dir-WalksDir zero dir s = tt
    walk_dir-WalksDir (suc depth) dir s =
        walk_listing-WalksDir (walk_dir read_dir order order_dirs depth) dir (read_dir dir) s
          (λ d t. walk_dir-WalksDir depth d t) refl
