-- ===== src/Syncer/Scan/Walked.antt =====
-- A scan that ends has counted every object of every directory that it listed, and it has listed the
-- directories.
use mediastub.Prelude.{ℕ, ◌≡◌, refl, sym, subst, ap₂, ◌∙◌, ◌⊎◌, true, List, [], ◌∷◌, ◌++◌, All}
use mediastub.Prelude.Maps.{Map, lookup}
use mediastub.Syncer.Base.{RelPath, Result, ok, Entry, Snapshot}
use mediastub.Syncer.Scan.{group_entries, scan_remote}
use mediastub.Syncer.Scan.Counted.{objects_of, Counted, AllListed, add_groups-Counted}
use mediastub.Syncer.Scan.Grouped.{Reordered, Reordered-AllListed, groups-objects_in}
use mediastub.Syncer.Scan.Visits.{
  Visit, objects_at, Visited, Entered, objects_of-append, objects_at_one,
}
use mediastub.Syncer.Scan.Growth.{append-AllListed, group_entries-AllListed, groups_of}
use mediastub.Syncer.Scan.Descent.{WalksDir, walk_dir-WalksDir}

module _ (read_dir : RelPath → Result (List Entry))
    (order order_dirs : Map (List Entry) → Map (List Entry)) where
  module _ (sorts : (gs : Map (List Entry)) → Reordered gs (order gs))
      (sorts_dirs : (gs : Map (List Entry)) → Reordered gs (order_dirs gs)) where
    groups_of-objects_at :
        (rel : RelPath) (visits : List Visit)
        → objects_of rel (groups_of read_dir order order_dirs visits) ≡ objects_at rel visits
    unfolding groups_of objects_at objects_of
    groups_of-objects_at rel [] = refl
    groups_of-objects_at rel ((dir, es) ∷ visits) =
        objects_of-append rel (order (group_entries es []))
          (groups_of read_dir order order_dirs visits)
        ∙ ap₂ (λ xs ys. xs ++ ys)
            (groups-objects_in rel es (order (group_entries es [])) (sorts (group_entries es [])))
            (groups_of-objects_at rel visits)

    groups_of-AllListed :
        (visits : List Visit) → AllListed (groups_of read_dir order order_dirs visits)
    unfolding groups_of
    groups_of-AllListed [] = tt
    groups_of-AllListed ((dir, es) ∷ visits) =
        append-AllListed (order (group_entries es [])) (groups_of read_dir order order_dirs visits)
          (Reordered-AllListed (sorts (group_entries es [])) (group_entries-AllListed es [] tt))
          (groups_of-AllListed visits)

  -- What a scan of the remote that listed some directories has found
  pub record IsScan (t : Snapshot) (visits : List Visit) : Type 0 where
    pub reads : All (λ v. read_dir v.0 ≡ ok v.1) visits
    pub root_listed : Visited (b'.' ∷ []) visits
    pub counted : (rel : RelPath) → Counted rel t (objects_at rel visits)
    pub descended :
        (rel : RelPath) (e : Entry)
        → objects_at rel visits ≡ e ∷ []
        → e.is_dir ≡ true
        → Visited rel visits
    pub entered : All (λ v. (v.0 ≡ b'.' ∷ []) ⊎ Entered visits v.0) visits

  abbrev no_snapshot : Snapshot
  no_snapshot = record { entries = []; duplicates = [] }

  -- A scan of the remote that ends without an error has listed some directories, the root among them,
  -- each of which but the root another one lists as a directory. What it makes of a path depends on the
  -- objects that these list for it: one is an entry and no duplicate, two or more are duplicates, and
  -- none is neither. A path with one object that is a directory has been listed too. The two orders
  -- are any in which Go may range over a map.
  pub scan_remote-IsScan :
      (depth : ℕ) (t : Snapshot)
      → ((gs : Map (List Entry)) → Reordered gs (order gs))
      → ((gs : Map (List Entry)) → Reordered gs (order_dirs gs))
      → scan_remote read_dir order order_dirs depth ≡ ok t
      → (visits : List Visit) × IsScan t visits
  unfolding scan_remote
  scan_remote-IsScan depth t sorts sorts_dirs h =
      let grew : WalksDir read_dir order order_dirs (b'.' ∷ []) no_snapshot (ok t) =
        subst (WalksDir read_dir order order_dirs (b'.' ∷ []) no_snapshot) h (
          walk_dir-WalksDir read_dir order order_dirs sorts sorts_dirs depth (b'.' ∷ [])
            no_snapshot) in
      let visits = grew.visits in
      let counts : (rel : RelPath) → Counted rel t (objects_at rel visits) = λ rel.
        subst (Counted rel t) (groups_of-objects_at sorts sorts_dirs rel visits) (
          subst (λ s. Counted rel s (objects_of rel (groups_of read_dir order order_dirs visits)))
            (sym grew.added)
            (add_groups-Counted rel (groups_of read_dir order order_dirs visits) no_snapshot []
              (groups_of-AllListed sorts sorts_dirs visits) (nothing rel))) in
      (
        visits,
        record {
          reads = grew.reads;
          root_listed = grew.must (b'.' ∷ []) refl;
          counted = counts;
          descended = λ rel e one is_dir.
              let (v, has, here) = objects_at_one rel visits e one in
              grew.descended rel e v has here is_dir (subst (Counted rel t) one (counts rel)).1;
          entered = grew.entered;
        },
      )
    where
      nothing : (rel : RelPath) → Counted rel no_snapshot []
      nothing rel = unfold lookup in (refl, refl)
