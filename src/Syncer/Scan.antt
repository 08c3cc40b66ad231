-- ===== src/Syncer/Scan.antt =====
-- syncer/scan.go: the scan of the remote.
pub mod Counted
pub mod Grouped
pub mod Visits
pub mod Growth
pub mod Descent
pub mod Walked
use mediastub.Prelude.{
  ℕ, zero, suc, Bool, true, false, not, ◌&&◌, Option, none, some, List, [], ◌∷◌, ◌++◌,
  if◌then◌else◌,
}
use mediastub.Prelude.Maps.{Map, lookup, insert, delete}
use mediastub.Syncer.Base.{RelPath, Error, Result, ok, err, out_of_rounds, Entry, Snapshot}

-- `m[key]` of a map of slices
abbrev pub slice_of : Option (List Entry) → List Entry
slice_of none = []
slice_of (some es) = es

-- `grouped[entry.Path] = append(grouped[entry.Path], entry)`
abbrev pub with_entry : Entry → Map (List Entry) → Map (List Entry)
with_entry e groups = insert e.path (slice_of (lookup e.path groups) ++ e ∷ []) groups

unfoldable pub group_entries : List Entry → Map (List Entry) → Map (List Entry)
group_entries [] groups = groups
group_entries (e ∷ es) groups = group_entries es (with_entry e groups)

-- `snapshot.Duplicates[rel] = append(...)` and `delete(snapshot.Entries, rel)`
abbrev pub add_duplicates : RelPath → List Entry → Snapshot → Snapshot
add_duplicates rel es s = record {
  entries = delete rel s.entries;
  duplicates = insert rel (slice_of (lookup rel s.duplicates) ++ es) s.duplicates;
}

-- One path with one object, which may be an entry already.
abbrev pub add_one : RelPath → Entry → Option Entry → Snapshot → Snapshot
add_one rel e (some old) s = add_duplicates rel (old ∷ e ∷ []) s
add_one rel e none s = record s { entries = insert rel e s.entries }

-- The body of the first loop over the groups of a directory
abbrev pub add_group : RelPath → List Entry → Snapshot → Snapshot
add_group rel (e ∷ []) s = add_one rel e (lookup rel s.entries) s
add_group rel [] s = add_duplicates rel [] s
add_group rel (e ∷ f ∷ es) s = add_duplicates rel (e ∷ f ∷ es) s

unfoldable pub add_groups : Map (List Entry) → Snapshot → Snapshot
add_groups [] s = s
add_groups ((rel, es) ∷ groups) s = add_groups groups (add_group rel es s)

-- `len(objects) == 1 && objects[0].IsDir`
abbrev pub is_one_dir : List Entry → Bool
is_one_dir (e ∷ []) = e.is_dir
is_one_dir _ = false

abbrev pub is_some : Option (List Entry) → Bool
is_some none = false
is_some (some es) = true

abbrev pub then_walk : (Snapshot → Result Snapshot) → Result Snapshot → Result Snapshot
then_walk next (ok s) = next s
then_walk next (err e) = err e

-- The second loop, which walks into directories.
unfoldable pub walk_dirs :
    (RelPath → Snapshot → Result Snapshot) → Map (List Entry) → Snapshot → Result Snapshot
walk_dirs walk [] s = ok s
walk_dirs walk ((rel, es) ∷ groups) s =
    if is_one_dir es && not (is_some (lookup rel s.duplicates))
    then then_walk (walk_dirs walk groups) (walk rel s)
    else walk_dirs walk groups s

-- What a directory holds, and in which orders the two loops go through the map of its groups.
module _ (read_dir : RelPath → Result (List Entry))
    (order order_dirs : Map (List Entry) → Map (List Entry)) where
  abbrev pub walk_listing :
      (RelPath → Snapshot → Result Snapshot) → Result (List Entry) → Snapshot → Result Snapshot
  walk_listing walk (err e) s = err e
  walk_listing walk (ok es) s =
      walk_dirs walk (order_dirs (group_entries es [])) (add_groups (order (group_entries es [])) s)

  -- `walk`, with a bound on the depth of directories.
  unfoldable pub walk_dir : ℕ → RelPath → Snapshot → Result Snapshot
  unfolding group_entries add_groups walk_dirs
  walk_dir zero dir s = err out_of_rounds
  walk_dir (suc depth) dir s = walk_listing (walk_dir depth) (read_dir dir) s

  -- `scanRemote`
  unfoldable pub scan_remote : ℕ → Result Snapshot
  unfolding walk_dir
  scan_remote depth = walk_dir depth (b'.' ∷ []) (record { entries = []; duplicates = [] })
