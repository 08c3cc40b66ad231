-- ===== src/Tests/Scanning.antt =====
-- The scan of a remote that holds one film, a marker of it, and patterns that select it.
use mediastub.Prelude.{
  ◌≡◌, ◌↔◌, refl, Bool, true, Option, none, some, List, [], ◌∷◌, arith, replicate, if◌then◌else◌,
}
use mediastub.Prelude.Int.{pos}
use mediastub.Prelude.Maps.{Map, lookup, insert, delete, same}
use mediastub.Core.Base.{Bytes}
use mediastub.Syncer.Base.{RelPath, not_found, Entry, Snapshot, valid_marker}
use mediastub.Syncer.Base as Syncer
use mediastub.Syncer.Scan.{add_groups, group_entries, walk_dirs, walk_dir, scan_remote}
use mediastub.Syncer.Scan.Grouped.{unmoved}
use mediastub.Syncer.Scan.Visits.{Visit}
use mediastub.Syncer.Scan.Walked.{IsScan, scan_remote-IsScan}
use mediastub.Marker.{
  Failure, refused, ok, valid_format, set_marker, set_fields, inspect_marker, mp4_word,
  etag_hash_xattr,
}
use mediastub.Marker.RoundTrip.{
  IsDigest, IsUnmarked, reads_of, inspect_marker-set_marker, set_marker_failed-IsUnmarked,
}
use mediastub.Mountfs.Base as Mountfs
use mediastub.Mountfs.Cache.{Service, passthrough, is_positive, stub_candidate}
use mediastub.Mountfs.View.{Config, new_service, policy_of}
use mediastub.Pathfilter.{new_matcher, match_path, invalid_pattern}
use mediastub.Pathfilter.Included.{Included, new_service-Included}
use mediastub.Tests.Worlds.{film, film_entry}

abbrev shelf : RelPath
shelf = b's' ∷ []

abbrev shelf_entry : Entry
shelf_entry = record film_entry { path = shelf; is_dir = true }

-- The root holds a directory, and that holds the film.
abbrev film_dir : RelPath → Syncer.Result (List Entry)
film_dir p =
    if same p (b'.' ∷ [])
    then Syncer.Result.ok (shelf_entry ∷ [])
    else if same p shelf
    then Syncer.Result.ok (film_entry ∷ [])
    else Syncer.Result.err not_found

abbrev as_it_is : Map (List Entry) → Map (List Entry)
as_it_is gs = gs

abbrev film_found : Snapshot
film_found = record { entries = (film, film_entry) ∷ (shelf, shelf_entry) ∷ []; duplicates = [] }

film_scanned : scan_remote film_dir as_it_is as_it_is 3 ≡ Syncer.Result.ok film_found
unfolding scan_remote walk_dir walk_dirs add_groups group_entries lookup insert delete same
film_scanned = refl

scan_remote-IsScan_example :
    (visits : List Visit) × IsScan film_dir as_it_is as_it_is film_found visits
scan_remote-IsScan_example =
    scan_remote-IsScan film_dir as_it_is as_it_is 3 film_found (λ gs. unmoved) (λ gs. unmoved)
      film_scanned

-- A path that three directories list, once each, is a duplicate, and an entry again.
listed_thrice :
    add_groups
      ((film, film_entry ∷ []) ∷ (film, film_entry ∷ []) ∷ (film, film_entry ∷ []) ∷ [])
      (record { entries = []; duplicates = [] })
    ≡ record {
      entries = (film, film_entry) ∷ [];
      duplicates = (film, film_entry ∷ film_entry ∷ []) ∷ [];
    }
unfolding add_groups lookup insert delete same
listed_thrice = refl

abbrev zeros : Bytes → Bytes
zeros bs = replicate 32 0

zeros-IsDigest : (bs : Bytes) → IsDigest (zeros bs)
zeros-IsDigest bs = record { all_bytes = ground arith; full = refl }

mp4_word-valid_format : valid_format mp4_word ≡ true
unfolding valid_format same
mp4_word-valid_format = refl

inspect_marker-set_marker_example :
    inspect_marker
      (reads_of (set_marker zeros (λ n. none) mp4_word (pos 35) (1 ∷ []) (zeros []) film []).1)
      (pos 35)
    ≡ ok (record {
      status = valid_marker;
      format = mp4_word;
      marker = record {
        remote_size = 35;
        remote_etag_hash = zeros (1 ∷ []);
        plan_hash = zeros [];
        webdav_url = film;
      };
    })
unfolding same
inspect_marker-set_marker_example =
    inspect_marker-set_marker zeros zeros-IsDigest (λ n. none) mp4_word 35 (1 ∷ []) (zeros []) film
      (λ n. refl) mp4_word-valid_format (omega arith) (zeros-IsDigest []) refl

-- The system takes two fields, and refuses the third.
abbrev third_refused : Bytes → Option Failure
third_refused name = if same name etag_hash_xattr then some (refused 28) else none

third_fails :
    (set_marker zeros third_refused mp4_word (pos 35) (1 ∷ []) (zeros []) film []).0
    ≡ some (refused 28)
unfolding set_marker set_fields valid_format same
third_fails = refl

set_marker_failed-IsUnmarked_example : IsUnmarked (
    inspect_marker
      (reads_of (set_marker zeros third_refused mp4_word (pos 35) (1 ∷ []) (zeros []) film []).1)
      (pos 35))
set_marker_failed-IsUnmarked_example =
    set_marker_failed-IsUnmarked zeros third_refused mp4_word (pos 35) (1 ∷ []) (zeros []) film
      (refused 28) 35 third_fails

abbrev equal_path : Bytes → Bytes → Mountfs.Result Bool
equal_path p name = Mountfs.Result.ok (same p name)

abbrev film_config : Config
film_config = record { includes = film ∷ []; on_error = []; cache_entries = pos 0 }

abbrev film_service : Service
film_service = record {
  matches = match_path equal_path (film ∷ []);
  on_error = passthrough;
  cache_entries = 1024;
}

film_service_made :
    new_service (new_matcher equal_path) true film_config ≡ Mountfs.Result.ok film_service
unfolding new_service new_matcher policy_of invalid_pattern same
film_service_made = refl

new_service-Included_example :
    (stub_candidate film_service film_entry ≡ true)
    ↔ ((is_positive (pos 35) ≡ true) × Included equal_path film (film ∷ []))
new_service-Included_example =
    new_service-Included equal_path film_config film_service film_entry film_service_made
