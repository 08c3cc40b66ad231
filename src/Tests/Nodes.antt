-- ===== src/Tests/Nodes.antt =====
-- The theorems about views, nodes and processes, for one small film.
use mathlib.Core.List.Perm
use mediastub.Prelude.{
  Option, ◌%◌, ◌≡◌, ◌≤◌, ◌<◌, ◌^◌, ◌⊎◌, ◌↔◌, refl, Bool, true, false, none, some, [], ◌∷◌, take,
  drop, All, arith,
}
use mediastub.Prelude.Int.{ℤ, pos, ltb_ℤ}
use mediastub.Core.Base.{Bytes}
use mediastub.Core.Plan.Normal.{IsNormal}
use mediastub.Core.Plan.Reading.{contents}
use mediastub.Core.Ebml.Digits.{IsByte}
use mediastub.Core.Probe.{probe}
use mediastub.Origin.{origin_source}
use mediastub.Syncer.Base.{Entry}
use mediastub.Mountfs.Base.{other, Result, ok, err, is_eof, unix_nano, not_found}
use mediastub.Mountfs.Cache.{Service, passthrough, Outcome, Decision, stub_candidate}
use mediastub.Mountfs.View.{Opened, opened, plan_view, origin_view, file_read, bytes, open_view}
use mediastub.Mountfs.View.Reading.{file_read_stub, Shows, file_read-Shows}
use mediastub.Mountfs.Stubs.{outcome_of, Tells, outcome_of-Tells}
use mediastub.Mountfs.Fingerprint.{IsText, fingerprint_injective}
use mediastub.Mountfs.Process.{ProcessMatcher, CallerInfo, match_process}
use mediastub.Mountfs.Process.Selected.{IsSelected, match_process-IsSelected}
use mediastub.Mountfs.Node.{
  Node, World, current_entry, cached_stat, readdir, lookup_child, open_node, open_file, direct_io,
}
use mediastub.Mountfs.Attributes.{inode_number}
use mediastub.Mountfs.Node.Opening.{IsGuarded, open_node-IsGuarded}
use mediastub.Mountfs.Node.Listing.{IsNamed, after_listing, lookup_child-readdir}
use mediastub.Mountfs.Node.Freshness.{asked, after_calls, Answered, current_entry-Answered}
use mediastub.Mountfs.Attributes.Inodes.{inode_number_within}
use mediastub.Tests.Files.{mp4_file, mp4_stub, small_budget}
use mediastub.Tests.Reading.{slow_object, slow_offers}
use mediastub.Tests.Worlds.{film, film_entry}

mp4_stub-IsNormal : IsNormal mp4_stub
mp4_stub-IsNormal = record { chain = ground arith; within = ground arith }

file_read_stub_example :
    file_read other (plan_view mp4_stub) 6 (pos 30)
    ≡ (bytes (take 6 (drop 30 (contents mp4_stub))), plan_view mp4_stub)
file_read_stub_example = file_read_stub other mp4_stub 6 30 mp4_stub-IsNormal

file_read-Shows_example :
    Shows other mp4_file 6 10
      (file_read other (origin_view (slow_object mp4_file) tt (pos 35)) 6 (pos 10)).0
unfolding is_eof
file_read-Shows_example =
    file_read-Shows other mp4_file (slow_object mp4_file) (slow_offers mp4_file) tt 6 10 (λ m. refl)
      tt

mp4_file-bytes : All IsByte mp4_file
mp4_file-bytes = ground arith

outcome_of-Tells_example :
    (o : Outcome) × (outcome_of other
        (probe (origin_source (slow_object mp4_file) 35) small_budget tt)
        none
      ≡ some o)
    × Tells (λ k. mp4_file) film_entry o
outcome_of-Tells_example =
    outcome_of-Tells (λ k. mp4_file) other film_entry (slow_object mp4_file) (slow_offers mp4_file)
      small_budget tt none mp4_file-bytes tt

film-IsText : IsText film
film-IsText = (omega arith, (omega arith, (omega arith, (omega arith, (omega arith, tt)))))

fingerprint_injective_example :
    (film ≡ film)
    × (pos 35 ≡ pos 35)
    × (unix_nano (some (pos 7)) ≡ unix_nano (some (pos 7)))
    × (film_entry.etag ≡ film_entry.etag)
fingerprint_injective_example =
    fingerprint_injective film_entry film_entry film-IsText film-IsText refl

abbrev any_match : Bytes → Bytes → Result Bool
any_match p name = ok true

abbrev players : ProcessMatcher
players = record { patterns = film ∷ []; uids = []; gids = 5 ∷ [] }

abbrev player : CallerInfo
player = record { pid = 9; uid = 4; gid = 6 }

match_process-IsSelected_example :
    (match_process any_match players (some player) (ok film) ≡ ok true)
    ↔ IsSelected any_match players player (ok film)
match_process-IsSelected_example = match_process-IsSelected any_match players player (ok film)

abbrev film_world : World
film_world = record {
  stat = λ p. ok film_entry;
  read_dir = λ p. ok (film_entry ∷ []);
  sorted = λ es. es;
  asked_at = pos 10;
  filled_at = pos 12;
}

-- The origin has lost the film.
abbrev later_world : World
later_world = record {
  stat = λ p. err not_found;
  read_dir = λ p. err not_found;
  sorted = λ es. es;
  asked_at = pos 30;
  filled_at = pos 31;
}

abbrev film_node : Node
film_node = record { path = film; entry = none; children = [] }

lookup_child-readdir_example :
    (o : Option Entry) × IsNamed film (film_entry ∷ []) o
    × (lookup_child (pos 20) later_world film (readdir (pos 20) film_world film_node).1
        ≡ after_listing (pos 20) later_world film film_node o)
lookup_child-readdir_example =
    lookup_child-readdir (pos 20) film_world later_world film_node (film_entry ∷ []) film refl
      (λ xs. Perm.refl xs) refl

inode_number_within_example : (2 ≤ inode_number film false) × (inode_number film false < 2 ^ 64)
inode_number_within_example = inode_number_within film false

served :
    (current_entry (pos 20) later_world (after_calls (pos 20) film_node (asked film_world ∷ []))).0
    ≡ ok film_entry
unfolding current_entry cached_stat after_calls
served = refl

current_entry-Answered_example :
    (later_world.stat film ≡ ok film_entry)
    ⊎ ((deadline : ℤ) × Answered (pos 20) film film_entry deadline (asked film_world ∷ [])
        × (ltb_ℤ deadline later_world.asked_at ≡ false))
current_entry-Answered_example =
    current_entry-Answered (pos 20) film_node (asked film_world ∷ []) later_world film_entry refl
      served

abbrev all_service : Service
all_service = record { matches = λ p. true; on_error = passthrough; cache_entries = 1 }

abbrev decided : Entry → Decision
decided e = record { plan = some mp4_stub; error = none }

abbrev film_object : Entry → Opened
film_object e = opened (slow_object mp4_file) tt

stub_given :
    (open_node all_service (pos 20) film_world 0 false (ok true) decided film_object film_node).0
    ≡ open_file (plan_view mp4_stub) direct_io
unfolding open_node current_entry cached_stat open_view stub_candidate
stub_given = refl

open_node-IsGuarded_example :
    (e : Entry) × ((current_entry (pos 20) film_world film_node).0 ≡ ok e)
    × (0 % 4 ≡ 0)
    × IsGuarded all_service false
        (ok true)
        decided
        film_object
        e
        (open_file (plan_view mp4_stub) direct_io)
open_node-IsGuarded_example =
    open_node-IsGuarded all_service (pos 20) film_world false (ok true) decided film_object
      film_node 0 (plan_view mp4_stub) direct_io stub_given
