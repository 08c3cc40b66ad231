-- ===== src/Tests/Worlds.antt =====
-- A small world for the synchronizer: a remote that is empty until a file is put there, and one
-- local file.
use mediastub.Prelude.{Bool, true, false, none, some, List, [], ◌∷◌, if◌then◌else◌}
use mediastub.Prelude.Int.{pos}
use mediastub.Core.Probe.{mp4, Probed}
use mediastub.Syncer.Base.{
  RelPath, not_found, ok, err, Entry, LocalFile, Marker, no_marker, valid_marker,
}
use mediastub.Syncer.World.{
  Call, Event, Env, Run, put, rename, stat, stat_local, inspect, access, probe_local, probe_entry,
  expired, random, scan_local, write_at, inspect_temporary,
}
use mediastub.Syncer.Media.{Host}
use mediastub.Tests.Files.{mp4_stub}
use mediastub.Prelude.{length}

abbrev pub film : RelPath
film = b'f' ∷ b'.' ∷ b'm' ∷ b'p' ∷ b'4' ∷ []

abbrev pub film_entry : Entry
film_entry = record {
  path = film;
  name = film;
  size = pos 35;
  mod_time = some (pos 7);
  is_dir = false;
  etag = 1 ∷ [];
  content_type = [];
}

abbrev pub film_file : LocalFile
film_file = record { path = film; size = pos 35; mod_time = pos 5; inode = 2 }

abbrev pub film_probed : Probed
film_probed = record { format = mp4; plan = mp4_stub; stats = record { bytes = 0; requests = 0 } }

abbrev marker_of_film : Marker
marker_of_film = record { remote_size = 35; remote_etag_hash = []; plan_hash = []; webdav_url = [] }

abbrev is_rename : Call → Bool
is_rename (rename p) = true
is_rename _ = false

abbrev is_put : Call → Bool
is_put (put p n) = true
is_put _ = false

abbrev pub happened : (Call → Bool) → List Event → Bool
happened test [] = false
happened test (ev ∷ t) = if test ev.call then true else happened test t

abbrev pub small_world : Env
small_world t (stat_local p) = ok film_file
small_world t (inspect p n) = ok (record {
  status = if happened is_rename t then valid_marker else no_marker;
  format = none;
  marker = marker_of_film;
})
small_world t (access p) = true
small_world t (stat p) = if happened is_put t then ok film_entry else err not_found
small_world t (put p n) = ok film_entry
small_world t (probe_local p n) = ok film_probed
small_world t (probe_entry e) = ok film_probed
small_world t expired = false
small_world t random = 9 ∷ []
small_world t scan_local = ok (film ∷ [])
small_world t (write_at e) = ok (length e.bytes)
small_world t (inspect_temporary n) =
    ok (record { status = valid_marker; format = none; marker = marker_of_film })
small_world t _ = ok tt

abbrev pub small_host : Host
small_host = record { digest = λ bs. []; remote_object_url = λ p. p; now = none; wait_rounds = 3 }

abbrev pub start : Run
start = record {
  media = [];
  sidecars = [];
  snapshot = record { entries = []; duplicates = [] };
  trace = [];
}
