-- ===== src/Syncer/Safety/Reconcile.antt =====
-- The choice among the actions keeps a history safe.
use mediastub.Prelude.{refl, Bool, Option, none, some, List, [], ◌∷◌}
use mediastub.Prelude.Maps.{Map, lookup}
use mediastub.Core.Base.{Bytes}
use mediastub.Syncer.Base.{
  RelPath, Entry, LocalFile, Marker, MarkerStatus, no_marker, valid_marker, invalid_marker,
  marker_matches_remote,
}
use mediastub.Syncer.World.{Event, Env, Run, Act, access, inspect}
use mediastub.Syncer.Media.{Host}
use mediastub.Syncer.Reconcile.{
  adopt_remote, reconcile_unmarked, reconcile_stub, reconcile_marked, reconcile_local,
  reconcile_absent, reconcile_either, reconcile_path, reconcile_paths, reconcile_media_files,
  media_paths, duplicate_blocked,
}
use mediastub.Syncer.Steady.{
  Steady, if-Steady, silent-Steady, fail-Steady, pure-Steady, ask_keeps, asked-Steady,
}
use mediastub.Syncer.Steady.Programs.{
  materialize_remote-Steady, record_preserved_media-Steady, record_remote_stub-Steady,
}
use mediastub.Syncer.Safety.{IsSafe}
use mediastub.Syncer.Safety.Leads.{
  Leads, handle-Leads, if-Leads, steadily, Safe, IsSafe-IsClosed, stat-Leads,
}
use mediastub.Syncer.Safety.Upload.{upload_local_media-Leads}
use mediastub.Syncer.Safety.Removal.{remove_if_missing-Leads}

module _ (to_lower : Bytes → Bytes) (host : Host) (env : Env) where
  abbrev Keeping : {A : Type 0} → Act A → Type 0
  Keeping m = Leads (Safe to_lower) (Safe to_lower) m

  steady : {A : Type 0} (m : Act A) → Steady (Safe to_lower) m → Keeping m
  steady m h = steadily (Safe to_lower) (Safe to_lower) m (λ t h. h) h

  adopt_remote-Keeping :
      (rel : RelPath) (file : LocalFile) (remote : Entry)
      → Keeping (adopt_remote to_lower host env rel file remote)
  unfolding adopt_remote
  adopt_remote-Keeping rel file remote =
      let T : List Event → Type 0 = Safe to_lower in
      let closed = IsSafe-IsClosed to_lower in
      steady _ (
        asked-Steady env T closed (access rel) _ refl λ writable.
          if-Steady T writable _ _ (materialize_remote-Steady host env T closed rel remote)
            (record_preserved_media-Steady host env T closed rel remote file []))

  reconcile_unmarked-Keeping :
      (rel : RelPath) (file : LocalFile) → Keeping (reconcile_unmarked to_lower host env rel file)
  unfolding reconcile_unmarked
  reconcile_unmarked-Keeping rel file =
      let T : List Event → Type 0 = Safe to_lower in
      stat-Leads to_lower env rel _ _
        (λ e is_absent. rw is_absent (upload_local_media-Leads to_lower host env rel file))
        (λ e other_error. rw other_error (steady _ (fail-Steady T e)))
        (λ remote.
          handle-Leads T T T _ _ _ (steady _ (silent-Steady T _ (λ s. refl)))
            (λ e. steady _ (fail-Steady T e)) (λ u. adopt_remote-Keeping rel file remote))

  reconcile_stub-Keeping :
      (rel : RelPath) (file : LocalFile) (found : Marker) (remote_scan : Bool)
      (remote : Option Entry)
      → Keeping (reconcile_stub to_lower host env rel file found remote_scan remote)
  unfolding reconcile_stub
  reconcile_stub-Keeping rel file found remote_scan (some remote) =
      let T : List Event → Type 0 = Safe to_lower in
      let closed = IsSafe-IsClosed to_lower in
      steady _ (
        if-Steady T (marker_matches_remote host.digest found remote) _ _
          (record_remote_stub-Steady host env T closed rel remote file found)
          (materialize_remote-Steady host env T closed rel remote))
  reconcile_stub-Keeping rel file found remote_scan none =
      let T : List Event → Type 0 = Safe to_lower in
      if-Leads T T remote_scan _ _ (λ e. remove_if_missing-Leads to_lower env rel)
        (λ e. steady _ (pure-Steady T tt))

  reconcile_marked-Keeping :
      (rel : RelPath) (file : LocalFile) (remote_scan : Bool) (remote : Option Entry)
      (found : Marker) (status : MarkerStatus)
      → Keeping (reconcile_marked to_lower host env rel file remote_scan remote found status)
  reconcile_marked-Keeping rel file remote_scan remote found invalid_marker =
      steady _ (silent-Steady (Safe to_lower) _ (λ s. refl))
  reconcile_marked-Keeping rel file remote_scan (some remote) found no_marker =
      adopt_remote-Keeping rel file remote
  reconcile_marked-Keeping rel file remote_scan none found no_marker =
      reconcile_unmarked-Keeping rel file
  reconcile_marked-Keeping rel file remote_scan remote found valid_marker =
      reconcile_stub-Keeping rel file found remote_scan remote

  reconcile_either-Keeping :
      (rel : RelPath) (remote_scan : Bool) (remote : Option Entry) (file : Option LocalFile)
      → Keeping (reconcile_either to_lower host env rel remote_scan remote file)
  unfolding reconcile_absent reconcile_local
  reconcile_either-Keeping rel remote_scan (some remote) none =
      steady _
        (materialize_remote-Steady host env (Safe to_lower) (IsSafe-IsClosed to_lower) rel remote)
  reconcile_either-Keeping rel remote_scan none none = record {
    leads = λ s.
        (if-Leads (Safe to_lower) (Safe to_lower) _ _ _
            (λ e. remove_if_missing-Leads to_lower env rel)
            (λ e. steady _ (pure-Steady (Safe to_lower) tt))).leads
          s;
  }
  reconcile_either-Keeping rel remote_scan remote (some file) =
      let T : List Event → Type 0 = Safe to_lower in
      handle-Leads T T T _ _ _
        (record { leads = ask_keeps env T (IsSafe-IsClosed to_lower) (inspect rel file.size) refl })
        (λ e. steady _ (fail-Steady T e))
        (λ found. reconcile_marked-Keeping rel file remote_scan remote found.marker found.status)

  reconcile_path-Keeping :
      (files : Map LocalFile) (remote_scan : Bool) (rel : RelPath)
      → Keeping (reconcile_path to_lower host env files remote_scan rel)
  unfolding reconcile_path
  reconcile_path-Keeping files remote_scan rel = record {
    leads = λ s.
        (if-Leads (Safe to_lower) (Safe to_lower) (duplicate_blocked s.snapshot.duplicates rel) _ _
            (λ e. steady _ (silent-Steady (Safe to_lower) _ (λ s. refl)))
            (λ e.
              reconcile_either-Keeping rel remote_scan (lookup rel s.snapshot.entries)
                (lookup rel files))).leads
          s;
  }

  reconcile_paths-Keeping :
      (files : Map LocalFile) (remote_scan : Bool) (rels : List RelPath)
      → Keeping (reconcile_paths to_lower host env files remote_scan rels)
  unfolding reconcile_paths
  reconcile_paths-Keeping files remote_scan [] = steady _ (pure-Steady (Safe to_lower) _)
  reconcile_paths-Keeping files remote_scan (rel ∷ rest) =
      let T : List Event → Type 0 = Safe to_lower in
      handle-Leads T T T _ _ _ (reconcile_path-Keeping files remote_scan rel)
        (λ e.
          handle-Leads T T T _ _ _ (reconcile_paths-Keeping files remote_scan rest)
            (λ e'. steady _ (fail-Steady T e')) (λ es. steady _ (pure-Steady T _)))
        (λ u. reconcile_paths-Keeping files remote_scan rest)

-- Whatever the world answers, a pass over the media files from a safe history leaves a safe
-- history: before each upload of a path the last answer of the remote about it was that it is not
-- there, with no upload of it since, and the last save succeeded and has the path as being uploaded;
-- before each removal of a local file the last answer about a media file to whose unit it belongs was
-- that it is not there, with no upload of that one since.
pub reconcile_media_files-IsSafe :
    (to_lower : Bytes → Bytes) (host : Host) (env : Env) (matches : RelPath → Bool)
    (files : Map LocalFile) (remote_scan : Bool) (s : Run)
    → IsSafe to_lower s.trace
    → IsSafe to_lower (reconcile_media_files to_lower host env matches files remote_scan s).1.trace
unfolding reconcile_media_files
reconcile_media_files-IsSafe to_lower host env matches files remote_scan s h =
    (reconcile_paths-Keeping to_lower host env files remote_scan
        (media_paths to_lower host env matches files s)).leads
      s h
