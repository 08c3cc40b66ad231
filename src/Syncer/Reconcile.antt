-- ===== src/Syncer/Reconcile.antt =====
-- syncer/media.go: `reconcileMediaFiles`, which chooses the action for each path, and the removal of
-- media units; syncer/service.go: `duplicateBlocked`.
use mediastub.Prelude.{
  Bool, true, false, not, ◌||◌, ◌&&◌, Option, none, some, List, [], ◌∷◌, ◌++◌, if◌then◌else◌, ltb,
}
use mediastub.Prelude.Int.{pos, ltb_ℤ}
use mediastub.Prelude.Maps.{Map, lookup, delete, same}
use mediastub.Core.Base.{Bytes}
use mediastub.Syncer.Base.{
  RelPath, Error, is_not_found, is_not_exist, Entry, LocalFile, Marker, MarkerStatus, no_marker,
  valid_marker, invalid_marker, marker_invalid, duplicate_remote, bad_marker, SidecarState,
  marker_matches_remote,
}
use mediastub.Paths.{behind}
use mediastub.Syncer.Sidecar.{classify_sidecar}
use mediastub.Syncer.World.{
  Env, Run, Act, pure, fail, handle, ◌>>=◌, ◌>>◌, update, view, ask, asked, inspect, access, stat,
  scan_local, remove, sync_directory,
}
use mediastub.Syncer.Media.{
  Host, media_of, set_media, set_entry, record_remote_stub, record_read_only_media,
  materialize_remote,
}
use mediastub.Syncer.Upload.{upload_local_media}

-- `duplicateBlocked`: the path itself is there twice, or it lies below a directory that is.
abbrev is_below : RelPath → RelPath → Bool
is_below rel dir = elim (behind (dir ++ (b'/' ∷ [])) rel) [ none ↦ false | some rest ↦ true ]

unfoldable pub any_dir : List Entry → Bool
any_dir [] = false
any_dir (e ∷ es) = e.is_dir || any_dir es

unfoldable pub duplicate_blocked : Map (List Entry) → RelPath → Bool
duplicate_blocked [] rel = false
duplicate_blocked ((dup, entries) ∷ rest) rel =
    same rel dup || (is_below rel dup && any_dir entries) || duplicate_blocked rest rel

-- `<` of strings
unfoldable pub less : Bytes → Bytes → Bool
less xs [] = false
less [] (y ∷ ys) = true
less (x ∷ xs) (y ∷ ys) =
    let rest = less xs ys in if ltb x y then true else if ltb y x then false else rest

-- The paths as keys of a set, sorted.
unfoldable pub insert_path : RelPath → List RelPath → List RelPath
insert_path p [] = p ∷ []
insert_path p (q ∷ qs) =
    let behind_q = insert_path p qs in
    if same p q then q ∷ qs else if less p q then p ∷ q ∷ qs else q ∷ behind_q

unfoldable pub sort_paths : List RelPath → List RelPath
unfolding insert_path
sort_paths [] = []
sort_paths (p ∷ ps) = insert_path p (sort_paths ps)

unfoldable pub keys : {A : Type 0} → (RelPath → A → Bool) → Map A → List RelPath
keys keep [] = []
keys keep ((p, a) ∷ rest) = let others = keys keep rest in if keep p a then p ∷ others else others

module _ (to_lower : Bytes → Bytes) where
  abbrev pub belongs : RelPath → RelPath → Bool
  belongs rel candidate =
      let m = classify_sidecar to_lower candidate (rel ∷ []) in
      same m.media_path rel && not m.ambiguous

  -- The sidecars whose state is dropped with the media file.
  unfoldable pub drop_sidecars : RelPath → Map SidecarState → Map SidecarState
  drop_sidecars rel [] = []
  drop_sidecars rel ((candidate, sidecar) ∷ rest) =
      let kept = drop_sidecars rel rest in
      if same sidecar.media_path rel
        || same (classify_sidecar to_lower candidate (rel ∷ [])).media_path rel
      then kept
      else (candidate, sidecar) ∷ kept

  module _ (env : Env) where
    -- `os.Remove`, where a file that is not there is as good as removed.
    abbrev pub remove_file : RelPath → Act (Unit {0})
    remove_file p =
        handle (ask env (remove p)) (λ e. if is_not_exist e then pure tt else fail e) (λ _. pure tt)

    -- The loop over the local files.
    unfoldable pub remove_sidecars : RelPath → List RelPath → Act (Unit {0})
    remove_sidecars rel [] = pure tt
    remove_sidecars rel (candidate ∷ rest) =
        if same candidate rel || not (belongs rel candidate)
        then remove_sidecars rel rest
        else remove_file candidate
          >> update (λ s. record s { sidecars = delete candidate s.sidecars })
          >> remove_sidecars rel rest

    unfoldable pub remove_local_media_unit : RelPath → Act (Unit {0})
    remove_local_media_unit rel = ask env scan_local >>= λ files.
        remove_sidecars rel files
        >> remove_file rel
        >> update
            (λ s. record s { sidecars = drop_sidecars rel s.sidecars; media = delete rel s.media })
        >> ask env (sync_directory rel)

    -- `confirmRemoteMissing`
    unfoldable pub confirm_remote_missing : RelPath → Act Bool
    confirm_remote_missing rel =
        handle (ask env (stat rel)) (λ e. if is_not_found e then pure true else fail e)
          (λ _. pure false)

    unfoldable pub remove_if_missing : RelPath → Act (Unit {0})
    remove_if_missing rel = confirm_remote_missing rel >>= λ missing.
        if missing then remove_local_media_unit rel else pure tt

module _ (to_lower : Bytes → Bytes) (host : Host) (env : Env) where
  -- A local media file without a marker where the remote has the path.
  unfoldable pub adopt_remote : RelPath → LocalFile → Entry → Act (Unit {0})
  adopt_remote rel file remote = asked env (access rel) λ writable.
      if writable
      then materialize_remote host env rel remote
      else record_read_only_media host rel remote file

  -- The same where the scan did not find the path on the remote: its absence is confirmed first.
  unfoldable pub reconcile_unmarked : RelPath → LocalFile → Act (Unit {0})
  reconcile_unmarked rel file =
      handle (ask env (stat rel))
        (λ e. if is_not_found e then upload_local_media host env rel file else fail e)
        (λ remote. set_entry rel remote >> adopt_remote rel file remote)

  unfoldable pub reconcile_stub :
      RelPath → LocalFile → Marker → Bool → Option Entry → Act (Unit {0})
  reconcile_stub rel file found remote_scan (some remote) =
      if marker_matches_remote host.digest found remote
      then record_remote_stub host rel remote file found
      else materialize_remote host env rel remote
  reconcile_stub rel file found remote_scan none =
      if remote_scan then remove_if_missing to_lower env rel else pure tt

  abbrev pub reconcile_no_marker : RelPath → LocalFile → Option Entry → Act (Unit {0})
  reconcile_no_marker rel file (some remote) = adopt_remote rel file remote
  reconcile_no_marker rel file none = reconcile_unmarked rel file

  -- The `switch` over the marker's status.
  abbrev pub reconcile_marked :
      RelPath → LocalFile → Bool → Option Entry → Marker → MarkerStatus → Act (Unit {0})
  reconcile_marked rel file remote_scan remote found invalid_marker =
      view (media_of rel) λ previous.
        set_media rel (record previous {
          managed = false;
          status = marker_invalid;
          last_error = some bad_marker;
        })
  reconcile_marked rel file remote_scan remote found no_marker = reconcile_no_marker rel file remote
  reconcile_marked rel file remote_scan remote found valid_marker =
      reconcile_stub rel file found remote_scan remote

  unfoldable pub reconcile_local : RelPath → LocalFile → Bool → Option Entry → Act (Unit {0})
  reconcile_local rel file remote_scan remote = ask env (inspect rel file.size) >>= λ found.
      reconcile_marked rel file remote_scan remote found.marker found.status

  abbrev is_some : {A : Type 0} → Option A → Bool
  is_some none = false
  is_some (some a) = true

  -- A path without a local file.
  unfoldable pub reconcile_absent : RelPath → Bool → Option Entry → Act (Unit {0})
  reconcile_absent rel remote_scan (some remote) = materialize_remote host env rel remote
  reconcile_absent rel remote_scan none =
      view (λ s. is_some (lookup rel s.media))
        λ tracked. if tracked && remote_scan then remove_if_missing to_lower env rel else pure tt

  abbrev pub reconcile_either : RelPath → Bool → Option Entry → Option LocalFile → Act (Unit {0})
  reconcile_either rel remote_scan remote none = reconcile_absent rel remote_scan remote
  reconcile_either rel remote_scan remote (some file) = reconcile_local rel file remote_scan remote

  -- One round of the loop.
  unfoldable pub reconcile_path : Map LocalFile → Bool → RelPath → Act (Unit {0})
  reconcile_path files remote_scan rel =
      view (λ s. s)
        λ s.
          if duplicate_blocked s.snapshot.duplicates rel
          then set_media rel
              (record (media_of rel s) { managed = false; status = duplicate_remote })
          else reconcile_either rel remote_scan (lookup rel s.snapshot.entries) (lookup rel files)

  -- The loop; an error is noted and the loop goes on.
  unfoldable pub reconcile_paths : Map LocalFile → Bool → List RelPath → Act (List Error)
  reconcile_paths files remote_scan [] = pure []
  reconcile_paths files remote_scan (rel ∷ rest) =
      handle (reconcile_path files remote_scan rel)
        (λ e. reconcile_paths files remote_scan rest >>= λ es. pure (e ∷ es))
        (λ _. reconcile_paths files remote_scan rest)

  -- The paths that are looked at; `matches` is the matcher's `Match`.
  unfoldable pub media_paths : (RelPath → Bool) → Map LocalFile → Run → List RelPath
  unfolding sort_paths
  media_paths matches files s = sort_paths (
      keys (λ p e. not e.is_dir && ltb_ℤ (pos 0) e.size && matches p) s.snapshot.entries
      ++ (keys (λ p f. matches p) files ++ keys (λ p m. true) s.media))

  unfoldable pub reconcile_media_files : (RelPath → Bool) → Map LocalFile → Bool → Act (List Error)
  reconcile_media_files matches files remote_scan =
      view (media_paths matches files) (reconcile_paths files remote_scan)
