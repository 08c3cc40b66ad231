-- ===== src/Syncer/Media.antt =====
-- syncer/media.go: the states of media files, and the actions that move them.
use mediastub.Prelude.{
  ℕ, zero, suc, Bool, true, false, not, ◌&&◌, Option, none, some, [], if◌then◌else◌,
}
use mediastub.Prelude.Int.{ℤ}
use mediastub.Prelude.Maps.{lookup, insert, same}
use mediastub.Core.Base.{Bytes}
use mediastub.Core.Probe.{Probed}
use mediastub.Syncer.Base.{
  RelPath, Error, is_permission, not_settled, changed_locally, unverified, bad_marker, permission,
  out_of_rounds, Entry, LocalFile, Marker, MediaStatus, remote_stub, pending_upload,
  verification_pending, probe_failed, stub_failed, local_read_only, MediaState, zero_media, Time,
  same_size, same_local_file, hex,
}
use mediastub.Syncer.World.{
  Env, Run, Act, pure, fail, handle, ◌>>=◌, ◌>>◌, update, view, ask, asked, stat_local, inspect,
  access, open_local, close_local, probe_local, probe_entry, save, wait, expired,
}
use mediastub.Syncer.Publish.{materialize_plan, materialize_plan_guarded, is_valid}

abbrev pub media_of : RelPath → Run → MediaState
media_of rel s = elim (lookup rel s.media) [ none ↦ zero_media | some m ↦ m ]

-- `s.state.Media[rel] = m`
abbrev pub set_media : RelPath → MediaState → Act (Unit {0})
set_media rel m = update λ s. record s { media = insert rel m s.media }

-- `s.snapshot.Entries[rel] = remote`
abbrev pub set_entry : RelPath → Entry → Act (Unit {0})
set_entry rel remote = update λ s. record s {
  snapshot = record s.snapshot { entries = insert rel remote s.snapshot.entries };
}

-- `previous := s.state.Media[rel]` with a status and an error, and the error is returned.
abbrev pub fail_as : {A : Type 0} → RelPath → MediaStatus → Error → Act A
fail_as rel status e =
    view (media_of rel)
      λ previous. set_media rel (record previous { status = status; last_error = some e }) >> fail e

-- The digest, the URL of a path, the current time and the most rounds of a wait are the host's.
pub record Host : Type 0 where
  pub digest : Bytes → Bytes
  pub remote_object_url : RelPath → Bytes
  pub now : Time
  pub wait_rounds : ℕ

abbrev pub is_verified : LocalFile → Entry → Bool
is_verified local remote = same_size remote.size local.size && not (same remote.etag [])

module _ (host : Host) where
  unfoldable pub remote_stub_of : Entry → LocalFile → Marker → MediaState
  unfolding hex
  remote_stub_of remote local found = record {
    managed = true;
    fingerprint = some (record {
      path = remote.path;
      size = remote.size;
      mod_time = remote.mod_time;
      etag = remote.etag;
    });
    etag = remote.etag;
    size = remote.size;
    remote_mod_time = remote.mod_time;
    local_mod_time = some local.mod_time;
    local_size = local.size;
    plan_hash = hex found.plan_hash;
    last_seen = host.now;
    status = remote_stub;
    last_error = none;
    transaction = [];
  }

  -- `recordRemoteStub`
  unfoldable pub record_remote_stub : RelPath → Entry → LocalFile → Marker → Act (Unit {0})
  record_remote_stub rel remote local found = set_media rel (remote_stub_of remote local found)

  -- `recordPreservedMedia`
  unfoldable pub record_preserved_media : RelPath → Entry → LocalFile → Bytes → Act (Unit {0})
  record_preserved_media rel remote local transaction = set_media rel (record {
    managed = false;
    fingerprint = some (record {
      path = remote.path;
      size = remote.size;
      mod_time = remote.mod_time;
      etag = remote.etag;
    });
    etag = remote.etag;
    size = remote.size;
    remote_mod_time = remote.mod_time;
    local_mod_time = some local.mod_time;
    local_size = local.size;
    plan_hash = [];
    last_seen = host.now;
    status = local_read_only;
    last_error = none;
    transaction = transaction;
  })

  -- `recordReadOnlyMedia` is the same without a transaction.
  abbrev pub record_read_only_media : RelPath → Entry → LocalFile → Act (Unit {0})
  record_read_only_media rel remote local = record_preserved_media rel remote local []

module _ (host : Host) (env : Env) where
  -- The check of a stub that has been published, and its record.
  unfoldable pub verify_stub : RelPath → Entry → Act (Unit {0})
  verify_stub rel remote = ask env (stat_local rel) >>= λ local.
      ask env (inspect rel local.size) >>= λ found.
      if is_valid found.status
      then record_remote_stub host rel remote local found.marker
      else fail bad_marker

  unfoldable pub materialize_remote : RelPath → Entry → Act (Unit {0})
  materialize_remote rel remote =
      handle (ask env (probe_entry remote)) (fail_as rel probe_failed) λ result.
        handle
          (materialize_plan env host.digest rel result remote.etag (host.remote_object_url rel)
            remote.mod_time)
          (fail_as rel stub_failed) λ _. verify_stub rel remote

  -- The loop of `waitStableMedia`, with the rounds that are left.
  unfoldable pub wait_stable_media : ℕ → RelPath → LocalFile → Act LocalFile
  wait_stable_media zero rel previous = fail out_of_rounds
  wait_stable_media (suc rounds) rel previous =
      ask env wait
      >> (ask env (stat_local rel) >>= λ current.
          if same_local_file previous current
          then pure current
          else asked env expired
              λ late. if late then fail not_settled else wait_stable_media rounds rel current)

  -- `beforeRename` of `finalizeUploadedMedia`
  unfoldable pub before_rename : RelPath → LocalFile → Act (Unit {0})
  before_rename rel current = ask env (stat_local rel) >>= λ latest.
      if same_local_file current latest
      then asked env (access rel) (λ writable. if writable then pure tt else fail permission)
      else fail changed_locally

  -- The probe of `finalizeUploadedMedia`, if it was not handed one.
  unfoldable pub probe_uploaded : RelPath → ℤ → Option Probed → Act Probed
  probe_uploaded rel size (some probe) = pure probe
  probe_uploaded rel size none =
      ask env (open_local rel)
      >> handle (ask env (probe_local rel size))
          (λ e.
            handle (ask env (close_local rel)) (λ _. fail_as rel probe_failed e)
              (λ _. fail_as rel probe_failed e))
          (λ probe. handle (ask env (close_local rel)) (fail_as rel probe_failed) (λ _. pure probe))

  abbrev pub preserve : RelPath → Entry → LocalFile → Bytes → Act (Unit {0})
  preserve rel remote local transaction =
      record_preserved_media host rel remote local transaction >> set_entry rel remote

  -- `finalizeUploadedMedia` behind its checks of the local file.
  unfoldable pub replace_uploaded :
      RelPath → LocalFile → Entry → Bytes → Option Probed → Act (Unit {0})
  replace_uploaded rel current remote transaction probe =
      probe_uploaded rel current.size probe >>= λ result.
      handle
        (materialize_plan_guarded env host.digest rel result remote.etag
          (host.remote_object_url rel) remote.mod_time (before_rename rel current))
        (λ e.
          if is_permission e
          then preserve rel remote current transaction
          else fail_as rel stub_failed e)
        λ _. verify_stub rel remote >> set_entry rel remote

  unfoldable pub finalize_uploaded_media :
      RelPath → LocalFile → Entry → Bytes → Option Probed → Act (Unit {0})
  finalize_uploaded_media rel local remote transaction probe = asked env (access rel) λ writable.
      if not writable
      then preserve rel remote local transaction
      else ask env (stat_local rel) >>= λ current.
          if same_local_file local current
          then replace_uploaded rel current remote transaction probe
          else fail changed_locally

  -- `s.store.Save(s.state)`
  abbrev pub save_state : Act (Unit {0})
  save_state s = ask env (save s.media s.sidecars) s

  unfoldable pub complete_media_upload :
      RelPath → LocalFile → Entry → Bytes → Probed → Act (Unit {0})
  complete_media_upload rel stable remote transaction probe = view (media_of rel) λ previous.
      ask env (stat_local rel) >>= λ after.
      if not (same_local_file stable after)
      then set_media rel
          (record previous { status = pending_upload; last_error = some changed_locally })
        >> fail changed_locally
      else if not (is_verified stable remote)
      then set_media rel
          (record previous { status = verification_pending; last_error = some unverified })
        >> fail unverified
      else set_entry rel remote
        >> save_state
        >> finalize_uploaded_media rel stable remote transaction (some probe)
