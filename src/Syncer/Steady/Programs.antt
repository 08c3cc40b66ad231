-- ===== src/Syncer/Steady/Programs.antt =====
-- The programs of syncer/media.go that are quiet.
use mediastub.Prelude.{refl, not, Option, none, some, List, ℕ, zero, suc}
use mediastub.Prelude.Int.{ℤ}
use mediastub.Core.Base.{Bytes}
use mediastub.Core.Probe.{Probed}
use mediastub.Syncer.Base.{
  RelPath, Error, Entry, LocalFile, MediaStatus, MediaState, is_permission, same_local_file, Marker,
}
use mediastub.Syncer.World.{
  Event, Env, fail, handle, stat_local, inspect, access, wait, expired, open_local, close_local,
  probe_local, probe_entry, save,
}
use mediastub.Syncer.Publish.{is_valid}
use mediastub.Syncer.Media.{
  Host, set_media, fail_as, record_remote_stub, record_preserved_media, verify_stub,
  materialize_remote, wait_stable_media, before_rename, probe_uploaded, preserve, replace_uploaded,
  finalize_uploaded_media, save_state, complete_media_upload, is_verified,
}
use mediastub.Syncer.Steady.{
  IsClosed, Steady, handle-Steady, bind-Steady, if-Steady, silent-Steady, pure-Steady, ask_keeps,
  asked-Steady,
}
use mediastub.Syncer.Steady.Publish.{materialize_plan_guarded-Steady}

module _ (T : List Event → Type 0) where
  pub fail_as-Steady :
      {A : Type 0} (rel : RelPath) (status : MediaStatus) (e : Error)
      → Steady T (fail_as {A = A} rel status e)
  unfolding handle
  fail_as-Steady rel status e = record { keeps = λ s h. h }

  pub set_fail-Steady :
      {A : Type 0} (rel : RelPath) (m : MediaState) (e : Error)
      → Steady T (handle {B = A} (set_media rel m) fail (λ u. fail e))
  unfolding handle
  set_fail-Steady rel m e = record { keeps = λ s h. h }

module _ (host : Host) (env : Env) (T : List Event → Type 0) (closed : IsClosed T) where
  pub record_remote_stub-Steady :
      (rel : RelPath) (remote : Entry) (local : LocalFile) (found : Marker)
      → Steady T (record_remote_stub host rel remote local found)
  unfolding record_remote_stub
  record_remote_stub-Steady rel remote local found = silent-Steady T _ (λ s. refl)

  pub record_preserved_media-Steady :
      (rel : RelPath) (remote : Entry) (local : LocalFile) (transaction : Bytes)
      → Steady T (record_preserved_media host rel remote local transaction)
  unfolding record_preserved_media
  record_preserved_media-Steady rel remote local transaction = silent-Steady T _ (λ s. refl)

  verify_stub-Steady : (rel : RelPath) (remote : Entry) → Steady T (verify_stub host env rel remote)
  unfolding verify_stub
  verify_stub-Steady rel remote =
      bind-Steady T _ _ (record { keeps = ask_keeps env T closed (stat_local rel) refl })
        λ local.
          bind-Steady T _ _
            (record { keeps = ask_keeps env T closed (inspect rel local.size) refl })
            λ found.
              if-Steady T (is_valid found.status) _ _
                (record_remote_stub-Steady rel remote local found.marker)
                (silent-Steady T _ (λ s. refl))

  pub materialize_remote-Steady :
      (rel : RelPath) (remote : Entry) → Steady T (materialize_remote host env rel remote)
  unfolding materialize_remote
  materialize_remote-Steady rel remote =
      handle-Steady T _ _ _ (record { keeps = ask_keeps env T closed (probe_entry remote) refl })
        (λ e. fail_as-Steady T rel _ e)
        λ result.
          handle-Steady T _ _ _
            (materialize_plan_guarded-Steady env T closed host.digest rel result remote.etag _
              remote.mod_time _ (pure-Steady T tt))
            (λ e. fail_as-Steady T rel _ e) (λ u. verify_stub-Steady rel remote)

  pub wait_stable_media-Steady :
      (rounds : ℕ) (rel : RelPath) (previous : LocalFile)
      → Steady T (wait_stable_media host env rounds rel previous)
  unfolding wait_stable_media
  wait_stable_media-Steady zero rel previous = silent-Steady T _ (λ s. refl)
  wait_stable_media-Steady (suc rounds) rel previous =
      bind-Steady T _ _ (record { keeps = ask_keeps env T closed wait refl })
        λ u.
          bind-Steady T _ _ (record { keeps = ask_keeps env T closed (stat_local rel) refl })
            λ current.
              if-Steady T (same_local_file previous current) _ _ (silent-Steady T _ (λ s. refl)) (
                asked-Steady env T closed expired _ refl λ late.
                  if-Steady T late _ _ (silent-Steady T _ (λ s. refl))
                    (wait_stable_media-Steady rounds rel current))

  before_rename-Steady :
      (rel : RelPath) (current : LocalFile) → Steady T (before_rename host env rel current)
  unfolding before_rename
  before_rename-Steady rel current =
      bind-Steady T _ _ (record { keeps = ask_keeps env T closed (stat_local rel) refl })
        λ latest.
          if-Steady T (same_local_file current latest) _ _
            (asked-Steady env T closed (access rel) _ refl λ writable.
              if-Steady T writable _ _ (silent-Steady T _ (λ s. refl))
                (silent-Steady T _ (λ s. refl)))
            (silent-Steady T _ (λ s. refl))

  probe_uploaded-Steady :
      (rel : RelPath) (size : ℤ) (probe : Option Probed)
      → Steady T (probe_uploaded host env rel size probe)
  unfolding probe_uploaded
  probe_uploaded-Steady rel size (some probe) = silent-Steady T _ (λ s. refl)
  probe_uploaded-Steady rel size none =
      bind-Steady T _ _ (record { keeps = ask_keeps env T closed (open_local rel) refl })
        λ u.
          handle-Steady T _ _ _
            (record { keeps = ask_keeps env T closed (probe_local rel size) refl })
            (λ e.
              handle-Steady T _ _ _
                (record { keeps = ask_keeps env T closed (close_local rel) refl })
                (λ e'. fail_as-Steady T rel _ e) (λ u. fail_as-Steady T rel _ e))
            (λ probe.
              handle-Steady T _ _ _
                (record { keeps = ask_keeps env T closed (close_local rel) refl })
                (λ e. fail_as-Steady T rel _ e) (λ u. pure-Steady T probe))

  preserve-Steady :
      (rel : RelPath) (remote : Entry) (local : LocalFile) (transaction : Bytes)
      → Steady T (preserve host env rel remote local transaction)
  preserve-Steady rel remote local transaction =
      bind-Steady T _ _ (record_preserved_media-Steady rel remote local transaction)
        (λ u. silent-Steady T _ (λ s. refl))

  finalize_uploaded_media-Steady :
      (rel : RelPath) (local : LocalFile) (remote : Entry) (transaction : Bytes)
      (probe : Option Probed)
      → Steady T (finalize_uploaded_media host env rel local remote transaction probe)
  unfolding finalize_uploaded_media replace_uploaded
  finalize_uploaded_media-Steady rel local remote transaction probe =
      asked-Steady env T closed (access rel) _ refl λ writable.
        if-Steady T (not writable) _ _ (preserve-Steady rel remote local transaction) (
          bind-Steady T _ _ (record { keeps = ask_keeps env T closed (stat_local rel) refl })
            λ current.
              if-Steady T (same_local_file local current) _ _
                (bind-Steady T _ _ (probe_uploaded-Steady rel current.size probe) λ result.
                  handle-Steady T _ _ _
                    (materialize_plan_guarded-Steady env T closed host.digest rel result remote.etag
                      _ remote.mod_time _ (before_rename-Steady rel current))
                    (λ e.
                      if-Steady T (is_permission e) _ _
                        (preserve-Steady rel remote current transaction) (fail_as-Steady T rel _ e))
                    (λ u.
                      bind-Steady T _ _ (verify_stub-Steady rel remote)
                        (λ u. silent-Steady T _ (λ s. refl))))
                (silent-Steady T _ (λ s. refl)))

  pub save_state-Steady : Steady T (save_state host env)
  save_state-Steady = record {
    keeps = λ s h. ask_keeps env T closed (save s.media s.sidecars) refl s h;
  }

  pub complete_media_upload-Steady :
      (rel : RelPath) (stable : LocalFile) (remote : Entry) (transaction : Bytes) (probe : Probed)
      → Steady T (complete_media_upload host env rel stable remote transaction probe)
  unfolding complete_media_upload
  complete_media_upload-Steady rel stable remote transaction probe = record {
    keeps = λ s.
        (bind-Steady T _ _ (record { keeps = ask_keeps env T closed (stat_local rel) refl })
            (λ after.
              if-Steady T (not (same_local_file stable after)) _ _ (set_fail-Steady T rel _ _) (
                if-Steady T (not (is_verified stable remote)) _ _ (set_fail-Steady T rel _ _) (
                  bind-Steady T _ _
                    (bind-Steady T _ _ (silent-Steady T _ (λ s. refl)) (λ u. save_state-Steady))
                    (λ u.
                      finalize_uploaded_media-Steady rel stable remote transaction
                        (some probe)))))).keeps
          s;
  }
