-- ===== src/Syncer/Upload.antt =====
-- syncer/media.go: `uploadLocalMedia` and the recovery of an upload of unknown outcome.
use mediastub.Prelude.{Bool, true, false, Option, none, some, [], if◌then◌else◌}
use mediastub.Prelude.Maps.{same}
use mediastub.Core.Base.{Bytes}
use mediastub.Core.Probe.{Probed}
use mediastub.Syncer.Base.{
  RelPath, Stage, transfer, response, verify, Error, is_not_found, put_stage, joined,
  upload_conflict, Entry, LocalFile, MediaStatus, pending_upload, uploading, upload_failed,
  verification_pending, outcome_unknown, probe_failed, MediaState,
}
use mediastub.Syncer.World.{
  Env, Act, fail, handle, ◌>>◌, view, ask, asked, stat, put, open_local, close_local, probe_local,
  random,
}
use mediastub.Syncer.Media.{
  Host, media_of, set_media, is_verified, wait_stable_media, save_state, complete_media_upload,
}

-- The states after which the outcome of an upload is not known.
abbrev pub is_uncertain : MediaStatus → Bool
is_uncertain verification_pending = true
is_uncertain outcome_unknown = true
is_uncertain uploading = true
is_uncertain _ = false

-- What a failed `Put` says of its outcome.
abbrev pub status_of_stage : Option Stage → MediaStatus
status_of_stage none = upload_failed
status_of_stage (some verify) = verification_pending
status_of_stage (some transfer) = outcome_unknown
status_of_stage (some response) = outcome_unknown

abbrev pub failed_with : {A : Type 0} → RelPath → MediaState → Error → Act A
failed_with rel m e = set_media rel (record m { last_error = some e }) >> fail e

module _ (host : Host) (env : Env) where
  -- The recovered object has the size of the local file and an ETag.
  unfoldable pub recover_verified : RelPath → LocalFile → Entry → Bytes → Act (Unit {0})
  recover_verified rel initial remote transaction =
      ask env (open_local rel)
      >> handle (ask env (probe_local rel initial.size))
          (λ e. handle (ask env (close_local rel)) (λ e'. fail (joined e e')) (λ _. fail e))
          (λ probe.
            let complete = complete_media_upload host env rel initial remote transaction probe in
            handle (ask env (close_local rel)) (λ _. complete) (λ _. complete))

  -- The error of a failed `Put`, after the source is closed.
  unfoldable pub put_failed : RelPath → MediaState → Error → Act (Unit {0})
  put_failed rel m e =
      let recorded : Error → Act (Unit {0}) =
        λ e'. failed_with rel (record m { status = status_of_stage (put_stage e') }) e' in
      handle (ask env (close_local rel)) (λ e'. recorded (joined e e')) (λ _. recorded e)

  -- The upload of a file that is stable and can be probed; `m` is its state.
  unfoldable pub put_media : RelPath → LocalFile → MediaState → Probed → Act (Unit {0})
  put_media rel stable m probe = handle (ask env (put rel stable.size)) (put_failed rel m) λ remote.
      let complete = complete_media_upload host env rel stable remote m.transaction probe in
      handle (ask env (close_local rel)) (λ _. complete) (λ _. complete)

  -- A failed probe of the local file; the error of `Close` is dropped.
  unfoldable pub local_probe_failed : RelPath → MediaState → Error → Act (Unit {0})
  local_probe_failed rel m e =
      let recorded : Act (Unit {0}) = failed_with rel (record m { status = probe_failed }) e in
      handle (ask env (close_local rel)) (λ _. recorded) (λ _. recorded)

  -- `previous.Status = mediaUploading` is saved before the upload begins.
  unfoldable pub start_upload : RelPath → LocalFile → MediaState → Probed → Act (Unit {0})
  start_upload rel stable m probe =
      let started : MediaState = record m { status = uploading } in
      set_media rel started
      >> handle (save_state host env)
          (λ e. handle (ask env (close_local rel)) (λ _. fail e) (λ _. fail e))
          (λ _. put_media rel stable started probe)

  -- The part of `uploadLocalMedia` behind the recovery; `m` is the previous state.
  unfoldable pub fresh_upload : RelPath → LocalFile → Bytes → MediaState → Act (Unit {0})
  fresh_upload rel initial transaction previous =
      let m : MediaState = record previous {
        managed = false;
        status = pending_upload;
        transaction = transaction;
        last_error = none;
      } in
      set_media rel m
      >> save_state host env
      >> handle (wait_stable_media host env host.wait_rounds rel initial) (failed_with rel m)
          λ stable.
            ask env (open_local rel)
            >> handle (ask env (probe_local rel stable.size)) (local_probe_failed rel m)
                (start_upload rel stable m)

  unfoldable pub recover_upload : RelPath → LocalFile → Bytes → MediaState → Act (Unit {0})
  recover_upload rel initial transaction previous =
      handle (ask env (stat rel))
        (λ e.
          if is_not_found e
          then fresh_upload rel initial transaction previous
          else failed_with rel previous e)
        (λ remote.
          if is_verified initial remote
          then recover_verified rel initial remote transaction
          else failed_with rel previous upload_conflict)

  -- `randomSuffix` is called in any case; a transaction that is known is kept.
  unfoldable pub upload_local_media : RelPath → LocalFile → Act (Unit {0})
  upload_local_media rel initial = asked env random λ suffix. view (media_of rel) λ previous.
      let transaction = if same previous.transaction [] then suffix else previous.transaction in
      if is_uncertain previous.status
      then recover_upload rel initial transaction previous
      else fresh_upload rel initial transaction previous
