-- ===== src/Tests/Syncing.antt =====
-- The theorems of the package syncer in a small world.
use mediastub.Prelude.{◌≤◌, ◌<◌, ◌⊎◌, length, ◌≡◌, refl, true, Option, none, some, [], ◌∷◌, arith}
use mediastub.Prelude.Maps.{lookup, insert, delete, same}
use mediastub.Core.PlanHash.{hash_input, hash_extents}
use mediastub.Core.PlanHash.Injective.{hash_input_injective}
use mediastub.Core.Plan.Normal.{IsNormal}
use mediastub.Syncer.Base.{
  RelPath, MediaState, MediaStatus, remote_stub, is_not_found, same_local_file, hex, is_permission,
  same_size,
}
use mediastub.Syncer.World.{handle, asked}
use mediastub.Paths.{ext, has_slash, split, dir_part, join_with, clean, base, behind}
use mediastub.Syncer.Sidecar.{
  SidecarKind, subtitle, any_same, stem_of, kind_for, matches_sidecar_stem, classify_sidecar,
}
use mediastub.Syncer.Sidecar.Longest.{classify_sidecar_longest}
use mediastub.Syncer.Reconcile.{
  reconcile_media_files, reconcile_paths, media_paths, keys, reconcile_path, duplicate_blocked,
  reconcile_local, reconcile_unmarked, insert_path, sort_paths,
}
use mediastub.Syncer.Safety.{IsSafe}
use mediastub.Syncer.Safety.Reconcile.{reconcile_media_files-IsSafe}
use mediastub.Syncer.Upload.{upload_local_media, fresh_upload, start_upload, put_media}
use mediastub.Syncer.Media.{
  wait_stable_media, before_rename, complete_media_upload, finalize_uploaded_media, probe_uploaded,
  record_remote_stub, remote_stub_of, replace_uploaded, verify_stub,
}
use mediastub.Core.Ebml.{be_bytes}
use mediastub.Syncer.Publish.{
  clean_up, close_after, fill_temporary, materialize_plan_guarded, write_extents,
}
use mediastub.Tests.Files.{mp4_stub}
use mediastub.Tests.Worlds.{film, film_file, small_world, small_host, start}

reconcile_media_files-IsSafe_example :
    IsSafe
      (λ b. b)
      (reconcile_media_files
        (λ b. b)
        small_host
        small_world
        (λ p. true)
        ((film, film_file) ∷ [])
        true
        start).1.trace
reconcile_media_files-IsSafe_example =
    reconcile_media_files-IsSafe (λ b. b) small_host small_world (λ p. true)
      ((film, film_file) ∷ []) true start tt

mp4_stub-IsNormal : IsNormal mp4_stub
mp4_stub-IsNormal = record { chain = ground arith; within = ground arith }

hash_input_injective_example : mp4_stub ≡ mp4_stub
hash_input_injective_example =
    hash_input_injective mp4_stub mp4_stub mp4_stub-IsNormal mp4_stub-IsNormal (omega arith)
      (omega arith) refl

status_of : Option MediaState → Option MediaStatus
status_of none = none
status_of (some m) = some m.status

-- The file is uploaded and then replaced by a stub.
uploaded :
    status_of (
      lookup film
        (reconcile_media_files
          (λ b. b)
          small_host
          small_world
          (λ p. true)
          ((film, film_file) ∷ [])
          true
          start).1.media)
    ≡ some remote_stub
unfolding status_of reconcile_media_files lookup insert delete same handle asked hash_input
    reconcile_paths media_paths keys reconcile_path duplicate_blocked reconcile_local
    reconcile_unmarked is_not_found upload_local_media fresh_upload wait_stable_media
    same_local_file start_upload put_media be_bytes hash_extents hex is_permission same_size
    before_rename complete_media_upload finalize_uploaded_media probe_uploaded record_remote_stub
    remote_stub_of replace_uploaded verify_stub clean_up close_after fill_temporary
    materialize_plan_guarded write_extents insert_path sort_paths
uploaded = refl

abbrev subtitles : RelPath
subtitles = b'f' ∷ b'.' ∷ b'e' ∷ b'n' ∷ b'.' ∷ b's' ∷ b'r' ∷ b't' ∷ []

subtitles_of_film : kind_for (λ b. b) subtitles film ≡ some subtitle
unfolding matches_sidecar_stem same any_same ext has_slash split dir_part join_with clean base
    behind
subtitles_of_film = refl

classify_sidecar_longest_example :
    let m = classify_sidecar (λ b. b) subtitles (film ∷ []) in
    (any_same m.media_path (film ∷ []) ≡ true)
    × ((k : SidecarKind) × (m.kind ≡ some k) × (kind_for (λ b. b) subtitles m.media_path ≡ some k))
    × (length (stem_of (λ b. b) film) ≤ length (stem_of (λ b. b) m.media_path))
    × ((m.ambiguous ≡ true)
        ⊎ ((length (stem_of (λ b. b) film) < length (stem_of (λ b. b) m.media_path))
            ⊎ (film ≡ m.media_path)))
classify_sidecar_longest_example =
    classify_sidecar_longest (λ b. b) subtitles film subtitle (film ∷ [])
      (unfold any_same same in refl) subtitles_of_film
