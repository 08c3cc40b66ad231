-- ===== src/Syncer/Publish.antt =====
-- syncer/materialize.go: a stub is written beside its place and renamed over it.
use mediastub.Prelude.{Bool, true, false, none, some, List, [], ◌∷◌, length, ◌==◌, if◌then◌else◌}
use mediastub.Core.Base.{Bytes}
use mediastub.Core.Plan.{Extent}
use mediastub.Core.PlanHash.{hash_input}
use mediastub.Core.Probe.{Probed}
use mediastub.Syncer.Base.{
  RelPath, Error, short_write, bad_marker, MarkerStatus, valid_marker, Inspected, Time,
}
use mediastub.Syncer.World.{
  Env, Act, pure, fail, handle, ◌>>=◌, ◌>>◌, ask, asked, context, make_parent, random,
  create_temporary, truncate, write_at, set_marker, inspect_temporary, sync_file, change_mode,
  change_times, close_temporary, remove_temporary, rename, sync_directory,
}

abbrev pub is_valid : MarkerStatus → Bool
is_valid valid_marker = true
is_valid _ = false

module _ (env : Env) where
  -- The loop over the extents.
  unfoldable pub write_extents : List Extent → Act (Unit {0})
  write_extents [] = pure tt
  write_extents (e ∷ es) =
      ask env context
      >> (ask env (write_at e) >>= λ n.
          if n == length e.bytes then write_extents es else fail short_write)

  -- A valid marker is asked for, or the call returns.
  abbrev pub check_marker : Inspected → Act (Unit {0})
  check_marker found = if is_valid found.status then pure tt else fail bad_marker

  abbrev pub set_times : Time → Act (Unit {0})
  set_times none = pure tt
  set_times (some t) = ask env (change_times t)

  -- What is done to the temporary file before it is closed.
  unfoldable pub fill_temporary : (Bytes → Bytes) → Probed → Bytes → Bytes → Time → Act (Unit {0})
  unfolding write_extents
  fill_temporary digest result etag url mtime =
      ask env (truncate result.plan.logical_size)
      >> write_extents result.plan.extents
      >> ask env (
          set_marker result.format result.plan.logical_size etag (digest (hash_input result.plan))
            url)
      >> (ask env (inspect_temporary result.plan.logical_size) >>= check_marker)
      >> ask env sync_file
      >> ask env change_mode
      >> set_times mtime

  -- `cleanup(); return err`
  unfoldable pub clean_up : {A : Type 0} → Error → Act A
  clean_up e = handle (ask env remove_temporary) (λ _. fail e) (λ _. fail e)

  -- The file is closed in any case; its error counts if there was none before.
  unfoldable pub close_after : Act (Unit {0}) → Act (Unit {0})
  close_after m =
      handle m (λ e. handle (ask env close_temporary) (λ _. fail e) (λ _. fail e))
        (λ _. ask env close_temporary)

  -- `materializePlanGuarded`. `nil` for `beforeRename` is the guard that does nothing.
  unfoldable pub materialize_plan_guarded :
      (Bytes → Bytes) → RelPath → Probed → Bytes → Bytes → Time → Act (Unit {0}) → Act (Unit {0})
  unfolding fill_temporary clean_up close_after
  materialize_plan_guarded digest rel result etag url mtime before_rename =
      ask env context
      >> ask env (make_parent rel)
      >> (asked env random λ suffix. ask env (create_temporary rel suffix))
      >> handle (close_after (fill_temporary digest result etag url mtime)) clean_up (λ _.
        handle before_rename clean_up
          (λ _. handle (ask env (rename rel)) clean_up (λ _. ask env (sync_directory rel))))

  abbrev pub materialize_plan :
      (Bytes → Bytes) → RelPath → Probed → Bytes → Bytes → Time → Act (Unit {0})
  materialize_plan digest rel result etag url mtime =
      materialize_plan_guarded digest rel result etag url mtime (pure tt)
