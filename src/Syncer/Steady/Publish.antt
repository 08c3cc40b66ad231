-- ===== src/Syncer/Steady/Publish.antt =====
-- The programs of syncer/materialize.go that are quiet.
use mediastub.Prelude.{◌≡◌, true, refl, none, some, List, [], ◌∷◌, length, ◌==◌}
use mediastub.Core.Base.{Bytes}
use mediastub.Core.Plan.{Extent}
use mediastub.Core.PlanHash.{hash_input}
use mediastub.Core.Probe.{Probed}
use mediastub.Syncer.Base.{RelPath, Error, Time}
use mediastub.Syncer.World.{
  Call, stat, put, remove, Event, Env, Act, ◌>>◌, context, make_parent, random, create_temporary,
  truncate, write_at, set_marker, inspect_temporary, sync_file, change_mode, change_times,
  close_temporary, remove_temporary, rename, sync_directory,
}
use mediastub.Syncer.Publish.{
  is_valid, write_extents, set_times, fill_temporary, clean_up, close_after,
  materialize_plan_guarded,
}
use mediastub.Syncer.Steady.{
  IsClosed, IsClosedFor, is_quiet, is_writing, Steady, handle-Steady, bind-Steady, if-Steady,
  silent-Steady, fail-Steady, ask_keeps, asked-Steady,
}

module _ (env : Env) (T : List Event → Type 0) (closed : IsClosedFor is_writing T) where
  -- One quiet call whose error is returned.
  then-Steady :
      {B : Type 0} (m : Act (Unit {0})) (k : Act B) → Steady T m → Steady T k → Steady T (m >> k)
  then-Steady m k hm hk = bind-Steady T m (λ _. k) hm (λ _. hk)

  write_extents-Steady : (es : List Extent) → Steady T (write_extents env es)
  unfolding write_extents
  write_extents-Steady [] = silent-Steady T _ (λ s. refl)
  write_extents-Steady (e ∷ es) =
      then-Steady _ _ (record { keeps = ask_keeps env T closed context refl })
        (bind-Steady T _ _ (record { keeps = ask_keeps env T closed (write_at e) refl })
          λ n.
            if-Steady T (n == length e.bytes) _ _ (write_extents-Steady es)
              (silent-Steady T _ (λ s. refl)))

  set_times-Steady : (t : Time) → Steady T (set_times env t)
  set_times-Steady none = silent-Steady T _ (λ s. refl)
  set_times-Steady (some t) = (record { keeps = ask_keeps env T closed (change_times t) refl })

  pub fill_temporary-Steady :
      (digest : Bytes → Bytes) (result : Probed) (etag url : Bytes) (mtime : Time)
      → Steady T (fill_temporary env digest result etag url mtime)
  unfolding fill_temporary
  fill_temporary-Steady digest result etag url mtime =
      then-Steady _ _
        (then-Steady _ _
          (then-Steady _ _
            (then-Steady _ _
              (then-Steady _ _
                (then-Steady _ _
                  (record {
                    keeps = ask_keeps env T closed (truncate result.plan.logical_size) refl;
                  })
                  (write_extents-Steady result.plan.extents))
                (record {
                  keeps =
                      ask_keeps env T closed
                        (set_marker result.format result.plan.logical_size etag
                          (digest (hash_input result.plan)) url)
                        refl;
                }))
              (bind-Steady T _ _
                (record {
                  keeps = ask_keeps env T closed (inspect_temporary result.plan.logical_size) refl;
                })
                λ found.
                  if-Steady T (is_valid found.status) _ _ (silent-Steady T _ (λ s. refl))
                    (silent-Steady T _ (λ s. refl))))
            (record { keeps = ask_keeps env T closed sync_file refl }))
          (record { keeps = ask_keeps env T closed change_mode refl }))
        (set_times-Steady mtime)

  pub close_after-Steady : (m : Act (Unit {0})) → Steady T m → Steady T (close_after env m)
  unfolding close_after
  close_after-Steady m hm =
      handle-Steady T _ _ _ hm
        (λ e.
          handle-Steady T _ _ _ (record { keeps = ask_keeps env T closed close_temporary refl })
            (λ e'. fail-Steady T e) (λ u. fail-Steady T e))
        (λ u. (record { keeps = ask_keeps env T closed close_temporary refl }))

writing_quiet : (c : Call) → is_writing c ≡ true → is_quiet c ≡ true
writing_quiet (stat p) h = cc
writing_quiet (put p n) h = cc
writing_quiet (remove p) h = cc
writing_quiet _ h = refl

-- What no quiet call ends, no call that writes the temporary file ends.
written : (T : List Event → Type 0) → IsClosed T → IsClosedFor is_writing T
written T closed c r t h v = closed c r t (writing_quiet c h) v

module _ (env : Env) (T : List Event → Type 0) (closed : IsClosed T) where
  clean_up-Steady : {A : Type 0} (e : Error) → Steady T (clean_up env {A = A} e)
  unfolding clean_up
  clean_up-Steady e =
      handle-Steady T _ _ _ (record { keeps = ask_keeps env T closed remove_temporary refl })
        (λ e'. fail-Steady T e) (λ u. fail-Steady T e)

  pub materialize_plan_guarded-Steady :
      (digest : Bytes → Bytes) (rel : RelPath) (result : Probed) (etag url : Bytes) (mtime : Time)
      (guard : Act (Unit {0}))
      → Steady T guard
      → Steady T (materialize_plan_guarded env digest rel result etag url mtime guard)
  unfolding materialize_plan_guarded
  materialize_plan_guarded-Steady digest rel result etag url mtime guard hg =
      then-Steady env T (written T closed) _ _
        (then-Steady env T (written T closed) _ _
          (then-Steady env T (written T closed) _ _
            (record { keeps = ask_keeps env T closed context refl })
            (record { keeps = ask_keeps env T closed (make_parent rel) refl }))
          (asked-Steady env T closed random _ refl λ suffix. (record {
            keeps = ask_keeps env T closed (create_temporary rel suffix) refl;
          })))
        (handle-Steady T _ _ _
          (close_after-Steady env T (written T closed) _
            (fill_temporary-Steady env T (written T closed) digest result etag url mtime))
          (λ e. clean_up-Steady e)
          (λ u.
            handle-Steady T _ _ _ hg (λ e. clean_up-Steady e)
              (λ u.
                handle-Steady T _ _ _ (record { keeps = ask_keeps env T closed (rename rel) refl })
                  (λ e. clean_up-Steady e)
                  (λ u. (record { keeps = ask_keeps env T closed (sync_directory rel) refl })))))
