-- ===== src/Syncer/Safety/Removal.antt =====
-- Removals come after a confirmed absence, and the choice among the actions keeps a history safe.
use mediastub.Prelude.{
  ◌≡◌, refl, true, false, not, ◌||◌, List, [], ◌∷◌, if◌then◌else◌, Bool-cases, inl, inr, arith,
}
use mediastub.Prelude.Maps.{same, same_refl}
use mediastub.Core.Base.{Bytes}
use mediastub.Syncer.Base.{RelPath, Error, Result, ok, err, is_not_found, is_not_exist, Entry}
use mediastub.Syncer.World.{
  Env, Run, pure, fail, settle_result, handle, stat, scan_local, sync_directory,
}
use mediastub.Syncer.Reconcile.{
  belongs, remove_file, remove_sidecars, remove_local_media_unit, confirm_remote_missing,
  remove_if_missing,
}
use mediastub.Syncer.Steady.{silent-Steady, fail-Steady, pure-Steady, ask_keeps}
use mediastub.Syncer.Safety.{absent}
use mediastub.Syncer.Safety.Leads.{
  Leads, handle-Leads, if-Leads, steadily, Safe, Absent, Absent-IsClosed,
}

module _ (to_lower : Bytes → Bytes) (env : Env) where
  -- A file of the media unit `rel` is removed.
  remove_file-Leads :
      (rel p : RelPath)
      → (same p rel || belongs to_lower rel p) ≡ true
      → Leads (Absent to_lower rel) (Absent to_lower rel) (remove_file to_lower env p)
  unfolding absent
  remove_file-Leads rel p of_unit =
      let T = Absent to_lower rel in
      handle-Leads T T T _ _ _ (record { leads = λ s h. (((rel, h.1, of_unit), h.0), h.1) })
        (λ e.
          if-Leads T T (is_not_exist e) _ _ (λ x. steadily T T _ (λ t h. h) (pure-Steady T tt))
            (λ x. steadily T T _ (λ t h. h) (fail-Steady T e)))
        (λ u. steadily T T _ (λ t h. h) (pure-Steady T tt))

  remove_sidecars-Leads :
      (rel : RelPath) (files : List RelPath)
      → Leads (Absent to_lower rel) (Absent to_lower rel) (remove_sidecars to_lower env rel files)
  unfolding remove_sidecars
  remove_sidecars-Leads rel [] =
      steadily (Absent to_lower rel) (Absent to_lower rel) _ (λ t h. h) (pure-Steady _ tt)
  remove_sidecars-Leads rel (p ∷ rest) =
      let T = Absent to_lower rel in
      if-Leads T T (same p rel || not (belongs to_lower rel p)) _ _
        (λ skipped. remove_sidecars-Leads rel rest)
        (λ taken.
          handle-Leads T T T _ _ _
            (handle-Leads T T T _ _ _ (remove_file-Leads rel p (ground arith))
              (λ e. steadily T T _ (λ t h. h) (fail-Steady T e))
              (λ u. steadily T T _ (λ t h. h) (silent-Steady T _ (λ s. refl))))
            (λ e. steadily T T _ (λ t h. h) (fail-Steady T e))
            (λ u. remove_sidecars-Leads rel rest))

  failed-Leads :
      {A : Type 0} (rel : RelPath) (e : Error)
      → Leads (Absent to_lower rel) (Absent to_lower rel) (fail {A = A} e)
  failed-Leads rel e =
      steadily (Absent to_lower rel) (Absent to_lower rel) _ (λ t h. h) (fail-Steady _ e)

  remove_local_media_unit-Leads :
      (rel : RelPath)
      → Leads (Absent to_lower rel) (Absent to_lower rel) (remove_local_media_unit to_lower env rel)
  unfolding remove_local_media_unit
  remove_local_media_unit-Leads rel =
      let T = Absent to_lower rel in
      let closed = Absent-IsClosed to_lower rel in
      handle-Leads T T T _ _ _ (record { leads = ask_keeps env T closed scan_local refl })
        (failed-Leads rel)
        λ files.
          handle-Leads T T T _ _ _
            (handle-Leads T T T _ _ _
              (handle-Leads T T T _ _ _ (remove_sidecars-Leads rel files) (failed-Leads rel)
                (λ u. remove_file-Leads rel rel (rw (same_refl rel) refl)))
              (failed-Leads rel) (λ u. steadily T T _ (λ t h. h) (silent-Steady T _ (λ s. refl))))
            (failed-Leads rel)
            (λ u. record { leads = ask_keeps env T closed (sync_directory rel) refl })

  -- `remove_if_missing` with the test of the answer moved into the branches of the question.
  pub remove_if_missing-Leads :
      (rel : RelPath) → Leads (Safe to_lower) (Safe to_lower) (remove_if_missing to_lower env rel)
  unfolding remove_if_missing confirm_remote_missing handle absent
  remove_if_missing-Leads rel = record {
    leads = λ s h. settle_missing s h (env s.trace (stat rel));
  }
    where
      settle_missing :
          (s : Run)
          → Safe to_lower s.trace
          → (r : Result Entry)
          → (let t : Run = record s { trace = record { call = stat rel; reply = r } ∷ s.trace } in
              Safe to_lower
                (settle_result
                  (settle_result
                    (r, t)
                    (λ e. if is_not_found e then pure true else fail e)
                    (λ a. pure false)
                    s)
                  fail
                  (λ missing. if missing then remove_local_media_unit to_lower env rel else pure tt)
                  s).1.trace)
      settle_missing s h (ok remote) = (tt, h)
      settle_missing s h (err e) = elim (Bool-cases (is_not_found e)) [
        | inl is_absent ↦ rw is_absent (
            ((remove_local_media_unit-Leads rel).leads _ ((tt, h), rw (same_refl rel) is_absent)).0)
        | inr other_error ↦ rw other_error (tt, h)
      ]
