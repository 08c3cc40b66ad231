-- ===== src/Syncer/Safety/Upload.antt =====
-- An upload begins only where the remote does not have the path.
use mediastub.Prelude.{◌≡◌, refl, true, List, ◌∷◌}
use mediastub.Prelude.Maps.{lookup, insert, lookup-insert}
use mediastub.Core.Base.{Bytes}
use mediastub.Core.Probe.{Probed}
use mediastub.Syncer.Base.{RelPath, Error, Result, ok, err, Entry, LocalFile, MediaState, uploading}
use mediastub.Syncer.World.{
  Event, Env, Run, Act, settle_result, handle, asked, save, open_local, close_local, probe_local,
  random,
}
use mediastub.Syncer.Media.{Host, media_of, is_verified}
use mediastub.Syncer.Upload.{
  is_uncertain, recover_verified, put_failed, put_media, local_probe_failed, start_upload,
  fresh_upload, recover_upload, upload_local_media,
}
use mediastub.Syncer.Steady.{
  Steady, handle-Steady, bind-Steady, silent-Steady, fail-Steady, ask_keeps,
}
use mediastub.Syncer.Steady.Programs.{
  set_fail-Steady, save_state-Steady, complete_media_upload-Steady, wait_stable_media-Steady,
}
use mediastub.Syncer.Safety.{absent, journaled, has_uploading}
use mediastub.Syncer.Safety.Leads.{
  Leads, handle-Leads, if-Leads, steadily, Safe, Absent, Started, IsSafe-IsClosed, Absent-IsClosed,
  Absent-Safe, stat-Leads,
}

module _ (to_lower : Bytes → Bytes) (host : Host) (env : Env) where
  put_failed-Steady :
      (rel : RelPath) (m : MediaState) (e : Error)
      → Steady (Safe to_lower) (put_failed host env rel m e)
  unfolding put_failed
  put_failed-Steady rel m e =
      handle-Steady (Safe to_lower) _ _ _
        (record {
          keeps = ask_keeps env (Safe to_lower) (IsSafe-IsClosed to_lower) (close_local rel) refl;
        })
        (λ e'. set_fail-Steady (Safe to_lower) rel _ _)
        (λ u. set_fail-Steady (Safe to_lower) rel _ _)

  put_media-Leads :
      (rel : RelPath) (stable : LocalFile) (m : MediaState) (probe : Probed)
      → Leads (Started to_lower rel) (Safe to_lower) (put_media host env rel stable m probe)
  unfolding put_media
  put_media-Leads rel stable m probe =
      handle-Leads (Started to_lower rel) (Safe to_lower) (Safe to_lower) _ _ _
        (record { leads = λ s h. ((h.1, h.2), h.0) })
        (λ e. steadily (Safe to_lower) (Safe to_lower) _ (λ t h. h) (put_failed-Steady rel m e))
        (λ remote.
          steadily (Safe to_lower) (Safe to_lower) _ (λ t h. h)
            (handle-Steady (Safe to_lower) _ _ _
              (record {
                keeps =
                    ask_keeps env (Safe to_lower) (IsSafe-IsClosed to_lower) (close_local rel) refl;
              })
              (λ e.
                complete_media_upload-Steady host env (Safe to_lower) (IsSafe-IsClosed to_lower) rel
                  stable remote m.transaction probe)
              (λ u.
                complete_media_upload-Steady host env (Safe to_lower) (IsSafe-IsClosed to_lower) rel
                  stable remote m.transaction probe)))

  -- A save of a state in which the path is being uploaded, with any answer to it.
  settle_save :
      (rel : RelPath) (bad : Error → Act (Unit {0})) (good : Unit {0} → Act (Unit {0})) (s : Run)
      → ((e : Error) → Steady (Safe to_lower) (bad e))
      → ((u : Unit {0}) → Leads (Started to_lower rel) (Safe to_lower) (good u))
      → Absent to_lower rel s.trace
      → has_uploading (lookup rel s.media) ≡ true
      → (r : Result (Unit {0})) (s' : Run)
      → (Safe to_lower)
          (settle_result
            (r, record s { trace = record { call = save s.media s.sidecars; reply = r } ∷ s.trace })
            bad
            good
            s').1.trace
  unfolding journaled absent
  settle_save rel bad good s hb hg h up (ok u) s' = (hg u).leads _ ((tt, h.0), h.1, up)
  settle_save rel bad good s hb hg h up (err e) s' = (hb e).keeps _ (tt, h.0)

  start_upload-Leads :
      (rel : RelPath) (stable : LocalFile) (m : MediaState) (probe : Probed)
      → Leads (Absent to_lower rel) (Safe to_lower) (start_upload host env rel stable m probe)
  unfolding start_upload handle
  start_upload-Leads rel stable m probe =
      let started : MediaState = record m { status = uploading } in
      record {
        leads = λ s h.
            settle_save rel _ _ (record s { media = insert rel started s.media })
              (λ e.
                handle-Steady (Safe to_lower) _ _ _
                  (record {
                    keeps =
                        ask_keeps env (Safe to_lower) (IsSafe-IsClosed to_lower) (close_local rel)
                          refl;
                  })
                  (λ e'. fail-Steady (Safe to_lower) e) (λ u. fail-Steady (Safe to_lower) e))
              (λ u. put_media-Leads rel stable started probe) h
              (rw (lookup-insert rel started s.media) refl)
              (env s.trace (save (insert rel started s.media) s.sidecars)) _;
      }

  pub fresh_upload-Leads :
      (rel : RelPath) (initial : LocalFile) (transaction : Bytes) (previous : MediaState)
      → Leads
          (Absent to_lower rel)
          (Safe to_lower)
          (fresh_upload host env rel initial transaction previous)
  unfolding fresh_upload local_probe_failed
  fresh_upload-Leads rel initial transaction previous =
      let T = Absent to_lower rel in
      let closed = Absent-IsClosed to_lower rel in
      let weaken = Absent-Safe to_lower rel in
      handle-Leads T T (Safe to_lower) _ _ _
        (steadily T T _ (λ t h. h)
          (bind-Steady T _ _ (silent-Steady T _ (λ s. refl))
            (λ u. save_state-Steady host env T closed)))
        (λ e. steadily T (Safe to_lower) _ weaken (fail-Steady T e))
        λ u.
          handle-Leads T T (Safe to_lower) _ _ _
            (steadily T T _ (λ t h. h)
              (wait_stable_media-Steady host env T closed host.wait_rounds rel initial))
            (λ e. steadily T (Safe to_lower) _ weaken (set_fail-Steady T rel _ _))
            λ stable.
              handle-Leads T T (Safe to_lower) _ _ _
                (record { leads = ask_keeps env T closed (open_local rel) refl })
                (λ e. steadily T (Safe to_lower) _ weaken (fail-Steady T e))
                λ u.
                  handle-Leads T T (Safe to_lower) _ _ _
                    (record { leads = ask_keeps env T closed (probe_local rel stable.size) refl })
                    (λ e. steadily T (Safe to_lower) _ weaken (
                      handle-Steady T _ _ _
                        (record { keeps = ask_keeps env T closed (close_local rel) refl })
                        (λ e'. set_fail-Steady T rel _ _) (λ u. set_fail-Steady T rel _ _)))
                    (λ probe. start_upload-Leads rel stable _ probe)

  recover_verified-Steady :
      (rel : RelPath) (initial : LocalFile) (remote : Entry) (transaction : Bytes)
      → Steady (Safe to_lower) (recover_verified host env rel initial remote transaction)
  unfolding recover_verified
  recover_verified-Steady rel initial remote transaction =
      let T : List Event → Type 0 = Safe to_lower in
      let closed = IsSafe-IsClosed to_lower in
      bind-Steady T _ _ (record { keeps = ask_keeps env T closed (open_local rel) refl })
        λ u.
          handle-Steady T _ _ _
            (record { keeps = ask_keeps env T closed (probe_local rel initial.size) refl })
            (λ e.
              handle-Steady T _ _ _
                (record { keeps = ask_keeps env T closed (close_local rel) refl })
                (λ e'. fail-Steady T _) (λ u. fail-Steady T e))
            (λ probe.
              handle-Steady T _ _ _
                (record { keeps = ask_keeps env T closed (close_local rel) refl })
                (λ e.
                  complete_media_upload-Steady host env T closed rel initial remote transaction
                    probe)
                (λ u.
                  complete_media_upload-Steady host env T closed rel initial remote transaction
                    probe))

  recover_upload-Leads :
      (rel : RelPath) (initial : LocalFile) (transaction : Bytes) (previous : MediaState)
      → Leads
          (Safe to_lower)
          (Safe to_lower)
          (recover_upload host env rel initial transaction previous)
  unfolding recover_upload
  recover_upload-Leads rel initial transaction previous =
      let T : List Event → Type 0 = Safe to_lower in
      stat-Leads to_lower env rel _ _
        (λ e is_absent. rw is_absent (fresh_upload-Leads rel initial transaction previous))
        (λ e other_error. rw other_error (steadily T T _ (λ t h. h) (set_fail-Steady T rel _ e)))
        (λ remote.
          if-Leads T T (is_verified initial remote) _ _
            (λ e.
              steadily T T _ (λ t h. h) (recover_verified-Steady rel initial remote transaction))
            (λ e. steadily T T _ (λ t h. h) (set_fail-Steady T rel _ _)))

  pub upload_local_media-Leads :
      (rel : RelPath) (initial : LocalFile)
      → Leads (Absent to_lower rel) (Safe to_lower) (upload_local_media host env rel initial)
  unfolding upload_local_media asked
  upload_local_media-Leads rel initial = record {
    leads = λ s h.
        let suffix = env s.trace random in
        let s' : Run = record s { trace = record { call = random; reply = suffix } ∷ s.trace } in
        let previous = media_of rel s' in
        (if-Leads (Absent to_lower rel) (Safe to_lower) (is_uncertain previous.status) _ _
            (λ e. record {
              leads = λ s h. (recover_upload-Leads rel initial _ previous).leads s h.0;
            })
            (λ e. fresh_upload-Leads rel initial _ previous)).leads
          s' (Absent-IsClosed to_lower rel random suffix s.trace refl h);
  }
