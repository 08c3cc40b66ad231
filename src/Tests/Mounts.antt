-- ===== src/Tests/Mounts.antt =====
-- The theorems of the package mountfs: two callers of one small film.
use mediastub.Prelude.{
  ℕ, ◌≡◌, ◌≤◌, ◌⊎◌, refl, subst, ap, Bool-cases, inl, inr, true, none, some, List, [], ◌∷◌, length,
  take, drop,
}
use mediastub.Prelude.Int.{pos}
use mediastub.Prelude.Maps.{lookup, insert, delete, same}
use mediastub.Prelude.Decimal.{decimal_ℤ, decimal, digits}
use mediastub.Core.Base.{Bytes}
use mediastub.Core.Plan.{Plan}
use mediastub.Core.Plan.Reading.{contents}
use mediastub.Core.Probe.{Format, Probed}
use mediastub.Core.Probe.Sound.{IsStubOf}
use mediastub.Core.Mp4.{
  probe_mp4, scan_mp4_top_level, scan_boxes, read_box, check_header, box_size, box_body, has_moov,
  box_extent,
}
use mediastub.Core.Mp4.Plans.{IsMp4Stub, probe_mp4-IsStub}
use mediastub.Core.Source.{bytes_source, bytes_read_at}
use mediastub.Core.Source.Faithful.{bytes-Serves}
use mediastub.Core.Action.{read, check_read, check_but_eof}
use mediastub.Core.Ebml.{be_value}
use mediastub.Core.Plan.{new_plan}
use mediastub.Syncer.Base.{Entry}
use mediastub.Mountfs.Base.{ok, fingerprint, other}
use mediastub.Mountfs.Cache.{
  Service, passthrough, Outcome, probed, Decision, verdict, stub_candidate, cached_call,
  finish_call, replace, listed, Ranges,
}
use mediastub.Mountfs.Cache.Callers.{
  Steps, waiting, leading, finishing, returned, System, settle, enter, set_caller, enters, probes,
  finishes, start, here, later, Reach,
}
use mediastub.Mountfs.Cache.Sharing.{probing, one_leader, returned_plan-Sourced, waiting_released}
use mediastub.Mountfs.Cache.Bounds.{AllPending, finish_call_bounded}
use mediastub.Mountfs.View.{not_opened, viewed, open_view, plan_view, file_read, bytes}
use mediastub.Mountfs.Stubs.{Tells, opened_stub-IsStub}
use mediastub.Tests.Files.{mp4_file, mp4_stub}
use mediastub.Tests.Worlds.{film_entry, film_probed}

mp4_stub-IsMp4Stub : IsMp4Stub mp4_file mp4_stub
unfolding bytes-Serves read check_but_eof check_read bytes_read_at be_value probe_mp4
    scan_mp4_top_level scan_boxes read_box check_header box_size box_body has_moov box_extent
    new_plan
mp4_stub-IsMp4Stub = probe_mp4-IsStub mp4_file (bytes_source mp4_file) (bytes-Serves mp4_file) tt tt

abbrev film_content : Bytes → Bytes
film_content key = mp4_file

abbrev film_outcome : Outcome
film_outcome = probed (ok film_probed) none

film_outcome-Tells : (e : Entry) → Tells film_content e film_outcome
film_outcome-Tells e r h =
    subst (λ q. IsStubOf q.format mp4_file q.plan) (same_probed h) mp4_stub-IsMp4Stub
  where
    same_probed : {q : Probed} → film_outcome ≡ probed (ok q) none → film_probed ≡ q
    same_probed g = cc

abbrev small_service : Service
small_service = record { matches = λ p. true; on_error = passthrough; cache_entries = 1 }

-- The first caller leads, and the second waits for it.
abbrev one_inside : System
one_inside = set_caller 0 (enter small_service film_entry start.shared) start

abbrev two_inside : System
two_inside = set_caller 1 (enter small_service film_entry one_inside.shared) one_inside

two_inside-Reach : Reach small_service (Tells film_content) two_inside
unfolding replace
two_inside-Reach = later (later here (enters 0 film_entry refl)) (enters 1 film_entry refl)

first_leads : two_inside.callers 0 ≡ leading film_entry 0
unfolding replace enter stub_candidate cached_call lookup
first_leads = refl

second_waits : two_inside.callers 1 ≡ waiting film_entry 0
unfolding replace enter stub_candidate cached_call lookup insert delete same fingerprint decimal_ℤ
    decimal digits
second_waits = refl

waiting_released_example :
    (t : System) × Steps small_service (Tells film_content) two_inside t
    × (t.callers 1 ≡ waiting film_entry 0)
    × ((t.shared.calls 0).ready ≡ true)
waiting_released_example =
    waiting_released small_service (Tells film_content) two_inside-Reach
      (λ f. (film_outcome, film_outcome-Tells f)) 1 film_entry 0 second_waits

one_leader_example : ◌≡◌ {A = ℕ} 0 0
one_leader_example =
    one_leader small_service (Tells film_content) two_inside-Reach 0 0 (fingerprint film_entry)
      (ap probing first_leads) (ap probing first_leads)

abbrev film_decision : Decision
film_decision = record { plan = some mp4_stub; error = none }

-- The probe is over, and the call is ready.
abbrev probed_once : System
probed_once =
    set_caller 0
      (
        finishing film_entry 0 true film_decision,
        settle 0 (verdict passthrough film_outcome) two_inside.shared,
      )
      two_inside

abbrev the_keys : List Bytes
the_keys = fingerprint film_entry ∷ []

abbrev finished_once : System
finished_once =
    set_caller 0
      (
        returned film_entry film_decision,
        finish_call small_service (fingerprint film_entry) 0 true the_keys probed_once.shared,
      )
      probed_once

probed_once-Reach : Reach small_service (Tells film_content) probed_once
unfolding verdict
probed_once-Reach =
    later two_inside-Reach
      (probes 0 film_entry 0 film_outcome first_leads (film_outcome-Tells film_entry))

only_key : Ranges the_keys probed_once.shared.cache
unfolding settle enter stub_candidate cached_call lookup insert delete listed same fingerprint
    decimal_ℤ decimal digits
only_key key c h = elim (Bool-cases (same key (fingerprint film_entry))) [
  | inl e ↦ rw e refl
  | inr e ↦ absurd (no_call (rw e at h))
]
  where
    no_call : none ≡ some c → ⊥
    no_call q = cc

finished_once-Reach : Reach small_service (Tells film_content) finished_once
unfolding replace
finished_once-Reach =
    later probed_once-Reach (finishes 0 film_entry 0 true film_decision the_keys refl only_key)

first_returned : finished_once.callers 0 ≡ returned film_entry film_decision
unfolding replace
first_returned = refl

returned_plan-Sourced_example :
    (f : Entry) × (r : Probed) × (fingerprint f ≡ fingerprint film_entry)
    × Tells film_content f (probed (ok r) none)
    × (r.plan ≡ mp4_stub)
returned_plan-Sourced_example =
    returned_plan-Sourced small_service (Tells film_content) finished_once-Reach 0 film_entry
      film_decision mp4_stub first_returned refl

stub_opened :
    open_view film_entry true film_decision (not_opened (other 7))
    ≡ viewed (plan_view mp4_stub) true
unfolding open_view
stub_opened = refl

opened_stub-IsStub_example :
    (f : Format) × (p : Plan) × IsStubOf f mp4_file p
    × ((len off : ℕ)
        → file_read other (plan_view mp4_stub) len (pos off)
          ≡ (bytes (take len (drop off (contents p))), plan_view mp4_stub))
opened_stub-IsStub_example =
    opened_stub-IsStub small_service film_content other finished_once-Reach 0 film_entry
      film_decision (not_opened (other 7)) (plan_view mp4_stub) first_returned stub_opened

finish_call_bounded_example :
    (length
        (finish_call small_service
          (fingerprint film_entry)
          0
          true
          the_keys
          probed_once.shared).cache
      ≤ 1)
    ⊎ AllPending
        (fingerprint film_entry)
        (finish_call small_service
          (fingerprint film_entry)
          0
          true
          the_keys
          probed_once.shared).calls
        (finish_call small_service
          (fingerprint film_entry)
          0
          true
          the_keys
          probed_once.shared).cache
finish_call_bounded_example =
    finish_call_bounded small_service (fingerprint film_entry) 0 true the_keys probed_once.shared
      only_key
