-- ===== src/Mountfs/Stubs.antt =====
-- From a probe to what is read of a mounted file: a view that is a stub shows a stub of its object.
use mediastub.Prelude.{ℕ, ◌≡◌, refl, subst, true, none, some, Option, take, drop, length, All}
use mediastub.Prelude.Int.{pos}
use mediastub.Core.Base.{Bytes}
use mediastub.Core.Base as Core
use mediastub.Core.Action as Action
use mediastub.Core.Plan.{Plan}
use mediastub.Core.Plan.Reading.{contents}
use mediastub.Core.Plan.Normal.{IsNormal}
use mediastub.Core.Ebml.Digits.{IsByte}
use mediastub.Core.Action.{done, stuck}
use mediastub.Core.Action.Ensures.{Holds}
use mediastub.Core.Probe.Sound.{IsProbed, IsStubOf, probe_sound}
use mediastub.Core.Source.{Budget, limits_of}
use mediastub.Core.Probe.{Format, matroska, mp4, Probed, probe}
use mediastub.Origin.{Object, origin_source}
use mediastub.Origin.ReadFull.{Offers, origin_source-Inv, origin_source-Serves}
use mediastub.Syncer.Base.{Entry}
use mediastub.Mountfs.Base.{Error, ok, err, fingerprint}
use mediastub.Mountfs.Cache.{Service, Outcome, probed, Decision}
use mediastub.Mountfs.Cache.Callers.{returned, System, Reach}
use mediastub.Mountfs.Cache.Sharing.{returned_plan-Sourced}
use mediastub.Mountfs.View.{
  View, plan_view, Opened, opened, not_opened, viewed, open_view, of_core, bytes, file_read,
  pass_through,
}
use mediastub.Mountfs.View.Reading.{file_read_stub}

-- `core.Probe` of an opened object, and what `Close` answers. `Probe` does not run out of rounds.
unfoldable pub outcome_of : (ℕ → Error) → Action.Outcome Probed → Option Error → Option Outcome
outcome_of cause (done (Core.Result.ok r)) close = some (probed (ok r) close)
outcome_of cause (done (Core.Result.err e)) close = some (probed (err (of_core cause e)) close)
outcome_of cause stuck close = none

-- An outcome whose plan, if it has one, is a stub of what the object of the entry holds.
abbrev pub Tells : (Bytes → Bytes) → Entry → Outcome → Type 0
Tells content_of e o =
    (r : Probed) → o ≡ probed (ok r) none → IsStubOf r.format (content_of (fingerprint e)) r.plan

open_view_stub :
    (e : Entry) (d : Decision) (object : Opened) (view : View)
    → open_view e true d object ≡ viewed view true
    → (p : Plan) × (d.plan ≡ some p) × (view ≡ plan_view p)
unfolding open_view pass_through
open_view_stub e d object view h = by_answer d.plan d.error object h
  where
    by_answer :
        (plan : Option Plan) (error : Option Error) (object : Opened)
        → open_view e true (record { plan = plan; error = error }) object ≡ viewed view true
        → (p : Plan) × (plan ≡ some p) × (view ≡ plan_view p)
    by_answer (some p) none object h = (p, refl, cc)
    by_answer none none (opened o s) h = absurd cc
    by_answer none none (not_opened cause) h = absurd cc
    by_answer plan (some cause) object h = absurd cc

IsStubOf-IsNormal : (f : Format) (content : Bytes) (p : Plan) → IsStubOf f content p → IsNormal p
IsStubOf-IsNormal matroska content p h = h.normal
IsStubOf-IsNormal mp4 content p h = h.0.normal

same_probed :
    {r r' : Probed} {close : Option Error} → probed (ok r) close ≡ probed (ok r') none → r ≡ r'
same_probed q = cc

-- `Probe` over an object that offers the bytes of an entry has an outcome, and that tells of them.
pub outcome_of-Tells :
    (content_of : Bytes → Bytes) (cause : ℕ → Error) (e : Entry) (object : Object)
    (offers : Offers (content_of (fingerprint e)) object) (budget : Budget) (s : object.State)
    (close : Option Error)
    → All IsByte (content_of (fingerprint e))
    → offers.Inv s
    → (o : Outcome) × (outcome_of cause
          (probe (origin_source object (length (content_of (fingerprint e)))) budget s)
          close
        ≡ some o)
      × Tells content_of e o
unfolding outcome_of
outcome_of-Tells content_of cause e object offers budget s close all_bytes v = of_result _ (
    probe_sound (content_of (fingerprint e)) all_bytes
      (origin_source object (length (content_of (fingerprint e))))
      (origin_source-Serves (content_of (fingerprint e)) object offers) budget s
      (origin_source-Inv (content_of (fingerprint e)) object offers s v))
  where
    of_result :
        (r : Action.Outcome Probed)
        → Holds (IsProbed (content_of (fingerprint e)) (limits_of budget)) r
        → (o : Outcome) × (outcome_of cause r close ≡ some o) × Tells content_of e o
    of_result (done (Core.Result.ok r)) h = (
      probed (ok r) close,
      refl,
      λ r' q.
          subst (λ v. IsStubOf v.format (content_of (fingerprint e)) v.plan) (same_probed q)
            h.is_stub,
    )
    of_result (done (Core.Result.err cause)) h = (_, refl, λ r' q. absurd cc)
    of_result stuck h = absurd h

module _ (service : Service) (content_of : Bytes → Bytes) (cause : ℕ → Error) where
  -- If probes tell of objects what these hold, by their fingerprints, a view that is a stub shows a
  -- stub of its object: each read gives the bytes that a plan cut out of the object describes there.
  pub opened_stub-IsStub :
      {s : System}
      → Reach service (Tells content_of) s
      → (i : ℕ) (e : Entry) (d : Decision) (object : Opened) (view : View)
      → s.callers i ≡ returned e d
      → open_view e true d object ≡ viewed view true
      → (f : Format) × (p : Plan) × IsStubOf f (content_of (fingerprint e)) p
        × ((len off : ℕ)
            → file_read cause view len (pos off) ≡ (bytes (take len (drop off (contents p))), view))
  opened_stub-IsStub {s} r i e d object view h g =
      let (p, has, is_plan) = open_view_stub e d object view g in
      let (f, result, same_key, told, same_plan) =
        returned_plan-Sourced service (Tells content_of) r i e d p h has in
      let stub =
        subst (λ q. IsStubOf result.format (content_of (fingerprint e)) q) same_plan
          (subst (λ k. IsStubOf result.format (content_of k) result.plan) same_key
            (told result refl)) in
      (
        result.format,
        p,
        stub,
        λ len off.
            rw is_plan (file_read_stub cause p len off (IsStubOf-IsNormal result.format _ p stub)),
      )
