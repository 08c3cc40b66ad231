-- ===== src/Mountfs/Cache/Reachable.antt =====
-- The invariant of the cache of probes in every state that callers can reach, and what follows.
use mediastub.Prelude.{ℕ, ◌<◌, ◌≡◌, inl, inr, refl, subst, ap, none, some, [], Bool-cases}
use mediastub.Core.Base.{Bytes}
use mediastub.Syncer.Base.{Entry}
use mediastub.Mountfs.Base.{Error, ok, err, is_context_error, fingerprint}
use mediastub.Mountfs.Cache.{
  OnError, passthrough, fail, Service, Shared, Outcome, open_failed, probed, after_probe, Verdict,
  verdict,
}
use mediastub.Mountfs.Cache.Callers.{
  Step, Steps, idle, waiting, System, enter, set_caller, enters, takes, gives_up, probes, finishes,
  here, later, Reach,
}
use mediastub.Mountfs.Cache.Invariant.{
  leads, Sourced, nothing, from, IsPlaced, waiting_placed, returned_placed, Inv, start-Inv,
}
use mediastub.Mountfs.Cache.Preserved.{move-Inv, settle-Inv, finish-Inv}
use mediastub.Mountfs.Cache.Entering.{enter_cases}
use mediastub.Mountfs.Cache.Leading.{lead-Inv, made_for}

module _ (service : Service) (Answers : Entry → Outcome → Type 0) where
  -- No plan, in either place that a verdict has for one.
  abbrev Both : Entry → Verdict → Type 0
  Both e v =
      Sourced Answers (fingerprint e) v.plan × Sourced Answers (fingerprint e) v.decision.plan

  error-Sourced :
      (policy : OnError) (e : Entry) (cause : Error) → Both e (after_probe policy (err cause))
  error-Sourced passthrough e cause = elim (Bool-cases (is_context_error cause)) [
    | inl h ↦ rw h (nothing, nothing)
    | inr h ↦ rw h (nothing, nothing)
  ]
  error-Sourced fail e cause = elim (Bool-cases (is_context_error cause)) [
    | inl h ↦ rw h (nothing, nothing)
    | inr h ↦ rw h (nothing, nothing)
  ]

  verdict-Sourced : (e : Entry) (o : Outcome) → Answers e o → Both e (verdict service.on_error o)
  unfolding verdict
  verdict-Sourced e (open_failed cause) a = (nothing, nothing)
  verdict-Sourced e (probed (ok r) none) a = (from e r refl a, from e r refl a)
  verdict-Sourced e (probed (ok r) (some cause)) a = error-Sourced service.on_error e cause
  verdict-Sourced e (probed (err cause) close) a = error-Sourced service.on_error e cause

  -- The invariant, for some record of which call was made for which key.
  abbrev pub Holds : System → Type 0
  Holds s = (made : ℕ → Bytes) × Inv Answers made s

  waiting_call :
      {made : ℕ → Bytes} {s : Shared} {e : Entry} {c : ℕ}
      → IsPlaced Answers made s (waiting e c)
      → (c < s.next) × (made c ≡ fingerprint e)
  waiting_call (waiting_placed h g) = (h, g)

  enters_Holds :
      (s : System) (i : ℕ) (e : Entry)
      → s.callers i ≡ idle
      → Holds s
      → Holds (set_caller i (enter service e s.shared) s)
  enters_Holds s i e h (made, inv) = elim (enter_cases service e s.shared) [
    | inl r ↦ (
      made,
      rw r (move-Inv service Answers made s i _ inv (ap leads h) refl (returned_placed nothing)),
    )
    | inr (inl (c, found, r)) ↦
        let old = inv.cached (fingerprint e) c found in
        (
          made,
          rw r (
              move-Inv service Answers made s i _ inv (ap leads h) refl
                (waiting_placed old.0 old.1)),
        )
    | inr (inr (missing, r)) ↦ (
      made_for service Answers made e s.shared,
      rw r (lead-Inv service Answers made s i e inv h missing),
    )
  ]

  Step-Holds : {s t : System} → Step service Answers s t → Holds s → Holds t
  Step-Holds {s} (enters i e h) holds = enters_Holds s i e h holds
  Step-Holds {s} (takes i e c h r) (made, inv) =
      let placed = waiting_call (subst (λ p. IsPlaced Answers made s.shared p) h (inv.placed i)) in
      (
        made,
        move-Inv service Answers made s i _ inv (ap leads h) refl (
            returned_placed (
              subst (λ k. Sourced Answers k (s.shared.calls c).plan) placed.1
                (inv.sourced c placed.0))),
      )
  Step-Holds {s} (gives_up i e c cause h q) (made, inv) =
      (made, move-Inv service Answers made s i _ inv (ap leads h) refl (returned_placed nothing))
  Step-Holds {s} (probes i e c o h a) (made, inv) =
      let came = verdict-Sourced e o a in
      (made, settle-Inv service Answers made s i e c _ inv h came.0 came.1)
  Step-Holds {s} (finishes i e c cacheable d order h ranges) (made, inv) =
      (made, finish-Inv service Answers made s i e c cacheable d order inv h)

  pub Steps-Holds : {s t : System} → Steps service Answers s t → Holds s → Holds t
  Steps-Holds here holds = holds
  Steps-Holds (later r st) holds = Step-Holds st (Steps-Holds r holds)

  pub Reach-Holds : {s : System} → Reach service Answers s → Holds s
  Reach-Holds r = Steps-Holds r (λ c. [], start-Inv Answers)
