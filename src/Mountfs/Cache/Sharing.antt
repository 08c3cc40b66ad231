-- ===== src/Mountfs/Cache/Sharing.antt =====
-- What callers that open one object at the same time rely on.
use mediastub.Prelude.{
  ℕ, ◌≡◌, ◌≢◌, inl, inr, refl, sym, subst, ap, ◌∙◌, Bool, true, Option, none, some, List, [], ◌∷◌,
  ◌<◌, Bool-cases,
}
use mediastub.Prelude.Maps.{Map, lookup, same}
use mediastub.Core.Base.{Bytes}
use mediastub.Core.Plan.{Plan}
use mediastub.Core.Probe.{Probed}
use mediastub.Syncer.Base.{Entry}
use mediastub.Mountfs.Base.{ok, fingerprint}
use mediastub.Mountfs.Cache.{
  Service, Outcome, probed, Decision, verdict, Shared, replace, finish_call, listed, Ranges,
}
use mediastub.Mountfs.Cache.Callers.{
  Step, Steps, Caller, waiting, leading, finishing, returned, System, settle, probes, finishes,
  here, later, Reach, set_caller,
}
use mediastub.Mountfs.Cache.Invariant.{
  replace-elim, leads, Sourced, from, IsPlaced, waiting_placed, leading_placed, finishing_placed,
  returned_placed,
}
use mediastub.Mountfs.Cache.Evict.{some_injective, finish_call_done}
use mediastub.Mountfs.Cache.Reachable.{Reach-Holds}

-- The key that a caller probes an entry for.
abbrev pub probing : Caller → Option Bytes
probing (leading e c) = some (fingerprint e)
probing (finishing e c cacheable d) = some (fingerprint e)
probing _ = none

data LeaderOf (c : ℕ) : Caller → Type 0 where
  is_leading : (e : Entry) → LeaderOf c (leading e c)
  is_finishing :
      (e : Entry) (cacheable : Bool) (d : Decision) → LeaderOf c (finishing e c cacheable d)

leads-LeaderOf : (p : Caller) (c : ℕ) → leads p ≡ some c → LeaderOf c p
leads-LeaderOf (leading e d) c h =
    subst (λ c. LeaderOf c (leading e d)) (some_injective h) (is_leading e)
leads-LeaderOf (finishing e d cacheable v) c h =
    subst (λ c. LeaderOf c (finishing e d cacheable v)) (some_injective h)
      (is_finishing e cacheable v)
leads-LeaderOf _ c h = absurd cc

keys_of : Map ℕ → List Bytes
keys_of [] = []
keys_of ((k, c) ∷ rest) = k ∷ keys_of rest

keys_of-Ranges : (cache : Map ℕ) → Ranges (keys_of cache) cache
unfolding keys_of listed lookup
keys_of-Ranges [] key c h = absurd cc
keys_of-Ranges ((k, d) ∷ rest) key c h = elim (Bool-cases (same key k)) [
  | inl e ↦ rw e refl
  | inr e ↦ rw e (keys_of-Ranges rest key c (rw e at h))
]

waiting_stays :
    (s : System) (i j : ℕ) (e : Entry) (c : ℕ) (p : Caller)
    → s.callers i ≡ waiting e c
    → s.callers i ≢ s.callers j
    → replace s.callers j p i ≡ waiting e c
waiting_stays s i j e c p h ne =
    replace-elim (λ q. q ≡ waiting e c) s.callers j p i
      (λ same_caller. absurd (ne (ap s.callers same_caller))) (λ apart. h)

module _ (service : Service) (Answers : Entry → Outcome → Type 0) where
  owned :
      (made : ℕ → Bytes) (s : Shared) (p : Caller) (k : Bytes)
      → IsPlaced Answers made s p
      → probing p ≡ some k
      → (c : ℕ) × (leads p ≡ some c) × (lookup k s.cache ≡ some c)
  owned made s p k (leading_placed {e} {c} o) h =
      (c, refl, ap (λ v. lookup v s.cache) (sym (some_injective h)) ∙ o.held)
  owned made s p k (finishing_placed {e} {c} o q) h =
      (c, refl, ap (λ v. lookup v s.cache) (sym (some_injective h)) ∙ o.held)
  owned made s p k _ h = absurd cc

  -- In every state that callers of `decide` can reach, no two of them probe entries with the same
  -- fingerprint.
  pub one_leader :
      {s : System}
      → Reach service Answers s
      → (i j : ℕ) (k : Bytes) → probing (s.callers i) ≡ some k
      → probing (s.callers j) ≡ some k
      → i ≡ j
  one_leader {s} r i j k h g =
      let (made, inv) = Reach-Holds service Answers r in
      let (c, lead, found) = owned made s.shared (s.callers i) k (inv.placed i) h in
      let (d, lead', found') = owned made s.shared (s.callers j) k (inv.placed j) g in
      inv.alone i j c lead (lead' ∙ ap some (some_injective (sym found' ∙ found)))

  -- A plan that a caller of `decide` returns was the result of a probe without an error of an entry
  -- with the same fingerprint, whoever made that probe.
  pub returned_plan-Sourced :
      {s : System}
      → Reach service Answers s
      → (i : ℕ) (e : Entry) (d : Decision) (plan : Plan) → s.callers i ≡ returned e d
      → d.plan ≡ some plan
      → (f : Entry) × (r : Probed) × (fingerprint f ≡ fingerprint e)
        × Answers f (probed (ok r) none)
        × (r.plan ≡ plan)
  returned_plan-Sourced {s} r i e d plan h g =
      let (made, inv) = Reach-Holds service Answers r in
      taken d.plan
        (returned_source (subst (λ p. IsPlaced Answers made s.shared p) h (inv.placed i))) g
    where
      returned_source :
          {made : ℕ → Bytes}
          → IsPlaced Answers made s.shared (returned e d)
          → Sourced Answers (fingerprint e) d.plan
      returned_source (returned_placed q) = q

      taken :
          (o : Option Plan)
          → Sourced Answers (fingerprint e) o
          → o ≡ some plan
          → (f : Entry) × (r : Probed) × (fingerprint f ≡ fingerprint e)
            × Answers f (probed (ok r) none)
            × (r.plan ≡ plan)
      taken _ (from f r q a) o = (f, r, q, a, some_injective o)
      taken none _ o = absurd cc

  finishing_releases :
      (s : System) (i j : ℕ) (e f : Entry) (c : ℕ) (cacheable : Bool) (d : Decision)
      → s.callers i ≡ waiting e c
      → s.callers j ≡ finishing f c cacheable d
      → (t : System) × Step service Answers s t
        × (t.callers i ≡ waiting e c)
        × ((t.shared.calls c).ready ≡ true)
  finishing_releases s i j e f c cacheable d h g =
      let order = keys_of s.shared.cache in
      (
        set_caller j (returned f d, finish_call service (fingerprint f) c cacheable order s.shared)
            s,
        finishes j f c cacheable d order g (keys_of-Ranges s.shared.cache),
        waiting_stays s i j e c _ h (λ q. not_waiting (sym h ∙ q ∙ g)),
        finish_call_done service (fingerprint f) c cacheable order s.shared,
      )
    where
      not_waiting : waiting e c ≡ finishing f c cacheable d → ⊥
      not_waiting q = cc

  leading_releases :
      (s : System) (i j : ℕ) (e f : Entry) (c : ℕ) (o : Outcome)
      → s.callers i ≡ waiting e c
      → s.callers j ≡ leading f c
      → Answers f o
      → (t : System) × Steps service Answers s t
        × (t.callers i ≡ waiting e c)
        × ((t.shared.calls c).ready ≡ true)
  leading_releases s i j e f c o h g a =
      let v = verdict service.on_error o in
      let middle = set_caller j (finishing f c v.cacheable v.decision, settle c v s.shared) s in
      let (t, st, stays, done) =
        finishing_releases middle i j e f c v.cacheable v.decision
          (waiting_stays s i j e c _ h (λ q. not_waiting (sym h ∙ q ∙ g)))
          (replaced s.callers j _) in
      (t, later (later here (probes j f c o g a)) st, stays, done)
    where
      not_waiting : waiting e c ≡ leading f c → ⊥
      not_waiting q = cc

      replaced : (f : ℕ → Caller) (i : ℕ) (p : Caller) → replace f i p i ≡ p
      replaced f i p = replace-elim (λ q. q ≡ p) f i p i (λ me. refl) (λ ne. absurd (ne refl))

  -- If every entry has some outcome, a caller that waits is not stuck: from every state that callers
  -- can reach, steps of others lead to one in which it waits still and its call is ready.
  pub waiting_released :
      {s : System}
      → Reach service Answers s
      → ((f : Entry) → (o : Outcome) × Answers f o)
      → (i : ℕ) (e : Entry) (c : ℕ) → s.callers i ≡ waiting e c
      → (t : System) × Steps service Answers s t
        × (t.callers i ≡ waiting e c)
        × ((t.shared.calls c).ready ≡ true)
  waiting_released {s} r total i e c h =
      let (made, inv) = Reach-Holds service Answers r in
      let known = waiting_known (subst (λ p. IsPlaced Answers made s.shared p) h (inv.placed i)) in
      elim (Bool-cases (s.shared.calls c).ready) [
        | inl done ↦ (s, here, h, done)
        | inr pending ↦
            let (j, lead) = inv.led c known pending in
            by_leader j (s.callers j) refl (leads-LeaderOf (s.callers j) c lead)
      ]
    where
      waiting_known :
          {made : ℕ → Bytes} → IsPlaced Answers made s.shared (waiting e c) → c < s.shared.next
      waiting_known (waiting_placed l q) = l

      by_leader :
          (j : ℕ) (p : Caller)
          → s.callers j ≡ p
          → LeaderOf c p
          → (t : System) × Steps service Answers s t
            × (t.callers i ≡ waiting e c)
            × ((t.shared.calls c).ready ≡ true)
      by_leader j _ g (is_leading f) = leading_releases s i j e f c (total f).0 h g (total f).1
      by_leader j _ g (is_finishing f cacheable d) =
          let (t, st, stays, done) = finishing_releases s i j e f c cacheable d h g in
          (t, later here st, stays, done)
