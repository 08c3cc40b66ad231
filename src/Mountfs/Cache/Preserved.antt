-- ===== src/Mountfs/Cache/Preserved.antt =====
-- Every step of a caller keeps the invariant of the cache of probes.
use mediastub.Prelude.{
  ℕ, ◌≡◌, ◌≢◌, inl, inr, refl, sym, subst, ap, ◌∙◌, Bool, false, none, some, List, Bool-cases,
}
use mediastub.Prelude.Maps.{lookup, same, same_sound}
use mediastub.Core.Base.{Bytes}
use mediastub.Syncer.Base.{Entry}
use mediastub.Mountfs.Base.{fingerprint}
use mediastub.Mountfs.Cache.{Service, Shared, Outcome, Decision, Verdict, replace, finish_call}
use mediastub.Mountfs.Cache.Callers.{
  settle, Caller, leading, finishing, returned, System, set_caller,
}
use mediastub.Mountfs.Cache.Invariant.{
  replace-elim, leads, Sourced, Owns, IsPlaced, leading_placed, finishing_placed, returned_placed,
  Inv, Frame, Frame-IsPlaced,
}
use mediastub.Mountfs.Cache.Evict.{
  some_injective, finish_call_ready, finish_call_pending, finish_call_from, finish_call_keeps,
  finish_call_plan,
}

-- A caller that leads what it led before.
leads-replace :
    (f : ℕ → Caller) (i : ℕ) (p : Caller) (j : ℕ)
    → leads p ≡ leads (f i)
    → leads (replace f i p j) ≡ leads (f j)
leads-replace f i p j h =
    replace-elim (λ q. leads q ≡ leads (f j)) f i p j
      (λ e. subst (λ k. leads p ≡ leads (f k)) (sym e) h) (λ ne. refl)

module _ (service : Service) (Answers : Entry → Outcome → Type 0) (made : ℕ → Bytes) where
  pub IsPlaced-replace :
      (made' : ℕ → Bytes) (s : System) (shared : Shared) (i : ℕ) (p : Caller) (mine : ℕ)
      → Frame Answers made made' s.shared shared mine
      → ((j : ℕ) → j ≢ i → leads (s.callers j) ≢ some mine)
      → IsPlaced Answers made' shared p
      → ((j : ℕ) → IsPlaced Answers made s.shared (s.callers j))
      → (j : ℕ) → IsPlaced Answers made' shared (replace s.callers i p j)
  IsPlaced-replace made' s shared i p mine f other h placed j =
      replace-elim (λ q. IsPlaced Answers made' shared q) s.callers i p j (λ e. h)
        (λ ne. Frame-IsPlaced Answers f (other j ne) (placed j))

  -- A step of a caller that leads no call, before and after, on its own.
  pub move-Inv :
      (s : System) (i : ℕ) (p : Caller)
      → Inv Answers made s
      → leads (s.callers i) ≡ none
      → leads p ≡ none
      → IsPlaced Answers made s.shared p
      → Inv Answers made (set_caller i (p, s.shared) s)
  move-Inv s i p inv h g placed = record {
    cached = inv.cached;
    led =
        λ c k r. ((inv.led c k r).0, leads-replace s.callers i p _ (g ∙ sym h) ∙ (inv.led c k r).1);
    alone = λ j k c a b.
        inv.alone j k c (sym (leads-replace s.callers i p j (g ∙ sym h)) ∙ a)
          (sym (leads-replace s.callers i p k (g ∙ sym h)) ∙ b);
    placed = λ j.
        replace-elim (λ q. IsPlaced Answers made s.shared q) s.callers i p j (λ e. placed)
          (λ ne. inv.placed j);
    sourced = inv.sourced;
  }

  leading-Owns :
      {shared : Shared} {e : Entry} {c : ℕ}
      → IsPlaced Answers made shared (leading e c)
      → Owns Answers made shared e c
  leading-Owns (leading_placed h) = h

  ready-settle :
      (c : ℕ) (v : Verdict) (shared : Shared) (k : ℕ)
      → ((settle c v shared).calls k).ready ≡ (shared.calls k).ready
  unfolding settle
  ready-settle c v shared k =
      replace-elim (λ q. q.ready ≡ (shared.calls k).ready) shared.calls c _ k
        (λ e. ap (λ j. (shared.calls j).ready) (sym e)) (λ ne. refl)

  settle-Frame :
      (c : ℕ) (v : Verdict) (shared : Shared) (mine : ℕ)
      → Frame Answers made made shared (settle c v shared) mine
  unfolding settle
  settle-Frame c v shared mine = record {
    grows = λ k h. (h, refl);
    keeps = λ e k ne o. record {
      known = o.known;
      keyed = o.keyed;
      held = o.held;
      pending = ready-settle c v shared k ∙ o.pending;
    };
  }

  -- The leader of a call sets its plan and its error.
  pub settle-Inv :
      (s : System) (i : ℕ) (e : Entry) (c : ℕ) (v : Verdict)
      → Inv Answers made s
      → s.callers i ≡ leading e c
      → Sourced Answers (fingerprint e) v.plan
      → Sourced Answers (fingerprint e) v.decision.plan
      → Inv Answers made
          (set_caller i (finishing e c v.cacheable v.decision, settle c v s.shared) s)
  unfolding settle
  settle-Inv s i e c v inv h came came' =
      let own = leading-Owns (subst (λ p. IsPlaced Answers made s.shared p) h (inv.placed i)) in
      let same_leads = λ (j : ℕ).
        leads-replace s.callers i (finishing e c v.cacheable v.decision) j (sym (ap leads h)) in
      record {
        cached = inv.cached;
        led = λ k l r.
            let old = inv.led k l (sym (ready-settle c v s.shared k) ∙ r) in
            (old.0, same_leads old.0 ∙ old.1);
        alone = λ j k l a b. inv.alone j k l (sym (same_leads j) ∙ a) (sym (same_leads k) ∙ b);
        placed =
            IsPlaced-replace made s (settle c v s.shared) i _ c (settle-Frame c v s.shared c)
              (λ j ne q. ne (inv.alone j i c q (ap leads h)))
              (finishing_placed
                (record {
                  known = own.known;
                  keyed = own.keyed;
                  held = own.held;
                  pending = ready-settle c v s.shared c ∙ own.pending;
                })
                came')
              inv.placed;
        sourced = λ k l.
            replace-elim (λ q. Sourced Answers (made k) q.plan) s.shared.calls c _ k
              (λ q.
                subst (λ key. Sourced Answers key v.plan) (sym own.keyed ∙ ap made (sym q)) came)
              (λ ne. inv.sourced k l);
      }

  finishing-Owns :
      {shared : Shared} {e : Entry} {c : ℕ} {cacheable : Bool} {d : Decision}
      → IsPlaced Answers made shared (finishing e c cacheable d)
      → Owns Answers made shared e c × Sourced Answers (fingerprint e) d.plan
  finishing-Owns (finishing_placed h g) = (h, g)

  -- The keys of two calls that callers own are apart.
  keys_apart :
      {shared : Shared} {e f : Entry} {c d : ℕ}
      → Owns Answers made shared e c
      → Owns Answers made shared f d
      → d ≢ c
      → same (fingerprint f) (fingerprint e) ≡ false
  keys_apart {shared} {e} {f} o p ne = elim (Bool-cases (same (fingerprint f) (fingerprint e))) [
    | inl q ↦ absurd (
        ne (
          some_injective (
            sym p.held
            ∙ ap (λ k. lookup k shared.cache) (same_sound (fingerprint f) (fingerprint e) q)
            ∙ o.held)))
    | inr q ↦ q
  ]

  finish_call-Frame :
      (e : Entry) (c : ℕ) (cacheable : Bool) (order : List Bytes) (shared : Shared)
      → Owns Answers made shared e c
      → Frame Answers made made shared
          (finish_call service (fingerprint e) c cacheable order shared)
          c
  finish_call-Frame e c cacheable order shared own = record {
    grows = λ k h. (unfold finish_call in h, refl);
    keeps = λ f d ne o. record {
      known = unfold finish_call in o.known;
      keyed = o.keyed;
      held =
          finish_call_keeps service (fingerprint e) c cacheable order shared (fingerprint f) d
            (keys_apart own o ne) ne o.pending o.held;
      pending =
          finish_call_pending service (fingerprint e) c cacheable order shared d ne ∙ o.pending;
    };
  }

  -- The leader of a call makes it ready, and leads it no longer.
  pub finish-Inv :
      (s : System) (i : ℕ) (e : Entry) (c : ℕ) (cacheable : Bool) (d : Decision)
      (order : List Bytes)
      → Inv Answers made s
      → s.callers i ≡ finishing e c cacheable d
      → Inv Answers made (
          set_caller i
            (returned e d, finish_call service (fingerprint e) c cacheable order s.shared)
            s)
  finish-Inv s i e c cacheable d order inv h =
      let shared = finish_call service (fingerprint e) c cacheable order s.shared in
      let placed =
        finishing-Owns (subst (λ p. IsPlaced Answers made s.shared p) h (inv.placed i)) in
      record {
        cached = λ k l q.
            unfold finish_call in
            inv.cached k l
              (finish_call_from service (fingerprint e) c cacheable order s.shared k l q);
        led = λ k l r.
            let pending =
              finish_call_ready service (fingerprint e) c cacheable order s.shared k r in
            let old = inv.led k (unfold finish_call in l) pending.1 in
            (old.0, stays old.0 k pending.0 old.1);
        alone = λ j k l a b. inv.alone j k l (before j l a) (before k l b);
        placed =
            IsPlaced-replace made s shared i _ c
              (finish_call-Frame e c cacheable order s.shared placed.0)
              (λ j ne q. ne (inv.alone j i c q (ap leads h))) (returned_placed placed.1) inv.placed;
        sourced = λ k l.
            subst (λ plan. Sourced Answers (made k) plan)
              (sym (finish_call_plan service (fingerprint e) c cacheable order s.shared k))
              (inv.sourced k (unfold finish_call in l));
      }
    where
      before :
          (j k : ℕ)
          → leads (replace s.callers i (returned e d) j) ≡ some k
          → leads (s.callers j) ≡ some k
      before j k =
          replace-elim (λ q. leads q ≡ some k → leads (s.callers j) ≡ some k) s.callers i _ j
            (λ e q. absurd (cc)) (λ ne q. q)

      stays :
          (j k : ℕ)
          → k ≢ c
          → leads (s.callers j) ≡ some k
          → leads (replace s.callers i (returned e d) j) ≡ some k
      stays j k ne q =
          replace-elim (λ p. leads p ≡ some k) s.callers i _ j
            (λ same_caller. absurd (
              ne (some_injective (sym q ∙ ap (λ v. leads (s.callers v)) same_caller ∙ ap leads h))))
            (λ apart. q)
