-- ===== src/Mountfs/Cache/Leading.antt =====
-- A caller makes a new call, and leads it.
use mediastub.Prelude.{
  ℕ, suc, ◌<◌, ◌≡◌, ◌⊎◌, inl, inr, refl, sym, subst, ap, ◌∙◌, none, some, arith, Bool-cases,
}
use mediastub.Prelude.Maps.{lookup, insert, same, same_sound, lookup-insert, lookup-insert_other}
use mediastub.Core.Base.{Bytes}
use mediastub.Syncer.Base.{Entry}
use mediastub.Mountfs.Base.{fingerprint}
use mediastub.Mountfs.Cache.{Service, new_call, Shared, Outcome, replace}
use mediastub.Mountfs.Cache.Callers.{Caller, idle, leading, System, set_caller}
use mediastub.Mountfs.Cache.Invariant.{
  replace-elim, leads, Sourced, nothing, IsPlaced, idle_placed, waiting_placed, leading_placed,
  finishing_placed, returned_placed, Inv, Frame,
}
use mediastub.Mountfs.Cache.Evict.{some_injective}
use mediastub.Mountfs.Cache.Preserved.{IsPlaced-replace}

module _ (service : Service) (Answers : Entry → Outcome → Type 0) (made : ℕ → Bytes) where
  abbrev pub with_call : Entry → Shared → Shared
  with_call e s = record {
    cache = insert (fingerprint e) s.next s.cache;
    calls = replace s.calls s.next new_call;
    next = suc s.next;
  }

  abbrev pub made_for : Entry → Shared → ℕ → Bytes
  made_for e s = replace made s.next (fingerprint e)

  made_before : (e : Entry) (s : Shared) (c : ℕ) → c < s.next → made_for e s c ≡ made c
  unfolding replace
  made_before e s c h = ground arith

  made_last : (e : Entry) (s : Shared) → made_for e s s.next ≡ fingerprint e
  unfolding replace
  made_last e s = ground arith

  calls_before : (e : Entry) (s : Shared) (c : ℕ) → c < s.next → (with_call e s).calls c ≡ s.calls c
  unfolding replace
  calls_before e s c h = ground arith

  calls_last : (e : Entry) (s : Shared) → (with_call e s).calls s.next ≡ new_call
  unfolding replace
  calls_last e s = ground arith

  -- A call below the next one is an old one or the new one.
  call-cases : {c n : ℕ} → c < suc n → (c < n) ⊎ (c ≡ n)
  call-cases h = omega arith

  with_call-Frame :
      (e : Entry) (s : Shared)
      → lookup (fingerprint e) s.cache ≡ none
      → Frame Answers made (made_for e s) s (with_call e s) s.next
  with_call-Frame e s h = record {
    grows = λ c l. (omega arith, made_before e s c l);
    keeps = λ f c ne o. record {
      known = omega (arith, o.known);
      keyed = made_before e s c o.known ∙ o.keyed;
      held =
          lookup-insert_other (fingerprint f) (fingerprint e) s.next s.cache
            (elim (Bool-cases (same (fingerprint f) (fingerprint e))) [
              | inl q ↦ absurd (
                  apart (
                    sym o.held
                    ∙ ap (λ k. lookup k s.cache) (same_sound (fingerprint f) (fingerprint e) q)
                    ∙ h))
              | inr q ↦ q
            ])
          ∙ o.held;
      pending = ap (λ q. q.ready) (calls_before e s c o.known) ∙ o.pending;
    };
  }
    where
      apart : {c : ℕ} → some c ≡ none → ⊥
      apart q = cc

  leads_known :
      {s : Shared} {p : Caller} {c : ℕ} → IsPlaced Answers made s p → leads p ≡ some c → c < s.next
  leads_known idle_placed h = absurd cc
  leads_known (waiting_placed l k) h = absurd cc
  leads_known {s} (leading_placed o) h = subst (λ c. c < s.next) (some_injective h) o.known
  leads_known {s} (finishing_placed o q) h = subst (λ c. c < s.next) (some_injective h) o.known
  leads_known (returned_placed q) h = absurd cc

  -- A caller makes a call for a key that the cache does not hold, and leads it.
  pub lead-Inv :
      (s : System) (i : ℕ) (e : Entry)
      → Inv Answers made s
      → s.callers i ≡ idle
      → lookup (fingerprint e) s.shared.cache ≡ none
      → Inv Answers
          (made_for e s.shared)
          (set_caller i (leading e s.shared.next, with_call e s.shared) s)
  lead-Inv s i e inv h g = record {
    cached = λ k c q. elim (Bool-cases (same k (fingerprint e))) [
      | inl r ↦
          let new_one = some_injective (
            sym (lookup-insert (fingerprint e) s.shared.next s.shared.cache)
            ∙ ap (λ v. lookup v (insert (fingerprint e) s.shared.next s.shared.cache))
                (sym (same_sound k (fingerprint e) r))
            ∙ q) in
          (
            omega (arith, new_one),
            ap (made_for e s.shared) (sym new_one)
                ∙ made_last e s.shared
                ∙ sym (same_sound k (fingerprint e) r),
          )
      | inr r ↦
          let old =
            inv.cached k c
              (sym (lookup-insert_other k (fingerprint e) s.shared.next s.shared.cache r) ∙ q) in
          (omega (arith, old.0), made_before e s.shared c old.0 ∙ old.1)
    ];
    led = λ c l r. elim (call-cases l) [
      | inl old ↦
          let leader =
            inv.led c old (sym (ap (λ q. q.ready) (calls_before e s.shared c old)) ∙ r) in
          (
            leader.0,
            replace-elim (λ q. leads q ≡ some c) s.callers i _ leader.0
                (λ me.
                  absurd
                    (led_by_idle (sym (ap (λ j. leads (s.callers j)) me ∙ ap leads h) ∙ leader.1)))
                (λ ne. leader.1),
          )
      | inr new_one ↦ (
        i,
        replace-elim (λ q. leads q ≡ some c) s.callers i _ i (λ me. ap some (sym new_one))
            (λ ne. absurd (ne refl)),
      )
    ];
    alone = λ j k c a b. elim (after j c a) [
      | inl (ji, cn) ↦ elim (after k c b) [
        | inl (ki, cn') ↦ ji ∙ sym ki
        | inr (old, l) ↦ absurd (omega arith)
      ]
      | inr (old, l) ↦ elim (after k c b) [
        | inl (ki, cn') ↦ absurd (omega arith)
        | inr (old', l') ↦ inv.alone j k c old old'
      ]
    ];
    placed =
        IsPlaced-replace service Answers made (made_for e s.shared) s (with_call e s.shared) i _
          s.shared.next (with_call-Frame e s.shared g)
          (λ j ne q. not_led (leads_known (inv.placed j) q))
          (leading_placed (record {
            known = omega arith;
            keyed = made_last e s.shared;
            held = lookup-insert (fingerprint e) s.shared.next s.shared.cache;
            pending = ap (λ q. q.ready) (calls_last e s.shared);
          }))
          inv.placed;
    sourced = λ c l. elim (call-cases l) [
      | inl old ↦
          subst (λ q. Sourced Answers (made_for e s.shared c) q.plan)
            (sym (calls_before e s.shared c old))
            (subst (λ k. Sourced Answers k (s.shared.calls c).plan)
              (sym (made_before e s.shared c old)) (inv.sourced c old))
      | inr new_one ↦
          subst (λ q. Sourced Answers (made_for e s.shared c) q.plan)
            (sym (ap (with_call e s.shared).calls new_one ∙ calls_last e s.shared)) nothing
    ];
  }
    where
      led_by_idle : {c : ℕ} → none ≡ some c → ⊥
      led_by_idle q = cc

      not_led : {n : ℕ} → n < n → ⊥
      not_led l = omega arith

      after :
          (j c : ℕ)
          → leads (replace s.callers i (leading e s.shared.next) j) ≡ some c
          → ((j ≡ i) × (c ≡ s.shared.next)) ⊎ ((leads (s.callers j) ≡ some c) × (c < s.shared.next))
      after j c =
          replace-elim
            (λ q.
              leads q ≡ some c
              → ((j ≡ i) × (c ≡ s.shared.next))
                ⊎ ((leads (s.callers j) ≡ some c) × (c < s.shared.next)))
            s.callers i _ j (λ me q. inl (me, sym (some_injective q)))
            (λ ne q. inr (q, leads_known (inv.placed j) q))
