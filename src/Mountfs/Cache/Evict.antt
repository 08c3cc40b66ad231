-- ===== src/Mountfs/Cache/Evict.antt =====
-- What `finishCall` leaves of the cache: it takes out calls that are ready, and its own at most.
use mediastub.Prelude.{
  ℕ, ◌≡◌, ◌≢◌, inl, inr, refl, sym, ap, ◌∙◌, Bool, true, false, not, ◌&&◌, none, some, List, [],
  ◌∷◌, length, leb, arith, if◌then◌else◌, Bool-cases, Option-cases,
}
use mediastub.Prelude.Maps.{
  Map, lookup, delete, same, same_sound, lookup-delete-some, lookup-delete_other,
}
use mediastub.Core.Base.{Bytes}
use mediastub.Mountfs.Cache.{ProbeCall, Shared, Service, replace, without_ready, evict, finish_call}

pub some_injective {ℓ} : {A : Type ℓ} {a b : A} → some a ≡ some b → a ≡ b
some_injective e = cc

module _ (key : Bytes) (calls : ℕ → ProbeCall) where
  pub without_ready_from :
      (candidate : Bytes) (c : ℕ) (cache : Map ℕ) (k : Bytes) (d : ℕ)
      → lookup k (without_ready key calls candidate c cache) ≡ some d
      → lookup k cache ≡ some d
  without_ready_from candidate c cache k d h =
      elim (Bool-cases (not (same candidate key) && (calls c).ready)) [
        | inl e ↦ (lookup-delete-some k candidate cache d (rw e at h)).1
        | inr e ↦ rw e at h
      ]

  without_ready_keeps :
      (candidate : Bytes) (c : ℕ) (cache : Map ℕ) (k : Bytes) (d : ℕ)
      → lookup candidate cache ≡ some c
      → lookup k cache ≡ some d
      → (calls d).ready ≡ false
      → lookup k (without_ready key calls candidate c cache) ≡ some d
  without_ready_keeps candidate c cache k d found h r = elim (Bool-cases (same k candidate)) [
    | inl e ↦ rw (pending e, and_false (not (same candidate key))) h
    | inr e ↦ elim (Bool-cases (not (same candidate key) && (calls c).ready)) [
      | inl q ↦ rw q (lookup-delete_other k candidate cache e ∙ h)
      | inr q ↦ rw q h
    ]
  ]
    where
      and_false : (b : Bool) → (b && false) ≡ false
      and_false true = refl
      and_false false = refl

      pending : same k candidate ≡ true → (calls c).ready ≡ false
      pending e =
          let same_call =
            sym found ∙ ap (λ q. lookup q cache) (sym (same_sound k candidate e)) ∙ h in
          ap (λ j. (calls j).ready) (some_injective same_call) ∙ r

  module _ (bound : ℕ) where
    pub evict_missing :
        (candidate : Bytes) (order : List Bytes) (cache : Map ℕ)
        → lookup candidate cache ≡ none
        → evict bound key calls (candidate ∷ order) cache ≡ evict bound key calls order cache
    unfolding evict
    evict_missing candidate order cache e = rw (evict, e) refl

    pub evict_found :
        (candidate : Bytes) (order : List Bytes) (cache : Map ℕ) (c : ℕ)
        → lookup candidate cache ≡ some c
        → evict bound key calls (candidate ∷ order) cache ≡ (
            if not (same candidate key)
              && leb (length (without_ready key calls candidate c cache)) bound
            then without_ready key calls candidate c cache
            else evict bound key calls order (without_ready key calls candidate c cache))
    unfolding evict
    evict_found candidate order cache c e = rw (evict, e) refl

    pub evict_from :
        (order : List Bytes) (cache : Map ℕ) (k : Bytes) (d : ℕ)
        → lookup k (evict bound key calls order cache) ≡ some d
        → lookup k cache ≡ some d
    evict_from [] cache k d h = unfold evict in h
    evict_from (candidate ∷ order) cache k d h = elim (Option-cases (lookup candidate cache)) [
      | inl e ↦ evict_from order cache k d (rw (evict_missing candidate order cache e) at h)
      | inr (c, e) ↦ without_ready_from candidate c cache k d (
          if_lookup _ _ _ (λ q. q)
            (evict_from order (without_ready key calls candidate c cache) k d)
            (rw (evict_found candidate order cache c e) at h))
    ]
      where
        if_lookup :
            {Q : Type 0} (b : Bool) (m n : Map ℕ)
            → (lookup k m ≡ some d → Q)
            → (lookup k n ≡ some d → Q)
            → lookup k (if b then m else n) ≡ some d
            → Q
        if_lookup true m n f g h = f h
        if_lookup false m n f g h = g h

    pub evict_keeps :
        (order : List Bytes) (cache : Map ℕ) (k : Bytes) (d : ℕ)
        → lookup k cache ≡ some d
        → (calls d).ready ≡ false
        → lookup k (evict bound key calls order cache) ≡ some d
    evict_keeps [] cache k d h r = unfold evict in h
    evict_keeps (candidate ∷ order) cache k d h r = elim (Option-cases (lookup candidate cache)) [
      | inl e ↦ rw (evict_missing candidate order cache e) (evict_keeps order cache k d h r)
      | inr (c, e) ↦
          let kept = without_ready_keeps candidate c cache k d e h r in
          rw (evict_found candidate order cache c e) (
            if_lookup _ _ _ kept
              (evict_keeps order (without_ready key calls candidate c cache) k d kept r))
    ]
      where
        if_lookup :
            (b : Bool) (m n : Map ℕ)
            → lookup k m ≡ some d
            → lookup k n ≡ some d
            → lookup k (if b then m else n) ≡ some d
        if_lookup true m n f g = f
        if_lookup false m n f g = g

module _ (service : Service) (key : Bytes) (c : ℕ) (cacheable : Bool) (order : List Bytes)
    (s : Shared) where
  abbrev done : ℕ → ProbeCall
  done = replace s.calls c (record (s.calls c) { ready = true })

  pub finish_call_ready :
      (d : ℕ)
      → ((finish_call service key c cacheable order s).calls d).ready ≡ false
      → (d ≢ c) × ((s.calls d).ready ≡ false)
  unfolding finish_call replace
  finish_call_ready d h = ground (arith, h)

  pub finish_call_pending :
      (d : ℕ)
      → d ≢ c
      → ((finish_call service key c cacheable order s).calls d).ready ≡ (s.calls d).ready
  unfolding finish_call replace
  finish_call_pending d h = ground arith

  pub finish_call_done : ((finish_call service key c cacheable order s).calls c).ready ≡ true
  unfolding finish_call replace
  finish_call_done = ground arith

  pub finish_call_plan :
      (d : ℕ) → ((finish_call service key c cacheable order s).calls d).plan ≡ (s.calls d).plan
  unfolding finish_call replace
  finish_call_plan d = ground arith

  pub finish_call_from :
      (k : Bytes) (d : ℕ)
      → lookup k (finish_call service key c cacheable order s).cache ≡ some d
      → lookup k s.cache ≡ some d
  unfolding finish_call
  finish_call_from k d h = forget cacheable (evicted _ _ h)
    where
      forget :
          (b : Bool)
          → lookup k (if b then s.cache else delete key s.cache) ≡ some d
          → lookup k s.cache ≡ some d
      forget true h = h
      forget false h = (lookup-delete-some k key s.cache d h).1

      evicted :
          (cache : Map ℕ) (b : Bool)
          → lookup k (if b then evict service.cache_entries key done order cache else cache)
            ≡ some d
          → lookup k cache ≡ some d
      evicted cache true h = evict_from key done service.cache_entries order cache k d h
      evicted cache false h = h

  pub finish_call_keeps :
      (k : Bytes) (d : ℕ)
      → same k key ≡ false
      → d ≢ c
      → (s.calls d).ready ≡ false
      → lookup k s.cache ≡ some d
      → lookup k (finish_call service key c cacheable order s).cache ≡ some d
  unfolding finish_call
  finish_call_keeps k d apart ne r h = evicted _ _ (remembered cacheable)
    where
      remembered : (b : Bool) → lookup k (if b then s.cache else delete key s.cache) ≡ some d
      remembered true = h
      remembered false = lookup-delete_other k key s.cache apart ∙ h

      evicted :
          (cache : Map ℕ) (b : Bool)
          → lookup k cache ≡ some d
          → lookup k (if b then evict service.cache_entries key done order cache else cache)
            ≡ some d
      evicted cache true h =
          evict_keeps key done service.cache_entries order cache k d h
            (unfold finish_call in finish_call_pending d ne ∙ r)
      evicted cache false h = h
