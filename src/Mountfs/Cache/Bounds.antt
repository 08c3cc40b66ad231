-- ===== src/Mountfs/Cache/Bounds.antt =====
-- How many calls `finishCall` leaves in the cache.
use mediastub.Prelude.{
  ℕ, ◌≤◌, ◌≡◌, ◌⊎◌, inl, inr, sym, ap, ◌∙◌, Bool, true, false, not, ◌&&◌, none, some, List, [], ◌∷◌,
  length, leb, leb→le, ltb, arith, if◌then◌else◌, Bool-cases, Option-cases,
}
use mediastub.Prelude.Maps.{Map, lookup, delete, same, same_sound, lookup-delete-some}
use mediastub.Core.Base.{Bytes}
use mediastub.Mountfs.Cache.{
  ProbeCall, Shared, Service, replace, without_ready, evict, listed, Ranges, finish_call,
}
use mediastub.Mountfs.Cache.Evict.{
  evict_from, evict_missing, evict_found, some_injective, without_ready_from,
}

-- All that is left under other keys than one's own is not ready.
abbrev pub AllPending : Bytes → (ℕ → ProbeCall) → Map ℕ → Type 0
AllPending key calls cache =
    (k : Bytes) (c : ℕ) → same k key ≡ false → lookup k cache ≡ some c → (calls c).ready ≡ false

module _ (key : Bytes) (calls : ℕ → ProbeCall) (bound : ℕ) where
  -- The same for the keys of a list.
  abbrev PendingIn : List Bytes → Map ℕ → Type 0
  PendingIn order cache =
      (k : Bytes) (c : ℕ)
      → listed k order ≡ true
      → same k key ≡ false
      → lookup k cache ≡ some c
      → (calls c).ready ≡ false

  visited :
      (candidate : Bytes) (c : ℕ) (cache : Map ℕ) (k : Bytes) (d : ℕ)
      → lookup candidate cache ≡ some c
      → same k candidate ≡ true
      → same k key ≡ false
      → lookup k (without_ready key calls candidate c cache) ≡ some d
      → (calls d).ready ≡ false
  visited candidate c cache k d found e apart h = elim (Bool-cases (calls c).ready) [
    | inr pending ↦ ap (λ j. (calls j).ready) (sym same_call) ∙ pending
    | inl ready ↦
        absurd (clash e (lookup-delete-some k candidate cache d (rw (mine, ready) at h)).0)
  ]
    where
      same_call : c ≡ d
      same_call = some_injective (
          sym found
          ∙ ap (λ v. lookup v cache) (sym (same_sound k candidate e))
          ∙ without_ready_from key calls candidate c cache k d h)

      mine : same candidate key ≡ false
      mine = ap (λ v. same v key) (sym (same_sound k candidate e)) ∙ apart

      clash : {b : Bool} → b ≡ true → b ≡ false → ⊥
      clash g h = cc

  listed-cases :
      (k candidate : Bytes) (order : List Bytes)
      → listed k (candidate ∷ order) ≡ true
      → (same k candidate ≡ true) ⊎ (listed k order ≡ true)
  unfolding listed
  listed-cases k candidate order h = ground (arith, h)

  -- A round for a key, before the rounds for the others.
  after_round :
      (candidate : Bytes) (c : ℕ) (order : List Bytes) (cache rest : Map ℕ)
      → lookup candidate cache ≡ some c
      → ((k : Bytes) (d : ℕ)
          → lookup k rest ≡ some d
          → lookup k (without_ready key calls candidate c cache) ≡ some d)
      → PendingIn order rest
      → PendingIn (candidate ∷ order) rest
  after_round candidate c order cache rest e back h k d l apart found =
      elim (listed-cases k candidate order l) [
        | inl here ↦ visited candidate c cache k d e here apart (back k d found)
        | inr there ↦ h k d there apart found
      ]

  evict_bounded :
      (order : List Bytes) (cache : Map ℕ)
      → (length (evict bound key calls order cache) ≤ bound)
        ⊎ PendingIn order (evict bound key calls order cache)
  evict_bounded [] cache = inr (λ k c h. absurd (unfold listed in cc))
  evict_bounded (candidate ∷ order) cache = elim (Option-cases (lookup candidate cache)) [
    | inl e ↦
        rw (evict_missing key calls bound candidate order cache e)
          (elim (evict_bounded order cache) [
            | inl small ↦ inl small
            | inr h ↦ inr (λ k d l apart found. elim (listed-cases k candidate order l) [
              | inl here ↦
                  absurd (gone k d here e (evict_from key calls bound order cache k d found))
              | inr there ↦ h k d there apart found
            ])
          ])
    | inr (c, e) ↦
        let kept = without_ready key calls candidate c cache in
        rw (evict_found key calls bound candidate order cache c e)
          (elim (Bool-cases (not (same candidate key) && leb (length kept) bound)) [
            | inl stop ↦ rw stop (inl (leb→le (length kept) bound (second _ _ stop)))
            | inr go_on ↦ rw go_on (elim (evict_bounded order kept) [
              | inl small ↦ inl small
              | inr h ↦ inr (
                  after_round candidate c order cache _ e
                    (λ k d. evict_from key calls bound order kept k d) h)
            ])
          ])
  ]
    where
      second : (a b : Bool) → (a && b) ≡ true → b ≡ true
      second true b h = h
      second false b h = cc

      gone :
          (k : Bytes) (d : ℕ)
          → same k candidate ≡ true
          → lookup candidate cache ≡ none
          → lookup k cache ≡ some d
          → ⊥
      gone k d here e found =
          apart (sym found ∙ ap (λ v. lookup v cache) (same_sound k candidate here) ∙ e)
        where
          apart : some d ≡ none → ⊥
          apart q = cc

module _ (service : Service) (key : Bytes) (c : ℕ) (cacheable : Bool) (order : List Bytes)
    (s : Shared) where
  abbrev finished : ℕ → ProbeCall
  finished = replace s.calls c (record (s.calls c) { ready = true })

  abbrev evicted : Map ℕ → Map ℕ
  evicted cache =
      if ltb service.cache_entries (length cache)
      then evict service.cache_entries key finished order cache
      else cache

  -- `finishCall` leaves no more calls in the cache than `CacheEntries`, or else no call of another key
  -- that is ready, in whatever order the loop visits the keys of the map.
  pub finish_call_bounded :
      Ranges order s.cache
      → (length (finish_call service key c cacheable order s).cache ≤ service.cache_entries)
        ⊎ AllPending key
            (finish_call service key c cacheable order s).calls
            (finish_call service key c cacheable order s).cache
  unfolding finish_call
  finish_call_bounded ranges =
      of_cache (if cacheable then s.cache else delete key s.cache) (from cacheable)
    where
      from :
          (b : Bool) (k : Bytes) (d : ℕ)
          → lookup k (if b then s.cache else delete key s.cache) ≡ some d
          → lookup k s.cache ≡ some d
      from true k d h = h
      from false k d h = (lookup-delete-some k key s.cache d h).1

      of_cache :
          (cache : Map ℕ)
          → ((k : Bytes) (d : ℕ) → lookup k cache ≡ some d → lookup k s.cache ≡ some d)
          → (length (evicted cache) ≤ service.cache_entries)
            ⊎ AllPending key finished (evicted cache)
      of_cache cache back = elim (Bool-cases (ltb service.cache_entries (length cache))) [
        | inr small ↦ rw small (inl (ground (arith, small)))
        | inl large ↦
            rw large (elim (evict_bounded key finished service.cache_entries order cache) [
              | inl h ↦ inl h
              | inr h ↦ inr (λ k d apart found.
                  h k d
                    (ranges k d (
                      back k d
                        (evict_from key finished service.cache_entries order cache k d found)))
                    apart found)
            ])
      ]
