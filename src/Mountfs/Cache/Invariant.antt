-- ===== src/Mountfs/Cache/Invariant.antt =====
-- What holds of the cache of probes whenever no caller is in the middle of a step.
use mediastub.Prelude.{
  ℕ, ◌<◌, ◌≡◌, ◌≢◌, sym, subst, ap, ◌∙◌, Bool, false, Option, none, some, [], ◌==◌, arith,
  if◌then◌else◌, Bool-cases, inl, inr,
}
use mediastub.Prelude.Maps.{lookup}
use mediastub.Core.Base.{Bytes}
use mediastub.Core.Plan.{Plan}
use mediastub.Core.Probe.{Probed}
use mediastub.Syncer.Base.{Entry}
use mediastub.Mountfs.Base.{ok, fingerprint}
use mediastub.Mountfs.Cache.{Shared, Outcome, probed, Decision, replace}
use mediastub.Mountfs.Cache.Callers.{
  Caller, idle, waiting, leading, finishing, returned, System, start,
}

pub replace-elim {ℓ κ} :
    {A : Type ℓ} (P : A → Type κ) (f : ℕ → A) (i : ℕ) (a : A) (j : ℕ)
    → (j ≡ i → P a)
    → (j ≢ i → P (f j))
    → P (replace f i a j)
unfolding replace
replace-elim P f i a j h g = elim (Bool-cases (j == i)) [
  | inl e ↦ subst (λ b. P (if b then a else f j)) (sym e) (h (ground (arith, e)))
  | inr e ↦ subst (λ b. P (if b then a else f j)) (sym e) (g (ground (arith, e)))
]

-- The call that a caller leads.
abbrev pub leads : Caller → Option ℕ
leads (leading e c) = some c
leads (finishing e c cacheable d) = some c
leads _ = none

module _ (Answers : Entry → Outcome → Type 0) where
  -- A plan comes from a probe of an entry with the key.
  pub data Sourced (key : Bytes) : Option Plan → Type 0 where
    nothing : Sourced key none
    from :
        (e : Entry) (r : Probed)
        → fingerprint e ≡ key
        → Answers e (probed (ok r) none)
        → Sourced key (some r.plan)

  -- `made` says for which key a call was made.
  module _ (made : ℕ → Bytes) where
    pub record Owns (s : Shared) (e : Entry) (c : ℕ) : Type 0 where
      pub known : c < s.next
      pub keyed : made c ≡ fingerprint e
      pub held : lookup (fingerprint e) s.cache ≡ some c
      pub pending : (s.calls c).ready ≡ false

    pub data IsPlaced (s : Shared) : Caller → Type 0 where
      idle_placed : IsPlaced s idle
      waiting_placed :
          {e : Entry} {c : ℕ} → c < s.next → made c ≡ fingerprint e → IsPlaced s (waiting e c)
      leading_placed : {e : Entry} {c : ℕ} → Owns s e c → IsPlaced s (leading e c)
      finishing_placed :
          {e : Entry} {c : ℕ} {cacheable : Bool} {d : Decision}
          → Owns s e c
          → Sourced (fingerprint e) d.plan
          → IsPlaced s (finishing e c cacheable d)
      returned_placed :
          {e : Entry} {d : Decision} → Sourced (fingerprint e) d.plan → IsPlaced s (returned e d)

    pub record Inv (s : System) : Type 0 where
      -- The cache holds calls that were made for their keys.
      pub cached :
          (key : Bytes) (c : ℕ)
          → lookup key s.shared.cache ≡ some c
          → (c < s.shared.next) × (made c ≡ key)
      -- A call that is not ready has a leader, and one only.
      pub led :
          (c : ℕ)
          → c < s.shared.next
          → (s.shared.calls c).ready ≡ false
          → (i : ℕ) × (leads (s.callers i) ≡ some c)
      pub alone : (i j c : ℕ) → leads (s.callers i) ≡ some c → leads (s.callers j) ≡ some c → i ≡ j
      pub placed : (i : ℕ) → IsPlaced s.shared (s.callers i)
      pub sourced : (c : ℕ) → c < s.shared.next → Sourced (made c) (s.shared.calls c).plan

  -- One step leaves the calls of the callers that it is not about.
  pub record Frame (made made' : ℕ → Bytes) (s s' : Shared) (mine : ℕ) : Type 0 where
    pub grows : (c : ℕ) → c < s.next → (c < s'.next) × (made' c ≡ made c)
    pub keeps : (e : Entry) (c : ℕ) → c ≢ mine → Owns made s e c → Owns made' s' e c

  pub Frame-IsPlaced :
      {made made' : ℕ → Bytes} {s s' : Shared} {mine : ℕ} {p : Caller}
      → Frame made made' s s' mine
      → leads p ≢ some mine
      → IsPlaced made s p
      → IsPlaced made' s' p
  Frame-IsPlaced f ne idle_placed = idle_placed
  Frame-IsPlaced f ne (waiting_placed {c} h g) =
      waiting_placed (f.grows c h).0 ((f.grows c h).1 ∙ g)
  Frame-IsPlaced f ne (leading_placed {e} {c} h) =
      leading_placed (f.keeps e c (λ q. ne (ap some q)) h)
  Frame-IsPlaced f ne (finishing_placed {e} {c} h g) =
      finishing_placed (f.keeps e c (λ q. ne (ap some q)) h) g
  Frame-IsPlaced f ne (returned_placed h) = returned_placed h

  pub start-Inv : Inv (λ c. []) start
  unfolding lookup
  start-Inv = record {
    cached = λ key c h. absurd cc;
    led = λ c h g. absurd (omega arith);
    alone = λ i j c h g. absurd cc;
    placed = λ i. idle_placed;
    sourced = λ c h. nothing;
  }
