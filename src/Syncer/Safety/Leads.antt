-- ===== src/Syncer/Safety/Leads.antt =====
-- Programs that lead from what holds of a history to what holds of a longer one.
use mediastub.Prelude.{◌≡◌, Bool, true, false, List, ◌∷◌, if◌then◌else◌, Bool-cases, inl, inr}
use mediastub.Prelude.Maps.{same_refl}
use mediastub.Core.Base.{Bytes}
use mediastub.Syncer.Base.{RelPath, Error, Result, ok, err, is_not_found, Entry}
use mediastub.Syncer.World.{
  Call, Reply, Event, Env, Run, Act, settle_result, handle, ask, stat, put, remove,
}
use mediastub.Syncer.Steady.{IsClosed, is_quiet, Steady}
use mediastub.Syncer.Safety.{absent, journaled, Allowed, IsSafe}

Allowed-quiet :
    (to_lower : Bytes → Bytes) (c : Call) (t : List Event)
    → is_quiet c ≡ true
    → Allowed to_lower c t
Allowed-quiet to_lower (put p n) t q = cc
Allowed-quiet to_lower (remove p) t q = cc
Allowed-quiet to_lower _ t q = tt

absent_quiet :
    (rel : RelPath) (c : Call) (r : Reply c) (t : List Event)
    → is_quiet c ≡ true
    → absent rel t ≡ true
    → absent rel (record { call = c; reply = r } ∷ t) ≡ true
unfolding absent
absent_quiet rel (put p n) r t q h = cc
absent_quiet rel (stat p) r t q h = cc
absent_quiet rel _ r t q h = h

-- A program that is begun where `P` holds of the history ends where `Q` does.
pub record Leads (P Q : List Event → Type 0) {A : Type 0} (m : Act A) : Type 0 where
  pub leads : (s : Run) → P s.trace → Q (m s).1.trace

module _ (P R Q : List Event → Type 0) where
  settle_result-Leads :
      {A B : Type 0} (r : Result A × Run) (bad : Error → Act B) (good : A → Act B)
      → R r.1.trace
      → ((e : Error) → Leads R Q (bad e))
      → ((a : A) → Leads R Q (good a))
      → (s : Run) → Q (settle_result r bad good s).1.trace
  settle_result-Leads (ok a, t) bad good h hb hg s = (hg a).leads t h
  settle_result-Leads (err e, t) bad good h hb hg s = (hb e).leads t h

  pub handle-Leads :
      {A B : Type 0} (m : Act A) (bad : Error → Act B) (good : A → Act B)
      → Leads P R m
      → ((e : Error) → Leads R Q (bad e))
      → ((a : A) → Leads R Q (good a))
      → Leads P Q (handle m bad good)
  unfolding handle
  handle-Leads m bad good hm hb hg = record {
    leads = λ s h. settle_result-Leads (m s) bad good (hm.leads s h) hb hg s;
  }

pub if-Leads :
    {A : Type 0} (P Q : List Event → Type 0) (b : Bool) (m n : Act A)
    → (b ≡ true → Leads P Q m)
    → (b ≡ false → Leads P Q n)
    → Leads P Q (if b then m else n)
if-Leads P Q true m n hm hn = hm (λ i. true)
if-Leads P Q false m n hm hn = hn (λ i. false)

pub steadily :
    {A : Type 0} (T Q : List Event → Type 0) (m : Act A)
    → ((t : List Event) → T t → Q t)
    → Steady T m
    → Leads T Q m
steadily T Q m weaken h = record { leads = λ s v. weaken _ (h.keeps s v) }

module _ (to_lower : Bytes → Bytes) where
  abbrev pub Safe : List Event → Type 0
  Safe t = IsSafe to_lower t

  pub IsSafe-IsClosed : IsClosed Safe
  IsSafe-IsClosed c r t q h = (Allowed-quiet to_lower c t q, h)

  -- The history is safe, and the remote does not have the path.
  abbrev pub Absent : RelPath → List Event → Type 0
  Absent rel t = IsSafe to_lower t × (absent rel t ≡ true)

  pub Absent-IsClosed : (rel : RelPath) → IsClosed (Absent rel)
  Absent-IsClosed rel c r t q h = (IsSafe-IsClosed c r t q h.0, absent_quiet rel c r t q h.1)

  -- Moreover, the path is saved as being uploaded.
  abbrev pub Started : RelPath → List Event → Type 0
  Started rel t = IsSafe to_lower t × (absent rel t ≡ true) × (journaled rel t ≡ true)

  pub Absent-Safe : (rel : RelPath) (t : List Event) → Absent rel t → Safe t
  Absent-Safe rel t h = h.0

  module _ (env : Env) where
    settle_stat :
        {A : Type 0} (rel : RelPath) (bad : Error → Act A) (good : Entry → Act A) (s : Run)
        → ((e : Error) → is_not_found e ≡ true → Leads (Absent rel) Safe (bad e))
        → ((e : Error) → is_not_found e ≡ false → Leads Safe Safe (bad e))
        → ((remote : Entry) → Leads Safe Safe (good remote))
        → Safe s.trace
        → (r : Result Entry) (s' : Run)
        → Safe
            (settle_result
              (r, record s { trace = record { call = stat rel; reply = r } ∷ s.trace })
              bad
              good
              s').1.trace
    unfolding absent
    settle_stat rel bad good s there gone found h (ok remote) s' = (found remote).leads _ (tt, h)
    settle_stat rel bad good s there gone found h (err e) s' = elim (Bool-cases (is_not_found e)) [
      | inl is_absent ↦ (there e is_absent).leads _ ((tt, h), rw (same_refl rel) is_absent)
      | inr other_error ↦ (gone e other_error).leads _ (tt, h)
    ]

    -- The remote is asked for the path; its absence is known in the one branch.
    pub stat-Leads :
        {A : Type 0} (rel : RelPath) (bad : Error → Act A) (good : Entry → Act A)
        → ((e : Error) → is_not_found e ≡ true → Leads (Absent rel) Safe (bad e))
        → ((e : Error) → is_not_found e ≡ false → Leads Safe Safe (bad e))
        → ((remote : Entry) → Leads Safe Safe (good remote))
        → Leads Safe Safe (handle (ask env (stat rel)) bad good)
    unfolding handle
    stat-Leads rel bad good there gone found = record {
      leads = λ s h. settle_stat rel bad good s there gone found h (env s.trace (stat rel)) s;
    }
