-- ===== src/Mountfs/Cache/Callers.antt =====
-- mountfs/service.go: the callers of `decide`, one step at a time.
use mediastub.Prelude.{ℕ, ◌≡◌, Bool, true, false, none, some, List, [], if◌then◌else◌}
use mediastub.Core.Base.{Bytes}
use mediastub.Syncer.Base.{Entry}
use mediastub.Mountfs.Base.{Error, is_context_error, fingerprint}
use mediastub.Mountfs.Cache.{
  Decision, Outcome, Ranges, Service, Shared, Verdict, cached_call, finish_call, new_call, no_stub,
  replace, stub_candidate, verdict,
}

-- Where a caller of `decide` stands.
pub data Caller : Type 0 where
  idle : Caller
  -- in the `select` of `cachedCall`
  waiting : Entry → ℕ → Caller
  -- before `Open`, and before the deferred `finishCall`
  leading : Entry → ℕ → Caller
  finishing : Entry → ℕ → Bool → Decision → Caller
  returned : Entry → Decision → Caller

pub record System : Type 0 where
  pub shared : Shared
  pub callers : ℕ → Caller

abbrev entered : Entry → (ℕ × Bool) × Shared → Caller × Shared
entered e ((c, true), s) = (leading e c, s)
entered e ((c, false), s) = (waiting e c, s)

-- The first step of `decide`.
unfoldable pub enter : Service → Entry → Shared → Caller × Shared
unfolding cached_call
enter service e s =
    if stub_candidate service e
    then entered e (cached_call (fingerprint e) s)
    else (returned e no_stub, s)

-- `call.plan` and `call.err` are set.
unfoldable pub settle : ℕ → Verdict → Shared → Shared
settle c v s = record s {
  calls = replace s.calls c (record (s.calls c) { plan = v.plan; error = v.error });
}

abbrev pub set_caller : ℕ → Caller × Shared → System → System
set_caller i (p, shared) s = record { shared = shared; callers = replace s.callers i p }

-- One step of one caller. `Answers` says which outcomes `Open`, `Probe` and `Close` can have for an
-- entry.
pub data Step (service : Service) (Answers : Entry → Outcome → Type 0) (s : System)
    : System → Type 0 where
  enters :
      (i : ℕ) (e : Entry)
      → s.callers i ≡ idle
      → Step service Answers s (set_caller i (enter service e s.shared) s)
  -- `<-call.ready`
  takes :
      (i : ℕ) (e : Entry) (c : ℕ)
      → s.callers i ≡ waiting e c
      → (s.shared.calls c).ready ≡ true
      → Step service Answers s (
          set_caller i
            (
              returned e
                  (record { plan = (s.shared.calls c).plan; error = (s.shared.calls c).error }),
              s.shared,
            )
            s)
  -- `<-ctx.Done()`
  gives_up :
      (i : ℕ) (e : Entry) (c : ℕ) (cause : Error)
      → s.callers i ≡ waiting e c
      → is_context_error cause ≡ true
      → Step service Answers s
          (set_caller i (returned e (record { plan = none; error = some cause }), s.shared) s)
  probes :
      (i : ℕ) (e : Entry) (c : ℕ) (o : Outcome)
      → s.callers i ≡ leading e c
      → Answers e o
      → Step service Answers s (
          set_caller i
            (
              finishing e c
                  (verdict service.on_error o).cacheable
                  (verdict service.on_error o).decision,
              settle c (verdict service.on_error o) s.shared,
            )
            s)
  finishes :
      (i : ℕ) (e : Entry) (c : ℕ) (cacheable : Bool) (d : Decision) (order : List Bytes)
      → s.callers i ≡ finishing e c cacheable d
      → Ranges order s.shared.cache
      → Step service Answers s (
          set_caller i
            (returned e d, finish_call service (fingerprint e) c cacheable order s.shared)
            s)

abbrev pub start : System
start = record {
  shared = record { cache = []; calls = λ c. new_call; next = 0 };
  callers = λ i. idle;
}

pub data Steps (service : Service) (Answers : Entry → Outcome → Type 0) (s : System)
    : System → Type 0 where
  here : Steps service Answers s s
  later :
      {t u : System}
      → Steps service Answers s t
      → Step service Answers t u
      → Steps service Answers s u

abbrev pub Reach : Service → (Entry → Outcome → Type 0) → System → Type 0
Reach service Answers s = Steps service Answers start s
