-- ===== src/Mountfs/Cache.antt =====
-- mountfs/service.go: the cache of probes that the callers of `decide` share.
pub mod Invariant
pub mod Callers
pub mod Evict
pub mod Bounds
pub mod Preserved
pub mod Entering
pub mod Leading
pub mod Reachable
pub mod Sharing
use mediastub.Prelude.{
  ℕ, suc, ◌≡◌, Bool, true, false, not, ◌&&◌, ◌||◌, Option, none, some, List, [], ◌∷◌, length, ◌==◌,
  leb, ltb, if◌then◌else◌,
}
use mediastub.Prelude.Int.{ℤ, pos, negsuc}
use mediastub.Prelude.Maps.{Map, lookup, insert, delete, same}
use mediastub.Core.Base.{Bytes}
use mediastub.Core.Plan.{Plan}
use mediastub.Core.Probe.{Probed}
use mediastub.Syncer.Base.{Entry}
use mediastub.Mountfs.Base.{Error, wrapped, Result, ok, err, is_context_error, fingerprint}

-- `Config.OnError`, behind the check of `NewService`
pub data OnError : Type 0 where
  passthrough fail : OnError

-- What `decide` reads of a `Service`. The matcher answers for paths.
pub record Service : Type 0 where
  pub matches : Bytes → Bool
  pub on_error : OnError
  pub cache_entries : ℕ

abbrev pub is_positive : ℤ → Bool
is_positive (pos n) = ltb 0 n
is_positive (negsuc n) = false

-- `StubCandidate`
unfoldable pub stub_candidate : Service → Entry → Bool
stub_candidate service e = is_positive e.size && service.matches e.path

-- `probeCall`: `ready` says that its channel is closed.
pub record ProbeCall : Type 0 where
  pub ready : Bool
  pub plan : Option Plan
  pub error : Option Error

-- A plan and an error, as `decide` returns them.
pub record Decision : Type 0 where
  pub plan : Option Plan
  pub error : Option Error

abbrev pub no_stub : Decision
no_stub = record { plan = none; error = none }

-- Calls are shared by pointers, so they stand in a store: the cache and the callers hold places in it.
pub record Shared : Type 0 where
  pub cache : Map ℕ
  pub calls : ℕ → ProbeCall
  pub next : ℕ

unfoldable pub replace {ℓ} : {A : Type ℓ} → (ℕ → A) → ℕ → A → ℕ → A
replace f i a j = if j == i then a else f j

abbrev pub new_call : ProbeCall
new_call = record { ready = false; plan = none; error = none }

-- The part of `cachedCall` under the mutex: the call for a key, and whether the caller leads it.
unfoldable pub cached_call : Bytes → Shared → (ℕ × Bool) × Shared
unfolding replace
cached_call key s = elim (lookup key s.cache) [
  | some c ↦ ((c, false), s)
  | none ↦ (
    (s.next, true),
    record {
      cache = insert key s.next s.cache;
      calls = replace s.calls s.next new_call;
      next = suc s.next;
    },
  )
]

-- What one round of the loop of `finishCall` leaves of the cache.
abbrev pub without_ready : Bytes → (ℕ → ProbeCall) → Bytes → ℕ → Map ℕ → Map ℕ
without_ready key calls candidate c cache =
    if not (same candidate key) && (calls c).ready then delete candidate cache else cache

-- The loop over the map, in some order of its keys; entries that have gone are not visited.
unfoldable pub evict : ℕ → Bytes → (ℕ → ProbeCall) → List Bytes → Map ℕ → Map ℕ
evict bound key calls [] cache = cache
evict bound key calls (candidate ∷ order) cache = elim (lookup candidate cache) [
  | none ↦ evict bound key calls order cache
  | some c ↦
      let kept = without_ready key calls candidate c cache in
      let rest = evict bound key calls order kept in
      if not (same candidate key) && leb (length kept) bound then kept else rest
]

-- A list of keys that `range` can go through: every key of the map is among them.
unfoldable pub listed : Bytes → List Bytes → Bool
listed key [] = false
listed key (k ∷ ks) = same key k || listed key ks

abbrev pub Ranges : List Bytes → Map ℕ → Type 0
Ranges order cache = (key : Bytes) (c : ℕ) → lookup key cache ≡ some c → listed key order ≡ true

-- `finishCall`
unfoldable pub finish_call : Service → Bytes → ℕ → Bool → List Bytes → Shared → Shared
unfolding evict
finish_call service key c cacheable order s =
    let calls = replace s.calls c (record (s.calls c) { ready = true }) in
    let cache = if cacheable then s.cache else delete key s.cache in
    record s {
      calls = calls;
      cache =
          if ltb service.cache_entries (length cache)
          then evict service.cache_entries key calls order cache
          else cache;
    }

-- What the leader of a call gets: an error of `Open`, or a result of `Probe` and one of `Close`.
pub data Outcome : Type 0 where
  open_failed : Error → Outcome
  probed : Result Probed → Option Error → Outcome

-- `probeErr`, with the error of `Close` if there was none before.
abbrev pub probe_error : Result Probed → Option Error → Result Probed
probe_error (ok r) none = ok r
probe_error (ok r) (some e) = err e
probe_error (err e) close = err e

-- What the leader writes into its call, whether that may stay in the cache, and what it returns.
pub record Verdict : Type 0 where
  pub plan : Option Plan
  pub error : Option Error
  pub cacheable : Bool
  pub decision : Decision

abbrev pub after_probe : OnError → Result Probed → Verdict
after_probe policy (ok r) = record {
  plan = some r.plan;
  error = none;
  cacheable = true;
  decision = record { plan = some r.plan; error = none };
}
after_probe policy (err e) =
    if is_context_error e
    then record {
      plan = none;
      error = some e;
      cacheable = false;
      decision = record { plan = none; error = some e };
    }
    else elim policy [
      | passthrough ↦ record { plan = none; error = none; cacheable = true; decision = no_stub }
      | fail ↦ record {
        plan = none;
        error = some (wrapped e);
        cacheable = true;
        decision = record { plan = none; error = some (wrapped e) };
      }
    ]

-- The body of `decide` for the leader of a call.
unfoldable pub verdict : OnError → Outcome → Verdict
verdict policy (open_failed e) = record {
  plan = none;
  error = some e;
  cacheable = not (is_context_error e);
  decision = record { plan = none; error = some e };
}
verdict policy (probed r close) = after_probe policy (probe_error r close)
