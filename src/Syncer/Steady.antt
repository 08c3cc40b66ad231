-- ===== src/Syncer/Steady.antt =====
-- Programs that neither ask the remote for a path, nor write to it, nor remove local files: what is
-- known of these is the same before and after.
pub mod Publish
pub mod Programs
use mediastub.Prelude.{◌≡◌, sym, subst, Bool, true, false, List, ◌∷◌, if◌then◌else◌}
use mediastub.Syncer.Base.{Error, Result, ok, err}
use mediastub.Syncer.World.{
  Call, Reply, Event, Env, Run, Act, settle_result, handle, ask, asked, update, view, stat, put,
  remove, pure, fail, context, truncate, write_at, set_marker, inspect_temporary, sync_file,
  change_mode, change_times, close_temporary,
}

abbrev pub is_quiet : Call → Bool
is_quiet (stat p) = false
is_quiet (put p n) = false
is_quiet (remove p) = false
is_quiet _ = true

-- The calls that write the temporary file of a stub.
abbrev pub is_writing : Call → Bool
is_writing context = true
is_writing (truncate n) = true
is_writing (write_at e) = true
is_writing (set_marker f n etag hash url) = true
is_writing (inspect_temporary n) = true
is_writing sync_file = true
is_writing change_mode = true
is_writing (change_times t) = true
is_writing close_temporary = true
is_writing _ = false

-- Calls that pass the test do not end what holds of a history.
abbrev pub IsClosedFor : (Call → Bool) → (List Event → Type 0) → Type 0
IsClosedFor test T =
    (c : Call) (r : Reply c) (t : List Event)
    → test c ≡ true
    → T t
    → T (record { call = c; reply = r } ∷ t)

abbrev pub IsClosed : (List Event → Type 0) → Type 0
IsClosed T = IsClosedFor is_quiet T

module _ (T : List Event → Type 0) where
  -- What `T` says of the history holds after the program if it held before.
  pub record Steady {A : Type 0} (m : Act A) : Type 0 where
    pub keeps : (s : Run) → T s.trace → T (m s).1.trace

  settle_result-Steady :
      {A B : Type 0} (r : Result A × Run) (bad : Error → Act B) (good : A → Act B)
      → T r.1.trace
      → ((e : Error) → Steady (bad e))
      → ((a : A) → Steady (good a))
      → (s : Run) → T (settle_result r bad good s).1.trace
  settle_result-Steady (ok a, t) bad good h hb hg s = (hg a).keeps t h
  settle_result-Steady (err e, t) bad good h hb hg s = (hb e).keeps t h

  pub handle-Steady :
      {A B : Type 0} (m : Act A) (bad : Error → Act B) (good : A → Act B)
      → Steady m
      → ((e : Error) → Steady (bad e))
      → ((a : A) → Steady (good a))
      → Steady (handle m bad good)
  unfolding handle
  handle-Steady m bad good hm hb hg = record {
    keeps = λ s h. settle_result-Steady (m s) bad good (hm.keeps s h) hb hg s;
  }

  -- A program that asks nothing.
  pub silent-Steady : {A : Type 0} (m : Act A) → ((s : Run) → (m s).1.trace ≡ s.trace) → Steady m
  silent-Steady m e = record { keeps = λ s h. subst T (sym (e s)) h }

  pub pure-Steady : {A : Type 0} (a : A) → Steady (pure a)
  pure-Steady a = record { keeps = λ s h. h }

  pub fail-Steady : {A : Type 0} (e : Error) → Steady (fail {A = A} e)
  fail-Steady e = record { keeps = λ s h. h }

  pub bind-Steady :
      {A B : Type 0} (m : Act A) (good : A → Act B)
      → Steady m
      → ((a : A) → Steady (good a))
      → Steady (handle m fail good)
  bind-Steady m good hm hg = handle-Steady m fail good hm (λ e. fail-Steady e) hg

  pub if-Steady :
      {A : Type 0} (b : Bool) (m n : Act A) → Steady m → Steady n → Steady (if b then m else n)
  if-Steady true m n hm hn = hm
  if-Steady false m n hm hn = hn

module _ (env : Env) (T : List Event → Type 0) {test : Call → Bool}
    (closed : IsClosedFor test T) where
  pub ask_keeps : (c : Call) → test c ≡ true → (s : Run) → T s.trace → T (ask env c s).1.trace
  ask_keeps c q s h = closed c (env s.trace c) s.trace q h

  pub asked-Steady :
      {B : Type 0} (c : Call) (k : Reply c → Act B)
      → test c ≡ true
      → ((r : Reply c) → Steady T (k r))
      → Steady T (asked env c k)
  unfolding asked
  asked-Steady c k q hk = record {
    keeps = λ s h. (hk (env s.trace c)).keeps _ (closed c (env s.trace c) s.trace q h);
  }
