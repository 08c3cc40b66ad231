-- ===== src/Syncer/World.antt =====
-- What the synchronizer asks of the world outside it, and programs that ask.
use mediastub.Prelude.{ℕ, Bool, List, ◌∷◌}
use mediastub.Prelude.Int.{ℤ}
use mediastub.Prelude.Maps.{Map}
use mediastub.Core.Base.{Bytes}
use mediastub.Core.Plan.{Extent}
use mediastub.Core.Probe.{Format, Probed}
use mediastub.Syncer.Base.{
  RelPath, Error, Result, ok, err, Entry, LocalFile, Inspected, MediaState, SidecarState, Snapshot,
}

-- The calls that leave the package: of the operating system, of the origin, of the packages core
-- and marker, of the state store and of the clock.
pub data Call : Type 0 where
  -- `os.Stat` behind `statLocal`, `marker.Inspect` and `unix.Access` with `W_OK`
  stat_local : RelPath → Call
  inspect : RelPath → ℤ → Call
  access : RelPath → Call
  -- `origin.Stat` and `mutable.Put`
  stat : RelPath → Call
  put : RelPath → ℤ → Call
  -- `os.Open` of a local file, its `Close`, and `core.Probe` on it
  open_local : RelPath → Call
  close_local : RelPath → Call
  probe_local : RelPath → ℤ → Call
  -- `probeEntry`
  probe_entry : Entry → Call
  -- `store.Save`
  save : Map MediaState → Map SidecarState → Call
  -- a timer or the end of the context, and `time.Now().After(deadline)`
  wait expired : Call
  -- `randomSuffix`
  random : Call
  -- `scanLocal`, `os.Remove` and `syncDirectory`
  scan_local : Call
  remove : RelPath → Call
  sync_directory : RelPath → Call
  -- `ctx.Err()`
  context : Call
  -- the steps of `materializePlanGuarded`: the temporary file stands beside the path
  make_parent : RelPath → Call
  create_temporary : RelPath → Bytes → Call
  truncate : ℕ → Call
  write_at : Extent → Call
  set_marker : Format → ℕ → Bytes → Bytes → Bytes → Call
  inspect_temporary : ℕ → Call
  sync_file change_mode : Call
  change_times : ℤ → Call
  close_temporary remove_temporary : Call
  rename : RelPath → Call

abbrev pub Reply : Call → Type 0
Reply (stat_local p) = Result LocalFile
Reply (inspect p n) = Result Inspected
Reply (access p) = Bool
Reply (stat p) = Result Entry
Reply (put p n) = Result Entry
Reply (probe_local p n) = Result Probed
Reply (probe_entry e) = Result Probed
Reply expired = Bool
Reply random = Bytes
Reply scan_local = Result (List RelPath)
Reply (write_at e) = Result ℕ
Reply (inspect_temporary n) = Result Inspected
Reply _ = Result (Unit {0})

pub record Event : Type 0 where
  pub call : Call
  pub reply : Reply call

-- The world answers a call by what has happened so far, the latest event first.
abbrev pub Env : Type 0
Env = List Event → (c : Call) → Reply c

-- The fields of a `Service` that its steps change, and what it has asked so far.
pub record Run : Type 0 where
  pub media : Map MediaState
  pub sidecars : Map SidecarState
  pub snapshot : Snapshot
  pub trace : List Event

abbrev pub Act : Type 0 → Type 0
Act A = Run → Result A × Run

abbrev pub pure : {A : Type 0} → A → Act A
pure a s = (ok a, s)

abbrev pub fail : {A : Type 0} → Error → Act A
fail e s = (err e, s)

abbrev pub settle_result : {A B : Type 0} → Result A × Run → (Error → Act B) → (A → Act B) → Act B
settle_result (ok a, s) bad good t = good a s
settle_result (err e, s) bad good t = bad e s

-- `a, err := m(); if err != nil { bad } ; good`
unfoldable pub handle : {A B : Type 0} → Act A → (Error → Act B) → (A → Act B) → Act B
handle m bad good s = settle_result (m s) bad good s

infixl 5 ◌>>=◌ ◌>>◌
-- The same where an error is returned to the caller.
abbrev pub ◌>>=◌ : {A B : Type 0} → Act A → (A → Act B) → Act B
m >>= good = handle m fail good

abbrev pub ◌>>◌ : {B : Type 0} → Act (Unit {0}) → Act B → Act B
m >> k = m >>= λ _. k

-- A step on the service's own fields.
abbrev pub update : (Run → Run) → Act (Unit {0})
update f s = (ok tt, f s)

-- Goes on with a part of the state.
abbrev pub view : {A B : Type 0} → (Run → A) → (A → Act B) → Act B
view f k s = k (f s) s

module _ (env : Env) where
  -- One call.
  abbrev pub ask : (c : Call) → Run → Reply c × Run
  ask c s =
      let r = env s.trace c in (r, record s { trace = record { call = c; reply = r } ∷ s.trace })

  -- A call that answers with a value, and goes on with it.
  unfoldable pub asked : {B : Type 0} → (c : Call) → (Reply c → Act B) → Act B
  asked c k s = let (r, t) = ask c s in k r t
