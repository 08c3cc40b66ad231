-- ===== src/Syncer/Store.antt =====
-- syncer/state.go: the state that the synchronizer keeps in a file.
pub mod Atomic
use mediastub.Prelude.{
  ℕ, ◌==◌, Bool, true, false, not, ◌&&◌, ◌||◌, Option, none, some, List, [], ◌∷◌, ◌++◌,
  if◌then◌else◌,
}
use mediastub.Prelude.Maps.{Map, same}
use mediastub.Core.Base.{Bytes}
use mediastub.Syncer.Base.{MediaState, SidecarState}

-- `State`; a map that is nil is `none`.
pub record State : Type 0 where
  pub version : ℕ
  pub remote : Bytes
  pub local_root : Bytes
  pub media : Option (Map MediaState)
  pub sidecars : Option (Map SidecarState)

-- Errors: of the checks of `openStateStore`, and of the system and of JSON, by number.
pub data Failure : Type 0 where
  lock_held unsupported_version other_state : Failure
  failed : ℕ → Failure

pub data Result (A : Type 0) : Type 0 where
  ok : A → Result A
  err : Failure → Result A

-- The files `state.json` and `state.json.tmp`
pub record Disk : Type 0 where
  pub state : Option Bytes
  pub temporary : Option Bytes

-- The calls of `openStateStore` and `Save` that may fail
pub data Op : Type 0 where
  make_dir open_lock lock read_state : Op
  open_temporary write_data sync_data close_data remove rename open_dir sync_dir close_dir : Op

-- `stateVersion`
abbrev pub state_version : ℕ
state_version = 2

module _ (unmarshal : Bytes → State → Result State) (fails : Op → Option Failure)
    (remote local_root : Bytes) where
  abbrev pub fresh_state : State
  fresh_state = record {
    version = state_version;
    remote = remote;
    local_root = local_root;
    media = some [];
    sidecars = some [];
  }

  abbrev pub not_nil : {A : Type 0} → Option (Map A) → Option (Map A)
  not_nil none = some []
  not_nil (some m) = some m

  -- The checks of a state that was decoded
  abbrev pub checked_state : Result State → Result State
  checked_state (err e) = err e
  checked_state (ok st) =
      if not (st.version == 1 || st.version == state_version)
      then err unsupported_version
      else if not (same st.remote remote && same st.local_root local_root)
      then err other_state
      else ok (record st {
        version = state_version;
        media = not_nil st.media;
        sidecars = not_nil st.sidecars;
      })

  abbrev pub read_file : Option Failure → Option Bytes → Result State
  read_file (some e) text = err e
  read_file none none = ok fresh_state
  read_file none (some text) = checked_state (unmarshal text fresh_state)

  abbrev pub or_fail : Option Failure → Result State → Result State
  or_fail (some e) rest = err e
  or_fail none rest = rest

  -- `openStateStore`: the state; the lock is held if there is one, and released otherwise.
  unfoldable pub open_state_store : Disk → Result State
  open_state_store disk =
      or_fail (fails make_dir)
        (or_fail (fails open_lock) (or_fail (fails lock) (read_file (fails read_state) disk.state)))

-- What a run has made of the files: the files now, and all that were there on the way.
pub record Stored : Type 0 where
  pub disk : Disk
  pub seen : List Disk

abbrev pub change : Disk → Stored → Stored
change disk s = record { disk = disk; seen = disk ∷ s.seen }

-- `if err == nil { err = later }`
abbrev pub first : Option Failure → Option Failure → Option Failure
first (some e) later = some e
first none later = later

module _ (fails : Op → Option Failure) (partial : Bytes) where
  -- The bytes that a write leaves, which are any if it fails
  abbrev left_by : Option Failure → Bytes → Bytes
  left_by none text = text
  left_by (some e) text = partial

  -- What is on the disk of a file that was written and synced, if no error came; without a sync, the
  -- end of the machine may leave any bytes.
  abbrev pub durable : Option Failure → Bytes → Bytes
  durable none text = text
  durable (some e) text = partial

  abbrev pub removed : Option Failure → Stored → Stored
  removed (some e) s = s
  removed none s = change (record s.disk { temporary = none }) s

  -- `_ = os.Remove(tmp); return err`
  abbrev give_up : Failure → Stored → Option Failure × Stored
  give_up e s = (some e, removed (fails remove) s)

  abbrev pub sync_parent : Option Failure → Stored → Option Failure × Stored
  sync_parent (some e) s = (some e, s)
  sync_parent none s = (first (fails sync_dir) (fails close_dir), s)

  abbrev pub publish : Option Failure → Bytes → Stored → Option Failure × Stored
  publish (some e) text s = give_up e s
  publish none text s =
      sync_parent (fails open_dir) (change (record { state = some text; temporary = none }) s)

  abbrev pub publish_unless : Option Failure → Bytes → Stored → Option Failure × Stored
  publish_unless (some e) text s = give_up e s
  publish_unless none text s = publish (fails rename) text s

  abbrev pub write_temporary : Bytes → Stored → Stored
  write_temporary text s =
      change (record s.disk { temporary = some (left_by (fails write_data) text) })
        (change (record s.disk { temporary = some [] }) s)

  abbrev pub save_written : Option Failure → Bytes → Stored → Option Failure × Stored
  save_written synced text s =
      publish_unless (first synced (fails close_data)) (durable synced text)
        (write_temporary text s)

  abbrev pub save_opened : Option Failure → Bytes → Stored → Option Failure × Stored
  save_opened (some e) text s = (some e, s)
  save_opened none text s = save_written (first (fails write_data) (fails sync_data)) text s

  -- `Save`, of what `json.MarshalIndent` gives
  unfoldable pub save_store : Result Bytes → Stored → Option Failure × Stored
  save_store (err e) s = (some e, s)
  save_store (ok text) s = save_opened (fails open_temporary) (text ++ b'\n' ∷ []) s
