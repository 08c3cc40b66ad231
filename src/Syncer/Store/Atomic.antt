-- ===== src/Syncer/Store/Atomic.antt =====
-- A save that is cut off at any point leaves the old state or the new one.
use mediastub.Prelude.{◌≡◌, ◌⊎◌, Option, none, some, All}
use mediastub.Prelude.Maps.{Map}
use mediastub.Core.Base.{Bytes}
use mediastub.Syncer.Base.{MediaState, SidecarState}
use mediastub.Syncer.Store.{
  State, Failure, Result, ok, Disk, Op, state_version, fresh_state, open_state_store, Stored,
  change,
}

-- The file holds one of two contents.
abbrev IsEither : Option Bytes → Bytes → Disk → Type 0
IsEither old text disk = (disk.state ≡ old) ⊎ (disk.state ≡ some text)

-- All files that were seen hold one of two contents, and if there is no error, the last hold the new one.
record IsSaved (old : Option Bytes) (text : Bytes) (r : Option Failure × Stored) : Type 0 where
  all_seen : All (IsEither old text) r.1.seen
  done : r.0 ≡ none → r.1.disk.state ≡ some text

module _ (fails : Op → Option Failure) (partial : Bytes) (old : Option Bytes) (text : Bytes) where
  -- Before the rename
  record IsBefore (s : Stored) : Type 0 where
    now : s.disk.state ≡ old
    seen_before : All (IsEither old text) s.seen

  published : Stored → Stored
  published s = change (record { state = some text; temporary = none }) s

module _ (unmarshal : Bytes → State → Result State) (fails : Op → Option Failure) (partial : Bytes)
    (st : State) (media : Map MediaState) (sidecars : Map SidecarState) where
  -- A state of this version, whose maps are not nil
  abbrev pub IsCurrent : Type 0
  IsCurrent = (st.version ≡ state_version) × (st.media ≡ some media) × (st.sidecars ≡ some sidecars)

  -- What is opened later, when no call of the system fails
  abbrev pub reopened : Disk → Result State
  reopened disk = open_state_store unmarshal (λ op. none) st.remote st.local_root disk

  -- What `Unmarshal` decodes into
  abbrev pub initial : State
  initial = fresh_state unmarshal (λ op. none) st.remote st.local_root

  -- What is opened after a crash: the state before, or the one that was saved
  abbrev pub OpensEither : Disk → Disk → Type 0
  OpensEither disk d = (reopened d ≡ reopened disk) ⊎ (reopened d ≡ ok st)

  -- A save ended with an error, or the state that was saved is opened.
  abbrev pub EndsSaved : Option Failure × Stored → Type 0
  EndsSaved r = (¬ (r.0 ≡ none)) ⊎ (reopened r.1.disk ≡ ok st)
