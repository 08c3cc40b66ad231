-- ===== src/Tests/Storing.antt =====
-- A save of an empty state.
use mediastub.Prelude.{Option, none, some, [], ◌∷◌}
use mediastub.Core.Base.{Bytes}
use mediastub.Syncer.Store.{State, Failure, failed, Result, ok, Disk, Op, sync_dir}

abbrev empty_state : State
empty_state = record {
  version = 2;
  remote = 1 ∷ [];
  local_root = 2 ∷ [];
  media = some [];
  sidecars = some [];
}

abbrev decode_empty : Bytes → State → Result State
decode_empty text initial = ok empty_state

-- The directory cannot be synced.
abbrev one_fails : Op → Option Failure
one_fails sync_dir = some (failed 5)
one_fails _ = none

abbrev old_disk : Disk
old_disk = record { state = none; temporary = none }
