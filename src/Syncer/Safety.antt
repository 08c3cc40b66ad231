-- ===== src/Syncer/Safety.antt =====
-- What a history of the synchronizer must be like: uploads and removals come only after the remote
-- has said that it does not have the path.
pub mod Leads
pub mod Upload
pub mod Removal
pub mod Reconcile
use mediastub.Prelude.{
  ◌≡◌, refl, Bool, true, false, not, ◌||◌, Option, none, some, List, [], ◌∷◌, if◌then◌else◌,
}
use mediastub.Prelude.Maps.{Map, lookup, same}
use mediastub.Core.Base.{Bytes}
use mediastub.Syncer.Base.{
  RelPath, Error, is_not_found, Result, ok, err, Entry, MediaState, MediaStatus, uploading,
}
use mediastub.Syncer.World.{Call, Reply, Event, stat, put, remove, save}
use mediastub.Syncer.Reconcile.{belongs}

abbrev says_absent : Result Entry → Bool
says_absent (err e) = is_not_found e
says_absent _ = false

abbrev is_uploading : MediaStatus → Bool
is_uploading uploading = true
is_uploading _ = false

abbrev pub has_uploading : Option MediaState → Bool
has_uploading none = false
has_uploading (some m) = is_uploading m.status

abbrev saved_uploading : RelPath → Map MediaState → Result (Unit {0}) → Bool
saved_uploading rel media (ok u) = has_uploading (lookup rel media)
saved_uploading rel media _ = false

abbrev absent_step : RelPath → (c : Call) → Reply c → Bool → Bool
absent_step rel (stat p) r before = if same p rel then says_absent r else before
absent_step rel (put p n) r before = if same p rel then false else before
absent_step rel _ r before = before

-- The last answer of the remote about the path was that it is not there, and no upload followed.
unfoldable pub absent : RelPath → List Event → Bool
absent rel [] = false
absent rel (ev ∷ t) = absent_step rel ev.call ev.reply (absent rel t)

abbrev journal_step : RelPath → (c : Call) → Reply c → Bool → Bool
journal_step rel (save media sidecars) r before = saved_uploading rel media r
journal_step rel _ r before = before

-- The state that was saved last has the path as being uploaded.
unfoldable pub journaled : RelPath → List Event → Bool
journaled rel [] = false
journaled rel (ev ∷ t) = journal_step rel ev.call ev.reply (journaled rel t)

module _ (to_lower : Bytes → Bytes) where
  -- What must have happened before a call: before an upload of a path and before the removal of a
  -- file of the media unit `rel`.
  abbrev pub Allowed : Call → List Event → Type 0
  Allowed (put p n) t = (absent p t ≡ true) × (journaled p t ≡ true)
  Allowed (remove p) t =
      (rel : RelPath) × (absent rel t ≡ true) × ((same p rel || belongs to_lower rel p) ≡ true)
  Allowed _ t = Unit

  -- Every call of the history was allowed when it was made.
  abbrev pub IsSafe : List Event → Type 0
  IsSafe [] = Unit
  IsSafe (ev ∷ t) = Allowed ev.call t × IsSafe t
