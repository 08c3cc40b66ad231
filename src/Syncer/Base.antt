-- ===== src/Syncer/Base.antt =====
-- The data of the package syncer: origin entries, local files, markers and the synchronizer's state.
use mediastub.Prelude.{
  ℕ, ◌+◌, ◌-◌, ◌/◌, ◌%◌, ◌^◌, Bool, true, false, ◌||◌, ◌&&◌, Option, none, some, List, [], ◌∷◌,
  ◌==◌, ltb, if◌then◌else◌, suc,
}
use mediastub.Prelude.Int.{ℤ, pos, negsuc}
use mediastub.Prelude.Maps.{Map, same}
use mediastub.Core.Base.{Bytes}
use mediastub.Core.Probe.{Format}

-- A slash-separated path below the root.
abbrev pub RelPath : Type 0
RelPath = Bytes

-- `PutStage`
pub data Stage : Type 0 where
  transfer response verify : Stage

-- Errors as the package tells them apart; `other` is any error of a callee.
pub data Error : Type 0 where
  not_found not_exist permission : Error
  put_error : Stage → Error → Error
  not_settled changed_locally upload_conflict unverified bad_marker short_write marker_lost : Error
  joined : Error → Error → Error
  -- no Go value: a loop of the model ran out of rounds
  out_of_rounds : Error
  other : ℕ → Error

-- `errors.Is(err, origin.ErrNotFound)`
unfoldable pub is_not_found : Error → Bool
is_not_found not_found = true
is_not_found (put_error stage e) = is_not_found e
is_not_found (joined e e') = is_not_found e || is_not_found e'
is_not_found _ = false

-- `errors.Is(err, os.ErrNotExist)`
unfoldable pub is_not_exist : Error → Bool
is_not_exist not_exist = true
is_not_exist (put_error stage e) = is_not_exist e
is_not_exist (joined e e') = is_not_exist e || is_not_exist e'
is_not_exist _ = false

-- `errors.Is(err, os.ErrPermission)`
unfoldable pub is_permission : Error → Bool
is_permission permission = true
is_permission (put_error stage e) = is_permission e
is_permission (joined e e') = is_permission e || is_permission e'
is_permission _ = false

abbrev or_stage : Option Stage → Option Stage → Option Stage
or_stage (some s) t = some s
or_stage none t = t

-- `errors.As(err, &structured)` for an `*origin.PutError`, which gives its stage.
unfoldable pub put_stage : Error → Option Stage
put_stage (put_error stage e) = some stage
put_stage (joined e e') = or_stage (put_stage e) (put_stage e')
put_stage _ = none

pub data Result (A : Type 0) : Type 0 where
  ok : A → Result A
  err : Error → Result A

-- `time.Time`, in nanoseconds; `none` is the zero time.
abbrev pub Time : Type 0
Time = Option ℤ

-- `origin.Entry`
pub record Entry : Type 0 where
  pub path : RelPath
  pub name : Bytes
  pub size : ℤ
  pub mod_time : Time
  pub is_dir : Bool
  pub etag : Bytes
  pub content_type : Bytes

pub record LocalFile : Type 0 where
  pub path : RelPath
  pub size : ℤ
  pub mod_time : ℤ
  pub inode : ℕ

-- `Status` of the package marker
pub data MarkerStatus : Type 0 where
  no_marker valid_marker invalid_marker : MarkerStatus

pub record Marker : Type 0 where
  pub remote_size : ℕ
  pub remote_etag_hash : Bytes
  pub plan_hash : Bytes
  pub webdav_url : Bytes

-- `Result` of the package marker
pub record Inspected : Type 0 where
  pub status : MarkerStatus
  pub format : Option Format
  pub marker : Marker

-- The status strings of a `MediaState`; `empty` is the one of a zero value.
pub data MediaStatus : Type 0 where
  empty remote_stub pending_upload uploading upload_failed verification_pending outcome_unknown :
      MediaStatus
  probe_failed stub_failed local_read_only marker_invalid remote_missing duplicate_remote :
      MediaStatus

-- The parts of `Entry.Fingerprint()`
pub record Fingerprint : Type 0 where
  pub path : RelPath
  pub size : ℤ
  pub mod_time : Time
  pub etag : Bytes

pub record MediaState : Type 0 where
  pub managed : Bool
  pub fingerprint : Option Fingerprint
  pub etag : Bytes
  pub size : ℤ
  pub remote_mod_time : Time
  pub local_mod_time : Time
  pub local_size : ℤ
  pub plan_hash : Bytes
  pub last_seen : Time
  pub status : MediaStatus
  pub last_error : Option Error
  pub transaction : Bytes

abbrev pub zero_media : MediaState
zero_media = record {
  managed = false;
  fingerprint = none;
  etag = [];
  size = pos 0;
  remote_mod_time = none;
  local_mod_time = none;
  local_size = pos 0;
  plan_hash = [];
  last_seen = none;
  status = empty;
  last_error = none;
  transaction = [];
}

-- The statuses of a `SidecarState`
pub data SidecarStatus : Type 0 where
  unset synchronized local_dirty upload_failed verification_pending outcome_unknown
        download_failed :
      SidecarStatus

pub record SidecarState : Type 0 where
  pub local_sha256 : Bytes
  pub local_size : ℤ
  pub local_mod_time : Time
  pub last_uploaded_sha256 : Bytes
  pub remote_etag : Bytes
  pub remote_size : ℤ
  pub remote_mod_time : Time
  pub media_path : RelPath
  pub status : SidecarStatus
  pub last_error : Option Error

pub record Snapshot : Type 0 where
  pub entries : Map Entry
  pub duplicates : Map (List Entry)

-- `==` of int64
unfoldable pub same_size : ℤ → ℤ → Bool
same_size (pos a) (pos b) = a == b
same_size (negsuc a) (negsuc b) = a == b
same_size _ _ = false

-- `uint64(size)`
unfoldable pub to_uint64 : ℤ → ℕ
to_uint64 (pos n) = n % 2 ^ 64
to_uint64 (negsuc n) = 2 ^ 64 - suc n % 2 ^ 64

-- `sameLocalFile`
unfoldable pub same_local_file : LocalFile → LocalFile → Bool
unfolding same_size
same_local_file a b =
    a.inode == b.inode && same_size a.size b.size && same_size a.mod_time b.mod_time

-- The part of `markerMatchesRemote` that is not the digest of the ETag.
unfoldable pub marker_matches_remote : (Bytes → Bytes) → Marker → Entry → Bool
unfolding to_uint64 same
marker_matches_remote digest found remote =
    found.remote_size == to_uint64 remote.size && same found.remote_etag_hash (digest remote.etag)

abbrev pub hex_digit : ℕ → ℕ
hex_digit n = if ltb n 10 then 48 + n else 87 + n

-- `hex.EncodeToString`
unfoldable pub hex : Bytes → Bytes
hex [] = []
hex (b ∷ bs) = hex_digit (b / 16) ∷ hex_digit (b % 16) ∷ hex bs
