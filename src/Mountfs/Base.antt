-- ===== src/Mountfs/Base.antt =====
-- mountfs: errors, entries and what `errno` makes of an error.
use mediastub.Prelude.{ℕ, Bool, true, false, if◌then◌else◌, ◌||◌, Option, none, some, ◌∷◌, ◌++◌}
use mediastub.Prelude.Int.{ℤ, negsuc}
use mediastub.Prelude.Decimal.{decimal_ℤ}
use mediastub.Core.Base.{Bytes, eof}
use mediastub.Core.Base as Core
use mediastub.Syncer.Base.{Entry, Time}

-- Errors as the package tells them apart. `core` is an error of the package core or of `io`, and
-- `wrapped` is one of `fmt.Errorf` with `%w`.
pub data Error : Type 0 where
  not_found not_dir is_dir canceled deadline_exceeded access_denied not_permitted : Error
  wrapped : Error → Error
  core : Core.Error → Error
  other : ℕ → Error

pub data Result (A : Type 0) : Type 0 where
  ok : A → Result A
  err : Error → Result A

-- `errors.Is(err, context.Canceled)`
unfoldable pub is_canceled : Error → Bool
is_canceled canceled = true
is_canceled (wrapped e) = is_canceled e
is_canceled _ = false

-- `errors.Is(err, context.DeadlineExceeded)`
unfoldable pub is_deadline_exceeded : Error → Bool
is_deadline_exceeded deadline_exceeded = true
is_deadline_exceeded (wrapped e) = is_deadline_exceeded e
is_deadline_exceeded _ = false

-- What `ctx.Err()` can be
abbrev pub is_context_error : Error → Bool
is_context_error e = is_canceled e || is_deadline_exceeded e

-- `time.Time.UnixNano`; the zero time wraps around.
abbrev pub unix_nano : Time → ℤ
unix_nano none = negsuc 6795364578871345151
unix_nano (some t) = t

-- `Entry.Fingerprint`
unfoldable pub fingerprint : Entry → Bytes
fingerprint e =
    e.path ++ 0 ∷ (decimal_ℤ e.size ++ 0 ∷ (decimal_ℤ (unix_nano e.mod_time) ++ 0 ∷ e.etag))

-- `errors.Is(err, origin.ErrNotFound)`
unfoldable pub is_not_found : Error → Bool
is_not_found not_found = true
is_not_found (wrapped e) = is_not_found e
is_not_found _ = false

-- `errors.Is(err, origin.ErrNotDir)`
unfoldable pub is_not_dir : Error → Bool
is_not_dir not_dir = true
is_not_dir (wrapped e) = is_not_dir e
is_not_dir _ = false

-- `errors.Is(err, origin.ErrIsDir)`
unfoldable pub is_is_dir : Error → Bool
is_is_dir is_dir = true
is_is_dir (wrapped e) = is_is_dir e
is_is_dir _ = false

-- `errors.Is(err, syscall.EACCES), errors.Is(err, syscall.EPERM)`
unfoldable pub is_denied : Error → Bool
is_denied access_denied = true
is_denied not_permitted = true
is_denied (wrapped e) = is_denied e
is_denied _ = false

-- `errors.Is(err, io.EOF)`
unfoldable pub is_eof : Error → Bool
is_eof (core eof) = true
is_eof (wrapped e) = is_eof e
is_eof _ = false

-- The error numbers that the file system answers with; `success` is 0.
pub data Errno : Type 0 where
  success enoent enotdir eisdir eintr eacces eio einval erofs : Errno

-- `errno`
unfoldable pub errno : Option Error → Errno
errno none = success
errno (some e) =
    if is_not_found e
    then enoent
    else if is_not_dir e
    then enotdir
    else if is_is_dir e
    then eisdir
    else if is_canceled e
    then eintr
    else if is_denied e
    then eacces
    else eio
