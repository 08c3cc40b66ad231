-- ===== src/Core/ReadSeeker.antt =====
-- core/source.go: `sourceReadSeeker`, a position in a source.
pub mod Sequence
use mediastub.Prelude.{ℕ, ◌++◌, Bool, true, false, List, [], ◌∷◌, length}
use mediastub.Prelude.Int.{ℤ, pos, negsuc, ◌+ℤ◌, wrap_int64}
use mediastub.Core.Base.{Bytes, Result, ok, err, Read, invalid_whence, negative_seek}
use mediastub.Core.Source.{Source}

-- The fields of a `sourceReadSeeker`; the source is in the state `inner`.
pub record ReadSeeker (Inner : Type 0) : Type 0 where
  pub inner : Inner
  pub offset : ℤ

-- `io.SeekStart`, `io.SeekCurrent` and `io.SeekEnd` are 0, 1 and 2.
pub data Whence : Type 0 where
  seek_start seek_current seek_end : Whence
  other_whence : ℕ → Whence

module _ (source : Source) where
  abbrev pub new_read_seeker : source.State → ReadSeeker source.State
  new_read_seeker s = record { inner = s; offset = pos 0 }

  -- `Read`
  unfoldable pub read_next : ReadSeeker source.State → ℕ → Read × ReadSeeker source.State
  read_next s len =
      let (r, inner) = source.read_at s.inner len s.offset in
      (r, record { inner = inner; offset = s.offset +ℤ pos (length r.bytes) })

  abbrev pub settle_seek : ReadSeeker source.State → ℤ → Result ℤ × ReadSeeker source.State
  settle_seek s (negsuc n) = (err negative_seek, s)
  settle_seek s (pos n) = (ok (pos n), record s { offset = pos n })

  -- `Seek`
  unfoldable pub seek : ReadSeeker source.State → ℤ → Whence → Result ℤ × ReadSeeker source.State
  seek s offset seek_start = settle_seek s offset
  seek s offset seek_current = settle_seek s (wrap_int64 (s.offset +ℤ offset))
  seek s offset seek_end = settle_seek s (wrap_int64 (pos source.size +ℤ offset))
  seek s offset (other_whence n) = (err invalid_whence, s)

  -- The bytes of reads of the given lengths, one after the other, and the reader behind them.
  unfoldable pub read_each : ReadSeeker source.State → List ℕ → Bytes × ReadSeeker source.State
  unfolding read_next
  read_each s [] = ([], s)
  read_each s (n ∷ ns) =
      let (r, s') = read_next s n in let (bs, t) = read_each s' ns in (r.bytes ++ bs, t)
