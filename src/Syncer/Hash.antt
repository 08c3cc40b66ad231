-- ===== src/Syncer/Hash.antt =====
-- syncer/service.go: the hash of a remote file.
pub mod Whole
use mediastub.Prelude.{
  ℕ, zero, suc, ◌+◌, ◌-◌, min, ltb, ◌==◌, ◌&&◌, not, Bool, true, false, Option, none, some, List,
  [], ◌++◌, length, if◌then◌else◌,
}
use mediastub.Prelude.Int.{ℤ, pos, pos_part}
use mediastub.Core.Base.{Bytes, Error, eof, no_progress, Read, Result, ok, err}
use mediastub.Syncer.Base.{hex}
use mediastub.Origin.{Object, read_full_at}

-- `256<<10`
abbrev pub chunk : ℕ
chunk = 262144

-- `errors.Is(err, io.EOF)`
abbrev pub was_eof : Error → Bool
was_eof eof = true
was_eof _ = false

module _ (object : Object) (digest : Bytes → Bytes) (size : ℕ) where
  -- The body of the loop of `hashRemote` behind the read, with the new offset; `next` goes on.
  abbrev pub after_chunk : Option Error → ℕ → ℕ → Option (Result Bytes) → Option (Result Bytes)
  after_chunk (some e) got off next =
      if not (was_eof e && off == size)
      then some (err e)
      else if got == 0 && ltb off size
      then some (err no_progress)
      else next
  after_chunk none got off next = if got == 0 && ltb off size then some (err no_progress) else next

  -- The loop of `hashRemote` at `off`, when the hash has taken in `written`, with the rounds that are
  -- left: `none` if they are not enough.
  unfoldable pub hash_rest : ℕ → object.State → ℕ → Bytes → Option (Result Bytes)
  hash_rest zero s off written = none
  hash_rest (suc rounds) s off written =
      let r = read_full_at object s (min chunk (size - off)) (pos off) in
      let rest = hash_rest rounds r.1 (off + length r.0.bytes) (written ++ r.0.bytes) in
      if ltb off size
      then after_chunk r.0.error (length r.0.bytes) (off + length r.0.bytes) rest
      else some (ok (hex (digest written)))

-- `hashRemote`, when `Open` has answered `opened`: a round reads a byte at least, and one more ends
-- the loop.
unfoldable pub hash_remote :
    (object : Object) → (Bytes → Bytes) → Result object.State → ℤ → Option (Result Bytes)
hash_remote object digest (err e) size = some (err e)
hash_remote object digest (ok s) size =
    hash_rest object digest (pos_part size) (suc (pos_part size)) s 0 []
