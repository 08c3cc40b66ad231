-- ===== src/Origin.antt =====
-- origin/origin.go: ranged reads of an object, and the source of a probe over them.
pub mod ReadFull
pub mod CleanPath
use mediastub.Prelude.{
  ℕ, zero, suc, ◌+◌, ◌-◌, ◌++◌, Bool, true, false, ◌&&◌, Option, none, some, List, [], length, ◌==◌,
  if◌then◌else◌,
}
use mediastub.Prelude.Int.{ℤ, pos, ◌+ℤ◌}
use mediastub.Core.Base.{Error, Read, eof, no_progress}
use mediastub.Core.Source.{Source, nothing, refused}

-- An `Object` of the origin with its context: what `ctx.Err()` and `ReadAt` answer in a state.
pub record Object : Type 1 where
  pub State : Type 0
  pub context_error : State → Option Error × State
  pub read_at : State → ℕ → ℤ → Read × State

module _ (object : Object) where
  -- What a call returns of a read that came with an error.
  abbrev pub after_error : ℕ → Read → Error → Read
  after_error len r eof =
      if length r.bytes == len
      then record { bytes = r.bytes; error = none }
      else record { bytes = r.bytes; error = some eof }
  after_error len r e = record { bytes = r.bytes; error = some e }

  abbrev pub append_read : Read → Read × object.State → Read × object.State
  append_read r (rest, s) = (record { bytes = r.bytes ++ rest.bytes; error = rest.error }, s)

  -- The body of the loop behind the check of the context; `next` goes on with the loop.
  unfoldable pub after_part :
      (object.State → ℕ → ℤ → Read × object.State)
      → ℕ
      → ℤ
      → Read × object.State
      → Read × object.State
  after_part next len off (r, s) = elim r.error [
    | some e ↦ (after_error len r e, s)
    | none ↦
        if length r.bytes == 0
        then (refused no_progress, s)
        else append_read r (next s (len - length r.bytes) (off +ℤ pos (length r.bytes)))
  ]

  -- The loop of `ReadFullAt` for `len` bytes, with the rounds that are left.
  unfoldable pub read_full : ℕ → object.State → ℕ → ℤ → Read × object.State
  read_full zero s len off = (nothing, s)
  read_full (suc rounds) s len off =
      if len == 0 then (nothing, s) else elim (object.context_error s).0 [
        | some e ↦ (refused e, (object.context_error s).1)
        | none ↦
            after_part (read_full rounds) len off
              (object.read_at (object.context_error s).1 len off)
      ]

  -- `ReadFullAt`: each round reads a byte at least, so `len` rounds are enough.
  unfoldable pub read_full_at : object.State → ℕ → ℤ → Read × object.State
  unfolding read_full
  read_full_at s len off = read_full len s len off

  -- `originSource` of the package syncer
  abbrev pub origin_source : ℕ → Source
  origin_source size = record { State = object.State; size = size; read_at = read_full_at }
