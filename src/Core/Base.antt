-- ===== src/Core/Base.antt =====
-- Byte slices, Go's errors as values, and what a `ReadAt` returns.
use mediastub.Prelude.{ℕ, ◌≡◌, Option, List}

-- A byte slice.
abbrev pub Bytes : Type 0
Bytes = List ℕ

-- The errors of the package core. `failed` is an error of the reader below.
pub data Error : Type 0 where
  eof negative_offset invalid_whence negative_seek budget_exceeded : Error
  negative_size extent_outside overlapping : Error
  bad_id bad_size element_too_large bad_vint value_too_large : Error
  bad_header truncated_header no_segment unknown_sized metadata_too_large object_too_small no_room :
      Error
  box_too_large bad_box : Error
  unsupported not_media empty_input no_progress invalid_path : Error
  failed : ℕ → Error

pub data Result (T : Type 0) : Type 0 where
  ok : T → Result T
  err : Error → Result T

infixl 5 ◌>>=◌
abbrev pub ◌>>=◌ : {S T : Type 0} → Result S → (S → Result T) → Result T
r >>= next = elim r [ ok value ↦ next value | err problem ↦ err problem ]

-- Code that ends without an error has passed its first step without one.
pub first_ok :
    {S T : Type 0} (r : Result S) (next : S → Result T) {result : T}
    → (r >>= next) ≡ ok result
    → (value : S) × (r ≡ ok value) × (next value ≡ ok result)
first_ok (err problem) next reached = cc
first_ok (ok value) next reached = (value, λ i. ok value, reached)

-- The bytes that a read wrote at the front of the buffer, and its error.
pub record Read : Type 0 where
  pub bytes : Bytes
  pub error : Option Error
