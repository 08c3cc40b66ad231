-- ===== src/Origin/ReadFull.antt =====
-- `ReadFullAt` makes a faithful source of an object whose reads may be short.
use mediastub.Prelude.{
  ℕ, zero, suc, ◌+◌, ◌-◌, ◌≤◌, ◌<◌, ◌≡◌, refl, sym, ap, ap₂, subst, ◌∙◌, some, ◌++◌, length, take,
  drop, arith, Option-cases, Bool-cases, inl, inr, ◌==◌, length-append, drop-drop, take-add,
}
use mediastub.Prelude.Int.{ℤ, pos, ◌+ℤ◌}
use mediastub.Core.Base.{Bytes, Error, Read, eof, no_progress}
use mediastub.Core.Source.{nothing, refused}
use mediastub.Core.Source.Faithful.{IsPart, Serves}
use mediastub.Origin.{
  Object, after_error, append_read, after_part, read_full, read_full_at, origin_source,
}

-- What an object promises of a read of `n` bytes at `off` from the file `content`: the bytes are
-- those of the file, at most `n`, and `eof` comes at the end. The read may be short.
pub record IsSlice (content : Bytes) (n off : ℕ) (r : Read) : Type 0 where
  pub part : r.bytes ≡ take (length r.bytes) (drop off content)
  pub bounded : length r.bytes ≤ n
  pub at_end : r.error ≡ some eof → length content ≤ off + length r.bytes

-- The object reads from `content`, in every state that it can reach. The context ends with other
-- errors than `eof`.
pub record Offers (content : Bytes) (object : Object) : Type 1 where
  pub Inv : object.State → Type 0
  pub context_keeps : (s : object.State) → Inv s → Inv (object.context_error s).1
  pub context_error_is : (s : object.State) → Inv s → (object.context_error s).0 ≡ some eof → ⊥
  pub keeps : (s : object.State) (n off : ℕ) → Inv s → Inv (object.read_at s n (pos off)).1
  pub reads :
      (s : object.State) (n off : ℕ)
      → Inv s
      → IsSlice content n off (object.read_at s n (pos off)).0

pos_add : (a b : ℕ) → (pos a +ℤ pos b) ≡ pos (a + b)
pos_add a b = ground arith

nothing-IsPart : (content : Bytes) (off : ℕ) → IsPart content 0 off nothing
nothing-IsPart content off = record {
  part = refl;
  bounded = omega arith;
  complete = λ e. refl;
  at_end = λ e. cc;
}

refused-IsPart :
    (content : Bytes) (len off : ℕ) (e : Error) → (e ≡ eof → ⊥) → IsPart content len off (refused e)
refused-IsPart content len off e other = record {
  part = refl;
  bounded = omega arith;
  complete = λ h. cc;
  at_end = λ h. absurd (other cc);
}

module _ (content : Bytes) (object : Object) where
  after_error-IsPart :
      (len off : ℕ) (r : Read) (e : Error)
      → r.error ≡ some e
      → IsSlice content len off r
      → IsPart content len off (after_error object len r e)
  after_error-IsPart len off r eof is_e v = elim (Bool-cases (length r.bytes == len)) [
    | inl whole ↦ rw whole (record {
      part = v.part;
      bounded = v.bounded;
      complete = λ h. ground arith;
      at_end = λ h. cc;
    })
    | inr short ↦ rw short (record {
      part = v.part;
      bounded = v.bounded;
      complete = λ h. cc;
      at_end = λ h. v.at_end is_e;
    })
  ]
  after_error-IsPart len off r _ is_e v = record {
    part = v.part;
    bounded = v.bounded;
    complete = λ h. cc;
    at_end = λ h. cc;
  }

  append_read-IsPart :
      (len off : ℕ) (r : Read) (rest : Read × object.State)
      → IsSlice content len off r
      → IsPart content (len - length r.bytes) (off + length r.bytes) rest.0
      → IsPart content len off (append_read object r rest).0
  append_read-IsPart len off r rest v w = record {
    part =
        ap₂ (λ a b. a ++ b) v.part
          (w.part ∙ ap (take (length rest.0.bytes)) (sym (drop-drop (length r.bytes) off content)))
        ∙ take-add (length r.bytes) (length rest.0.bytes) (drop off content)
        ∙ ap (λ k. take k (drop off content)) (sym (length-append r.bytes rest.0.bytes));
    bounded = omega (arith, length-append r.bytes rest.0.bytes, v.bounded, w.bounded);
    complete = λ e. omega (arith, length-append r.bytes rest.0.bytes, v.bounded, w.complete e);
    at_end = λ e. omega (arith, length-append r.bytes rest.0.bytes, w.at_end e);
  }

module _ (content : Bytes) (object : Object) (offers : Offers content object) where
  -- What is to be shown of a read in a state and its successor.
  abbrev IsGood : ℕ → ℕ → Read × object.State → Type 0
  IsGood len off (r, s) = IsPart content len off r × offers.Inv s

  after_part-IsGood :
      (next : object.State → ℕ → ℤ → Read × object.State) (len off : ℕ) (r : Read)
      (s : object.State)
      → IsSlice content len off r
      → offers.Inv s
      → ((s' : object.State)
          → 0 < length r.bytes
          → offers.Inv s'
          → IsGood
              (len - length r.bytes)
              (off + length r.bytes)
              (next s' (len - length r.bytes) (pos (off + length r.bytes))))
      → IsGood len off (after_part object next len (pos off) (r, s))
  unfolding after_part
  after_part-IsGood next len off r s v inv rest = elim (Option-cases r.error) [
    | inr (e, is_e) ↦ rw is_e (after_error-IsPart content object len off r e is_e v, inv)
    | inl fine ↦ rw fine (elim (Bool-cases (length r.bytes == 0)) [
      | inl empty ↦ rw empty (refused-IsPart content len off no_progress (λ h. cc), inv)
      | inr some_bytes ↦
          rw (some_bytes, pos_add off (length r.bytes))
            (let good = rest s (ground arith) inv in
              (
                append_read-IsPart content object len off r
                    (next s (len - length r.bytes) (pos (off + length r.bytes))) v good.0,
                good.1,
              ))
    ])
  ]

  read_full-IsGood :
      (rounds len off : ℕ) (s : object.State)
      → len ≤ rounds
      → offers.Inv s
      → IsGood len off (read_full object rounds s len (pos off))
  unfolding read_full
  read_full-IsGood zero len off s le inv = (
    subst (λ n. IsPart content n off nothing) {x = 0} {y = len} (omega arith)
        (nothing-IsPart content off),
    inv,
  )
  read_full-IsGood (suc rounds) len off s le inv = elim (Bool-cases (len == 0)) [
    | inl empty ↦ rw empty (
      subst (λ n. IsPart content n off nothing) {x = 0} {y = len} (ground arith)
          (nothing-IsPart content off),
      inv,
    )
    | inr asked ↦ rw asked (elim (Option-cases (object.context_error s).0) [
      | inr (e, is_e) ↦ rw is_e (
        refused-IsPart content len off e
            (λ h. offers.context_error_is s inv (is_e ∙ ap (λ x. some x) h)),
        offers.context_keeps s inv,
      )
      | inl fine ↦ rw fine (
          let t = (object.context_error s).1 in
          let inv' = offers.context_keeps s inv in
          let got = object.read_at t len (pos off) in
          after_part-IsGood (read_full object rounds) len off got.0 got.1
            (offers.reads t len off inv') (offers.keeps t len off inv')
            (λ s' more inv''.
              read_full-IsGood rounds (len - length got.0.bytes) (off + length got.0.bytes) s'
                (omega arith) inv''))
    ])
  ]

  pub origin_source-Serves : Serves content (origin_source object (length content))
  unfolding read_full_at
  origin_source-Serves = record {
    Inv = offers.Inv;
    sized = refl;
    keeps = λ s n off v. (read_full-IsGood n n off s (omega arith) v).1;
    reads = λ s n off v. (read_full-IsGood n n off s (omega arith) v).0;
  }

  pub origin_source-Inv : (s : object.State) → offers.Inv s → origin_source-Serves.Inv s
  unfolding origin_source-Serves
  origin_source-Inv s v = v

  -- Over an object that answers with parts of `content`, however short, `ReadFullAt` keeps the promise
  -- of `io.ReaderAt` for `content`: without an error all bytes that were asked for have come, and
  -- `eof` comes at the end alone.
  pub read_full_at-IsPart :
      (s : object.State) (len off : ℕ)
      → offers.Inv s
      → IsPart content len off (read_full_at object s len (pos off)).0
  unfolding read_full_at
  read_full_at-IsPart s len off v = (read_full-IsGood len len off s (omega arith) v).0

  pub read_full_at-Inv :
      (s : object.State) (len off : ℕ)
      → offers.Inv s
      → offers.Inv (read_full_at object s len (pos off)).1
  unfolding read_full_at
  read_full_at-Inv s len off v = (read_full-IsGood len len off s (omega arith) v).1
