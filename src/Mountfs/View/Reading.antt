-- ===== src/Mountfs/View/Reading.antt =====
-- What a reader of a mounted file gets of the bytes behind its view.
use mediastub.Prelude.{
  ℕ, ◌+◌, ◌-◌, ◌≤◌, ◌≡◌, ◌≢◌, inl, inr, refl, sym, subst, ap, ◌∙◌, Bool, true, false, ◌||◌, ◌==◌,
  Option, none, some, [], ◌∷◌, length, min, take, drop, ltb, arith, if◌then◌else◌, Bool-cases,
  take_all, length-drop, length-take,
}
use mediastub.Prelude.Int.{pos, leb_ℤ}
use mediastub.Core.Base.{Bytes, Read, eof, failed}
use mediastub.Core.Base as Core
use mediastub.Core.Plan.{Plan}
use mediastub.Core.Plan.Normal.{IsNormal}
use mediastub.Core.Plan.Reading.{contents, length-contents, read_at-contents}
use mediastub.Core.Source.Faithful.{IsPart}
use mediastub.Origin.{Object}
use mediastub.Origin.ReadFull.{Offers, read_full_at-IsPart}
use mediastub.Mountfs.Base.{Error, core, Errno, errno, success, is_eof}
use mediastub.Mountfs.View.{
  plan_view, origin_view, view_read_at, Answer, bytes, refused, answered, cut_to, file_read,
}

-- A cut that the bytes make themselves.
take_cut :
    (len off : ℕ) (content : Bytes)
    → take (if ltb (length content - off) len then length content - off else len) (drop off content)
      ≡ take len (drop off content)
take_cut len off content = elim (Bool-cases (ltb (length content - off) len)) [
  | inr small ↦ rw small refl
  | inl large ↦ rw large (
      take_all (length content - off) (drop off content) (omega (arith, length-drop off content))
      ∙ sym (take_all len (drop off content) (ground (arith, length-drop off content))))
]

-- `off >= size || len(dest) == 0`
abbrev is_empty_read : ℕ → ℕ → ℕ → Bool
is_empty_read size len off = leb_ℤ (pos size) (pos off) || (len == 0)

nothing_to_take :
    (len off : ℕ) (content : Bytes)
    → is_empty_read (length content) len off ≡ true
    → take len (drop off content) ≡ []
nothing_to_take len off content h =
    no_bytes (take len (drop off content))
      (length-take len (drop off content) ∙ ap (min len) (length-drop off content) ∙ ground arith)
  where
    no_bytes : (bs : Bytes) → length bs ≡ 0 → bs ≡ []
    no_bytes [] e = refl
    no_bytes (b ∷ bs) e = absurd (omega arith)

cut_contents :
    (p : Plan) (len off : ℕ)
    → take
        (if ltb (p.logical_size - off) len then p.logical_size - off else len)
        (drop off (contents p))
      ≡ take len (drop off (contents p))
cut_contents p len off =
    subst
      (λ n.
        take (if ltb (n - off) len then n - off else len) (drop off (contents p))
        ≡ take len (drop off (contents p)))
      (length-contents p) (take_cut len off (contents p))

module _ (cause : ℕ → Error) where
  answered_eof :
      (b : Bool) (bs : Bytes)
      → answered cause (record { bytes = bs; error = if b then none else some eof }) ≡ bytes bs
  unfolding is_eof
  answered_eof true bs = refl
  answered_eof false bs = refl

  -- A read of a stub at an offset gives the bytes that its plan describes there, as many as were asked
  -- for or as there are up to the end, and no error; the view stays as it is.
  pub file_read_stub :
      (p : Plan) (len off : ℕ)
      → IsNormal p
      → file_read cause (plan_view p) len (pos off)
        ≡ (bytes (take len (drop off (contents p))), plan_view p)
  unfolding file_read view_read_at
  file_read_stub p len off v = elim (Bool-cases (is_empty_read p.logical_size len off)) [
    | inl h ↦
        rw
          (
            h,
            nothing_to_take len off (contents p)
                (subst (λ n. is_empty_read n len off ≡ true) (sym (length-contents p)) h),
          )
          refl
    | inr h ↦
        rw (h, read_at-contents p (cut_to cause len (pos p.logical_size) off) off v)
          (ap (λ a. (a, plan_view p)) (answered_eof _ _ ∙ ap bytes (cut_contents p len off)))
  ]

  -- An answer to a read of a file: the bytes that it has there, as many as were asked for or as there
  -- are up to the end, or an error number that is not 0.
  pub data Shows (content : Bytes) (len off : ℕ) : Answer → Type 0 where
    shown : {bs : Bytes} → bs ≡ take len (drop off content) → Shows content len off (bytes bs)
    not_shown : {e : Errno} → e ≢ success → Shows content len off (refused e)

  errno-success : (e : Error) → errno (some e) ≢ success
  unfolding errno
  errno-success e h = ground (arith, h)

  whole :
      (content : Bytes) (n off : ℕ) (bs : Bytes)
      → bs ≡ take (length bs) (drop off content)
      → length bs ≡ n
      → bs ≡ take n (drop off content)
  whole content n off bs part full = part ∙ ap (λ m. take m (drop off content)) full

  module _ (content : Bytes) (n off : ℕ) (r : Read) (not_end : (m : ℕ) → is_eof (cause m) ≡ false)
      (inside : n + off ≤ length content) (part : IsPart content n off r) where
    refused-Shows :
        (e : Error) (bs : Bytes)
        → is_eof e ≡ false
        → Shows content n off (if is_eof e then bytes bs else refused (errno (some e)))
    refused-Shows e bs h = rw h (not_shown (errno-success e))

    answered_as :
        (o : Option Core.Error)
        → r.error ≡ o
        → Shows content n off (answered cause (record { bytes = r.bytes; error = o }))
    unfolding is_eof
    answered_as none h = shown (whole content n off r.bytes part.part (part.complete h))
    answered_as (some eof) h =
        shown (whole content n off r.bytes part.part (omega (arith, part.bounded, part.at_end h)))
    answered_as (some (failed m)) h = refused-Shows (cause m) r.bytes (not_end m)
    answered_as (some e) h = not_shown (errno-success (core e))

    answered-Shows : Shows content n off (answered cause r)
    answered-Shows = answered_as r.error refl

  cut_inside :
      (len off size : ℕ)
      → is_empty_read size len off ≡ false
      → (if ltb (size - off) len then size - off else len) + off ≤ size
  cut_inside len off size h = ground (arith, h)

  uncut :
      (len off : ℕ) (content : Bytes) (a : Answer)
      → Shows content (if ltb (length content - off) len then length content - off else len) off a
      → Shows content len off a
  uncut len off content _ (shown h) = shown (h ∙ take_cut len off content)
  uncut len off content _ (not_shown h) = not_shown h

  -- A read of an open object that offers `content`, a file of the size that its entry has, shows
  -- `content`: a short read by the object does not shorten what the kernel gets. The causes of failed
  -- reads are no `io.EOF`.
  pub file_read-Shows :
      (content : Bytes) (object : Object) (offers : Offers content object) (s : object.State)
      (len off : ℕ)
      → ((m : ℕ) → is_eof (cause m) ≡ false)
      → offers.Inv s
      → Shows content len off
          (file_read cause (origin_view object s (pos (length content))) len (pos off)).0
  unfolding file_read view_read_at
  file_read-Shows content object offers s len off not_end v =
      elim (Bool-cases (is_empty_read (length content) len off)) [
        | inl h ↦ rw h (shown (sym (nothing_to_take len off content h)))
        | inr h ↦
            let n = cut_to cause len (pos (length content)) off in
            rw h (
              uncut len off content _ (
                answered-Shows content n off _ not_end (cut_inside len off (length content) h)
                  (read_full_at-IsPart content object offers s n off v)))
      ]
