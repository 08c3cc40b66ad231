-- ===== src/Syncer/Hash/Whole.antt =====
-- The hash of a remote file is that of its first bytes.
use mediastub.Prelude.{
  ltb→lt, ℕ, zero, suc, ◌+◌, ◌-◌, ◌≤◌, ◌<◌, ◌≡◌, refl, sym, ap, ap₂, ◌∙◌, ◌⊎◌, inl, inr, min, ltb,
  ◌==◌, ◌&&◌, Option, none, some, [], ◌++◌, length, take, drop, arith, Bool-cases, length-take,
  length-drop, take-add,
}
use mediastub.Prelude.Int.{ℤ, pos, pos_part}
use mediastub.Core.Base.{Bytes, Error, eof, Read, Result, ok, err}
use mediastub.Core.Source.Faithful.{IsPart}
use mediastub.Syncer.Base.{hex}
use mediastub.Origin.{Object, read_full_at}
use mediastub.Origin.ReadFull.{Offers, read_full_at-IsPart, read_full_at-Inv}
use mediastub.Syncer.Hash.{chunk, was_eof, after_chunk, hash_rest, hash_remote}

module _ (content : Bytes) (object : Object) (offers : Offers content object)
    (digest : Bytes → Bytes) (size : ℕ) where
  -- A read of a part of the file, in a state that the object can reach, came with the error `e`.
  abbrev pub CameWith : Error → Type 0
  CameWith e =
      (s : object.State) × (n : ℕ) × (off : ℕ) × offers.Inv s
      × (off + n ≤ size)
      × ((read_full_at object s n (pos off)).0.error ≡ some e)

  -- The hash of the first `size` bytes, or an error that a read came with, which is `eof` only if the
  -- file is shorter
  abbrev pub HashesOrFails : Option (Result Bytes) → Type 0
  HashesOrFails r =
      ((size ≤ length content) × (r ≡ some (ok (hex (digest (take size content))))))
      ⊎ ((e : Error) × (r ≡ some (err e)) × (e ≡ eof → length content < size) × CameWith e)

  within :
      (n off : ℕ) (r : Read)
      → off ≤ length content
      → IsPart content n off r
      → off + length r.bytes ≤ length content
  within n off r le p = omega (
    arith,
    le,
    ap length p.part,
    length-take (length r.bytes) (drop off content),
    length-drop off content,
  )

  grown :
      (n off : ℕ) (r : Read) (written : Bytes)
      → written ≡ take off content
      → IsPart content n off r
      → (written ++ r.bytes) ≡ take (off + length r.bytes) content
  grown n off r written w p = ap₂ (λ a b. a ++ b) w p.part ∙ take-add off (length r.bytes) content

  chunk-HashesOrFails :
      (s : object.State) (n off : ℕ) (r : Read) (o : Option Error) (next : Option (Result Bytes))
      → offers.Inv s
      → 0 < n
      → off + n ≤ size
      → r ≡ (read_full_at object s n (pos off)).0
      → r.error ≡ o
      → IsPart content n off r
      → ((0 < length r.bytes) ⊎ (off + length r.bytes ≡ size) → HashesOrFails next)
      → HashesOrFails
          (after_chunk object digest size o (length r.bytes) (off + length r.bytes) next)
  chunk-HashesOrFails s n off r none next inv more le is_read is_o p rest =
      elim (Bool-cases (length r.bytes == 0 && ltb (off + length r.bytes) size)) [
        | inl stopped ↦ absurd (ground (arith, p.complete is_o))
        | inr on ↦ rw on (rest (inl (omega (arith, p.complete is_o))))
      ]
  chunk-HashesOrFails s n off r (some e) next inv more le is_read is_o p rest =
      elim (Bool-cases (was_eof e && (off + length r.bytes) == size)) [
        | inl last ↦
            rw last (elim (Bool-cases (length r.bytes == 0 && ltb (off + length r.bytes) size)) [
              | inl stopped ↦ absurd (ground arith)
              | inr on ↦ rw on (rest (inr (ground arith)))
            ])
        | inr not_last ↦ rw not_last (
            inr (
              e,
              refl,
              (λ is_eof. ground (
                arith,
                ap was_eof is_eof,
                p.at_end (is_o ∙ ap (λ x. some x) is_eof),
                p.bounded,
                le,
              )),
              (s, n, off, inv, le, ap (λ x. x.error) (sym is_read) ∙ is_o),
            ))
      ]

  moves :
      (rounds off got : ℕ)
      → off < size
      → size < suc rounds + off
      → (0 < got) ⊎ (off + got ≡ size)
      → size < rounds + (off + got)
  moves rounds off got left enough (inl more) = omega arith
  moves rounds off got left enough (inr last) = omega arith

  hash_rest-HashesOrFails :
      (rounds : ℕ) (s : object.State) (off : ℕ) (written : Bytes)
      → offers.Inv s
      → off ≤ size
      → off ≤ length content
      → size < rounds + off
      → written ≡ take off content
      → HashesOrFails (hash_rest object digest size rounds s off written)
  unfolding hash_rest
  hash_rest-HashesOrFails zero s off written inv le in_file enough w = absurd (omega arith)
  hash_rest-HashesOrFails (suc rounds) s off written inv le in_file enough w =
      elim (Bool-cases (ltb off size)) [
        | inr all_read ↦ rw all_read (
            inl (
              ground (arith, all_read),
              ap (λ xs. some (ok (hex (digest xs))))
                  (w ∙ ap (λ k. take k content) {x = off} {y = size} (ground (arith, all_read))),
            ))
        | inl left ↦ rw left (
            let n = min chunk (size - off) in
            let r = read_full_at object s n (pos off) in
            let p = read_full_at-IsPart content object offers s n off inv in
            chunk-HashesOrFails s n off r.0 r.0.error
              (hash_rest object digest size rounds r.1 (off + length r.0.bytes)
                (written ++ r.0.bytes))
              inv (ground (arith, left)) (ground (arith, left)) refl refl p
              (λ moved.
                hash_rest-HashesOrFails rounds r.1 (off + length r.0.bytes) (written ++ r.0.bytes)
                  (read_full_at-Inv content object offers s n off inv)
                  (ground (arith, p.bounded, left)) (within n off r.0 in_file p)
                  (moves rounds off (length r.0.bytes) (ltb→lt off size left) enough moved)
                  (grown n off r.0 written w p)))
      ]

-- Over an object that answers with parts of a file, however short, and is open, the loop of
-- `hashRemote` ends. It gives the hash of the first bytes of the file, as many as the entry says, none
-- for a negative size, or else an error that a read within them came with; that is the end of the file
-- only if the file is shorter than the entry says.
pub hash_remote-HashesOrFails :
    (content : Bytes) (object : Object) (offers : Offers content object) (digest : Bytes → Bytes)
    (size : ℤ) (s : object.State)
    → offers.Inv s
    → HashesOrFails content object offers digest
        (pos_part size)
        (hash_remote object digest (ok s) size)
unfolding hash_remote
hash_remote-HashesOrFails content object offers digest size s inv =
    hash_rest-HashesOrFails content object offers digest (pos_part size) (suc (pos_part size)) s 0
      [] inv (omega arith) (omega arith) (omega arith) refl
