-- ===== src/Core/ReadSeeker/Sequence.antt =====
-- Reads one after the other give consecutive parts of the file.
use mediastub.Prelude.{
  ℕ, ◌+◌, ◌≡◌, refl, sym, ap, ap₂, subst, ◌∙◌, List, [], ◌∷◌, ◌++◌, arith, length, take, drop,
  length-append, drop-drop, take-add,
}
use mediastub.Prelude.Int.{ℤ, pos, negsuc, ◌+ℤ◌, wrap_int64}
use mediastub.Core.Base.{Bytes, ok}
use mediastub.Core.Source.{Source}
use mediastub.Core.Source.Faithful.{Serves}
use mediastub.Core.ReadSeeker.{
  ReadSeeker, Whence, read_next, read_each, settle_seek, seek, seek_start, seek_current, seek_end,
  other_whence,
}

-- The bytes are those of the file at `off`, and the position is just behind them.
pub record IsSequence {Inner : Type 0} (content : Bytes) (off : ℕ) (r : Bytes × ReadSeeker Inner)
    : Type 0 where
  pub part : r.0 ≡ take (length r.0) (drop off content)
  pub behind : r.1.offset ≡ pos (off + length r.0)

pos_plus : (a b : ℕ) → (pos a +ℤ pos b) ≡ pos (a + b)
pos_plus a b = ground arith

join_parts :
    {Inner : Type 0} (content : Bytes) (off : ℕ) (bs : Bytes) (rest : Bytes × ReadSeeker Inner)
    → bs ≡ take (length bs) (drop off content)
    → IsSequence content (off + length bs) rest
    → IsSequence content off (bs ++ rest.0, rest.1)
join_parts content off bs rest h v = record {
  part =
      ap₂ (λ a b. a ++ b) h
        (v.part ∙ ap (take (length rest.0)) (sym (drop-drop (length bs) off content)))
      ∙ take-add (length bs) (length rest.0) (drop off content)
      ∙ ap (λ k. take k (drop off content)) (sym (length-append bs rest.0));
  behind =
      v.behind
      ∙ ap pos {x = off + length bs + length rest.0} {y = off + length (bs ++ rest.0)}
          (omega (arith, length-append bs rest.0));
}

module _ (content : Bytes) (source : Source) (serves : Serves content source) where
  read_each-IsSequence :
      (inner : source.State) (off : ℕ) (ns : List ℕ)
      → serves.Inv inner
      → IsSequence content off (read_each source (record { inner = inner; offset = pos off }) ns)
  unfolding read_each read_next
  read_each-IsSequence inner off [] v = record {
    part = refl;
    behind = ap pos {x = off} {y = off + 0} (omega arith);
  }
  read_each-IsSequence inner off (n ∷ ns) v =
      let r = source.read_at inner n (pos off) in
      rw (pos_plus off (length r.0.bytes)) (
        join_parts content off r.0.bytes _ (serves.reads inner n off v).part
          (read_each-IsSequence r.1 (off + length r.0.bytes) ns (serves.keeps inner n off v)))

  settle_seek_moves :
      (s : ReadSeeker source.State) (z : ℤ) (n : ℕ)
      → (settle_seek source s z).0 ≡ ok (pos n)
      → (settle_seek source s z).1 ≡ record { inner = s.inner; offset = pos n }
  settle_seek_moves s (pos m) n h =
      ap (λ k. record { inner = s.inner; offset = pos k }) {x = m} {y = n} (cc h)
  settle_seek_moves s (negsuc m) n h = cc

  seek_moves :
      (s : ReadSeeker source.State) (offset : ℤ) (whence : Whence) (n : ℕ)
      → (seek source s offset whence).0 ≡ ok (pos n)
      → (seek source s offset whence).1 ≡ record { inner = s.inner; offset = pos n }
  unfolding seek
  seek_moves s offset seek_start n h = settle_seek_moves s offset n h
  seek_moves s offset seek_current n h = settle_seek_moves s (wrap_int64 (s.offset +ℤ offset)) n h
  seek_moves s offset seek_end n h =
      settle_seek_moves s (wrap_int64 (pos source.size +ℤ offset)) n h
  seek_moves s offset (other_whence k) n h = cc

  -- Over a source that reads from fixed contents: after a `Seek` to `n`, any number of calls of `Read`
  -- give together a part of the contents that begins at `n`, and the position is just behind it.
  pub seek-read_each :
      (s : ReadSeeker source.State) (offset : ℤ) (whence : Whence) (n : ℕ) (ns : List ℕ)
      → serves.Inv s.inner
      → (seek source s offset whence).0 ≡ ok (pos n)
      → IsSequence content n (read_each source (seek source s offset whence).1 ns)
  seek-read_each s offset whence n ns v h =
      subst (λ t. IsSequence content n (read_each source t ns))
        (sym (seek_moves s offset whence n h)) (read_each-IsSequence s.inner n ns v)
