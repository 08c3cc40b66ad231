-- ===== src/Core/Source/Faithful.antt =====
-- A source that reads from fixed contents, and the window of `BudgetedSource` as one of these.
use mediastub.Prelude.{
  ℕ, ◌+◌, ◌-◌, ◌≤◌, ◌<◌, ◌≡◌, refl, sym, ap, subst, ◌∙◌, true, ◌&&◌, none, some, List, [], ◌∷◌,
  arith, length, take, drop, leb, min, Bool-cases, inl, inr, length-take, length-drop, take-take,
  drop-drop, take-drop-take, take-length-take,
}
use mediastub.Prelude.Int.{ℤ, pos, negsuc, pos_part, leb_ℤ, ◌+ℤ◌}
use mediastub.Core.Base.{Bytes, Read, eof}
use mediastub.Core.Source.Branches.{budgeted_read_cases}
use mediastub.Core.Source.{
  Source, Limits, Budgeted, budgeted_read, budgeted, new_budgeted, in_window, read_size,
  from_window, after_read, bytes_read_at, bytes_source,
}

-- What `io.ReaderAt` promises of a read of `n` bytes at `off` from the file `content`: the bytes
-- are those of the file, at most `n`; without an error they are `n`, and `eof` comes at the end.
pub record IsPart (content : Bytes) (n off : ℕ) (r : Read) : Type 0 where
  pub part : r.bytes ≡ take (length r.bytes) (drop off content)
  pub bounded : length r.bytes ≤ n
  pub complete : r.error ≡ none → length r.bytes ≡ n
  pub at_end : r.error ≡ some eof → length content ≤ off + length r.bytes

-- The source reads from `content`, in every state that it can reach.
pub record Serves (content : Bytes) (source : Source) : Type 1 where
  pub Inv : source.State → Type 0
  pub sized : source.size ≡ length content
  pub keeps : (s : source.State) (n off : ℕ) → Inv s → Inv (source.read_at s n (pos off)).1
  pub reads :
      (s : source.State) (n off : ℕ) → Inv s → IsPart content n off (source.read_at s n (pos off)).0

-- The window holds the part of the file that begins at `start`.
abbrev IsWindow : Bytes → ℤ → Bytes → Type 0
IsWindow content (pos o) w = w ≡ take (length w) (drop o content)
IsWindow content (negsuc n) w = length w ≡ 0

-- The state after a history of reads, each given by its length and offset.
unfoldable pub after_reads : (source : Source) → source.State → List (ℕ × ℕ) → source.State
after_reads source s [] = s
after_reads source s ((n, off) ∷ rest) = after_reads source (source.read_at s n (pos off)).1 rest

module _ (content : Bytes) (source : Source) (serves : Serves content source)
    (limits : Limits) where
  record WindowInv (s : Budgeted source.State) : Type 0 where
    inner_ok : serves.Inv s.inner
    window_ok : IsWindow content s.start s.window

  window_part :
      (o : ℕ) (w : Bytes) (len off : ℕ)
      → w ≡ take (length w) (drop o content)
      → o ≤ off
      → off + len ≤ o + length w
      → take len (drop (off - o) w) ≡ take len (drop off content)
  window_part o w len off h lo hi =
      ap (λ v. take len (drop (off - o) v)) h
      ∙ take-drop-take len (off - o) (length w) (drop o content) (omega arith)
      ∙ ap (take len) (drop-drop (off - o) o content ∙ ap (λ i. drop i content) (omega arith))

  length-window_part :
      (w : Bytes) (len k : ℕ) → k + len ≤ length w → length (take len (drop k w)) ≡ len
  length-window_part w len k h = omega (arith, length-take len (drop k w), length-drop k w)

  -- A read that the test finds in the window is that part of the file, and is not short.
  window_hit :
      (start : ℤ) (w : Bytes) (len off : ℕ)
      → IsWindow content start w
      → 0 < len
      → (leb_ℤ start (pos off) && leb_ℤ (pos (off + len)) (start +ℤ pos (length w))) ≡ true
      → (take len (drop (off - pos_part start) w) ≡ take len (drop off content))
        × (length (take len (drop (off - pos_part start) w)) ≡ len)
  window_hit (negsuc n) w len off h some_bytes hit = absurd (ground arith)
  window_hit (pos o) w len off h some_bytes hit =
      let lo : o ≤ off = ground arith in
      let hi : off + len ≤ o + length w = ground arith in
      (window_part o w len off h lo hi, length-window_part w len (off - o) (omega arith))

  from_window-IsPart :
      (s : Budgeted source.State) (len off : ℕ)
      → WindowInv s
      → 0 < len
      → in_window source limits s len off ≡ true
      → IsPart content len off (from_window source limits s len off)
  from_window-IsPart s len off v h hit =
      let (same, full) = window_hit s.start s.window len off v.window_ok h hit in
      record {
        part = same ∙ ap (λ k. take k (drop off content)) (sym full);
        bounded = omega arith;
        complete = λ e. full;
        at_end = λ e. cc;
      }

  take_part :
      (m off : ℕ) (bs : Bytes)
      → bs ≡ take (length bs) (drop off content)
      → m ≤ length bs
      → take m bs ≡ take (length (take m bs)) (drop off content)
  take_part m off bs h le =
      ap (take m) h
      ∙ take-take m (length bs) (drop off content) le
      ∙ ap (λ k. take k (drop off content)) {x = m} {y = length (take m bs)}
          (omega (arith, length-take m bs))

  after_read-IsPart :
      (s : Budgeted source.State) (len off : ℕ) (r : Read) (inner : source.State)
      → off < source.size
      → IsPart content (read_size source limits len off) off r
      → IsPart content len off
          (after_read source limits s len off (read_size source limits len off) (r, inner)).0
  unfolding after_read
  after_read-IsPart s len off r inner inside p = record {
    part = take_part (min len (length r.bytes)) off r.bytes p.part (omega arith);
    bounded = omega (arith, length-take (min len (length r.bytes)) r.bytes);
    complete =
        λ e. ground (arith, length-take (min len (length r.bytes)) r.bytes, p.complete, p.bounded);
    at_end = λ e. ground (
      arith,
      length-take (min len (length r.bytes)) r.bytes,
      p.complete,
      p.at_end,
      p.bounded,
      serves.sized,
    );
  }

  budgeted_read-IsPart :
      (s : Budgeted source.State) (len off : ℕ)
      → WindowInv s
      → IsPart content len off (budgeted_read source limits s len (pos off)).0
  budgeted_read-IsPart s len off v =
      budgeted_read_cases source limits (λ (r, s'). IsPart content len off r) s len off
        (λ empty. record {
          part = refl;
          bounded = omega arith;
          complete = λ e. omega arith;
          at_end = λ e. cc;
        })
        (λ asked past. record {
          part = refl;
          bounded = omega arith;
          complete = λ e. cc;
          at_end = λ e. omega (arith, serves.sized);
        })
        (λ asked inside hit. from_window-IsPart s len off v asked hit)
        (λ over. record {
          part = refl;
          bounded = omega arith;
          complete = λ e. cc;
          at_end = λ e. cc;
        })
        (λ r inner inside e fine. after_read-IsPart s len off r inner inside (
          subst (λ q. IsPart content (read_size source limits len off) off q.0) e
            (serves.reads s.inner (read_size source limits len off) off v.inner_ok)))

  budgeted_read-WindowInv :
      (s : Budgeted source.State) (len off : ℕ)
      → WindowInv s
      → WindowInv (budgeted_read source limits s len (pos off)).1
  unfolding after_read
  budgeted_read-WindowInv s len off v =
      budgeted_read_cases source limits (λ (r, s'). WindowInv s') s len off (λ empty. v)
        (λ asked past. v) (λ asked inside hit. v) (λ over. v)
        (λ r inner inside e fine. record {
          inner_ok =
              subst (λ q. serves.Inv q.1) e
                (serves.keeps s.inner (read_size source limits len off) off v.inner_ok);
          window_ok =
              subst (λ q. q.0.bytes ≡ take (length q.0.bytes) (drop off content)) e
                (serves.reads s.inner (read_size source limits len off) off v.inner_ok).part;
        })

  -- A bounded source over a faithful one is faithful.
  pub budgeted-Serves : Serves content (budgeted source limits)
  budgeted-Serves = record {
    Inv = WindowInv;
    sized = serves.sized;
    keeps = budgeted_read-WindowInv;
    reads = budgeted_read-IsPart;
  }

  pub new_budgeted-Inv : (s : source.State) → serves.Inv s → budgeted-Serves.Inv (new_budgeted s)
  unfolding budgeted-Serves
  new_budgeted-Inv s v = record { inner_ok = v; window_ok = refl }

after_reads-Inv :
    {content : Bytes} (source : Source) (serves : Serves content source) (s : source.State)
    (history : List (ℕ × ℕ))
    → serves.Inv s
    → serves.Inv (after_reads source s history)
unfolding after_reads
after_reads-Inv source serves s [] v = v
after_reads-Inv source serves s ((n, off) ∷ rest) v =
    after_reads-Inv source serves (source.read_at s n (pos off)).1 rest (serves.keeps s n off v)

-- Over a source that reads from fixed contents, with any limits and after any history of reads, a
-- read through a fresh `BudgetedSource` keeps the promise of `io.ReaderAt` for those contents:
-- the window never changes what is read.
pub budgeted_read_transparent :
    (content : Bytes) (source : Source) (serves : Serves content source) (limits : Limits)
    (s : source.State) (history : List (ℕ × ℕ)) (len off : ℕ)
    → serves.Inv s
    → IsPart content len off
        (budgeted_read source limits
          (after_reads (budgeted source limits) (new_budgeted s) history)
          len
          (pos off)).0
unfolding budgeted-Serves
budgeted_read_transparent content source serves limits s history len off v =
    budgeted_read-IsPart content source serves limits _ len off (
      after_reads-Inv (budgeted source limits) (budgeted-Serves content source serves limits)
        (new_budgeted s) history (new_budgeted-Inv content source serves limits s v))

pub bytes_read_at-IsPart :
    (content : Bytes) (n off : ℕ) → IsPart content n off (bytes_read_at content n (pos off))
unfolding bytes_read_at
bytes_read_at-IsPart content n off = elim (Bool-cases (leb (length content) off)) [
  | inl past ↦ rw past (record {
    part = refl;
    bounded = omega arith;
    complete = λ e. cc;
    at_end = λ e. ground arith;
  })
  | inr inside ↦ rw inside (record {
    part = take-length-take n (drop off content);
    bounded = omega (arith, length-take n (drop off content));
    complete = λ e. ground (arith, length-take n (drop off content));
    at_end = λ e. ground (arith, length-take n (drop off content), length-drop off content);
  })
]

-- A `BytesSource` reads from its own bytes.
unfoldable pub bytes-Serves : (content : Bytes) → Serves content (bytes_source content)
bytes-Serves content = record {
  Inv = λ u. Unit;
  sized = refl;
  keeps = λ s n off v. tt;
  reads = λ s n off v. bytes_read_at-IsPart content n off;
}
