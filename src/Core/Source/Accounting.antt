-- ===== src/Core/Source/Accounting.antt =====
-- What `BudgetedSource` counts, and the limits that it keeps.
use mediastub.Prelude.{ℕ, ◌+◌, ◌≤◌, ◌≡◌, refl, subst, List, [], ◌∷◌, arith, length}
use mediastub.Prelude.Int.{pos}
use mediastub.Core.Base.{Bytes}
use mediastub.Core.Source.{
  Source, Limits, Budgeted, budgeted_read, budgeted, new_budgeted, read_size, after_read,
}
use mediastub.Core.Source.Branches.{budgeted_read_cases}
use mediastub.Core.Source.Faithful.{Serves, after_reads}

-- The source below, with a record of the byte counts of the reads that it was asked for.
abbrev pub logged : Source → Source
logged source = record {
  State = source.State × List ℕ;
  size = source.size;
  read_at =
      λ (s, log) n off. let (r, s') = source.read_at s n off in (r, (s', length r.bytes ∷ log));
}

pub total : List ℕ → ℕ
total [] = 0
total (n ∷ ns) = n + total ns

module _ (source : Source) (limits : Limits) where
  record Counted (s : Budgeted (logged source).State) : Type 0 where
    requests_counted : s.stats.requests ≡ length s.inner.1
    bytes_counted : s.stats.bytes ≡ total s.inner.1

  budgeted_read-Counted :
      (s : Budgeted (logged source).State) (len off : ℕ)
      → Counted s
      → Counted (budgeted_read (logged source) limits s len (pos off)).1
  unfolding after_read total
  budgeted_read-Counted s len off v =
      budgeted_read_cases (logged source) limits (λ (r, s'). Counted s') s len off (λ empty. v)
        (λ asked past. v) (λ asked inside hit. v) (λ over. v)
        (λ r inner inside e fine.
          subst
            (λ q.
              Counted
                (after_read (logged source) limits s len off
                  (read_size (logged source) limits len off) q).1)
            e (record { requests_counted = omega arith; bytes_counted = omega arith }))

module _ {content : Bytes} (source : Source) (serves : Serves content source)
    (limits : Limits) where
  record WithinLimits (s : Budgeted (logged source).State) : Type 0 where
    inner_ok : serves.Inv s.inner.0
    counted : Counted source limits s
    requests_within : s.stats.requests ≤ limits.max_requests
    bytes_within : s.stats.bytes ≤ limits.max_bytes

  budgeted_read-WithinLimits :
      (s : Budgeted (logged source).State) (len off : ℕ)
      → WithinLimits s
      → WithinLimits (budgeted_read (logged source) limits s len (pos off)).1
  unfolding after_read
  budgeted_read-WithinLimits s len off v =
      let counted' = budgeted_read-Counted source limits s len off v.counted in
      budgeted_read_cases (logged source) limits
        (λ (r, s'). Counted source limits s' → WithinLimits s') s len off (λ empty c. v)
        (λ asked past c. v) (λ asked inside hit c. v) (λ over c. v)
        (λ r inner inside e fine c.
          let n = read_size (logged source) limits len off in
          record {
            inner_ok = subst (λ q. serves.Inv q.1.0) e (serves.keeps s.inner.0 n off v.inner_ok);
            counted = c;
            requests_within = ground arith;
            bytes_within =
                subst (λ q. s.stats.bytes + length q.0.bytes ≤ limits.max_bytes) e
                  (ground (arith, (serves.reads s.inner.0 n off v.inner_ok).bounded));
          })
        counted'

  after_reads-WithinLimits :
      (s : Budgeted (logged source).State) (history : List (ℕ × ℕ))
      → WithinLimits s
      → WithinLimits (after_reads (budgeted (logged source) limits) s history)
  unfolding after_reads
  after_reads-WithinLimits s [] v = v
  after_reads-WithinLimits s ((n, off) ∷ rest) v =
      after_reads-WithinLimits (budgeted_read (logged source) limits s n (pos off)).1 rest
        (budgeted_read-WithinLimits s n off v)

-- Whatever is read through a fresh `BudgetedSource` at offsets that are not negative, over a source
-- that reads from fixed contents, the source below is asked at most
-- `max_requests` times and returns at most `max_bytes` bytes in all, and the statistics are the
-- number of these reads and the sum of their bytes.
pub budgeted_within_limits :
    (content : Bytes) (source : Source) (serves : Serves content source) (limits : Limits)
    (s : source.State) (history : List (ℕ × ℕ))
    → serves.Inv s
    → let t = after_reads (budgeted (logged source) limits) (new_budgeted (s, [])) history in
      (t.stats.requests ≡ length t.inner.1)
      × (t.stats.bytes ≡ total t.inner.1)
      × (length t.inner.1 ≤ limits.max_requests)
      × (total t.inner.1 ≤ limits.max_bytes)
unfolding total
budgeted_within_limits content source serves limits s history v =
    let w = after_reads-WithinLimits source serves limits (new_budgeted (s, [])) history (record {
      inner_ok = v;
      counted = record { requests_counted = refl; bytes_counted = refl };
      requests_within = omega arith;
      bytes_within = omega arith;
    }) in
    ground (
      arith, w.counted.requests_counted, w.counted.bytes_counted, w.requests_within, w.bytes_within,
    )
