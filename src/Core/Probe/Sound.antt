-- ===== src/Core/Probe/Sound.antt =====
-- What `Probe` returns, over a source that reads from fixed contents.
use mediastub.Prelude.{ℕ, ◌+◌, ◌≤◌, subst, min, arith, length, ◌==◌, All}
use mediastub.Prelude.Int.{pos}
use mediastub.Core.Base.{Bytes, not_media, empty_input}
use mediastub.Core.Source.{
  Source, Budget, Limits, Budgeted, limits_of, new_budgeted, budgeted, budgeted_read, after_read,
  read_size,
}
use mediastub.Core.Source.Branches.{budgeted_read_cases}
use mediastub.Core.Source.Faithful.{Serves, IsPart, budgeted-Serves, new_budgeted-Inv}
use mediastub.Core.Action.Ensures.{
  Ensures, Holds, IsCut, bind-Ensures, pure-Ensures, fail-Ensures, if-Ensures, read-Ensures,
  check_but_eof-Ensures,
}
use mediastub.Core.Plan.{Plan}
use mediastub.Core.Ebml.Digits.{IsByte}
use mediastub.Core.Matroska.Plans.{IsMatroskaStub, probe_matroska-Ensures}
use mediastub.Core.Mp4.Plans.{IsMp4Stub, probe_mp4-Ensures}
use mediastub.Core.Probe.{
  Format, matroska, mp4, Probed, looks_like_matroska, looks_like_mp4, padded, probe_head,
  probe_bounded, probe,
}

abbrev pub IsStubOf : Format → Bytes → Plan → Type 0
IsStubOf matroska content p = IsMatroskaStub content p
IsStubOf mp4 content p = IsMp4Stub content p

-- The plan is one of its format, and the statistics are within the limits.
pub record IsProbed (content : Bytes) (limits : Limits) (r : Probed) : Type 0 where
  pub is_stub : IsStubOf r.format content r.plan
  pub requests_within : r.stats.requests ≤ limits.max_requests
  pub bytes_within : r.stats.bytes ≤ limits.max_bytes

module _ {content : Bytes} (source : Source) (serves : Serves content source)
    (limits : Limits) where
  record IsBounded (s : Budgeted source.State) : Type 0 where
    inner : (budgeted-Serves content source serves limits).Inv s
    inner_ok : serves.Inv s.inner
    requests_within : s.stats.requests ≤ limits.max_requests
    bytes_within : s.stats.bytes ≤ limits.max_bytes

  budgeted_read-IsBounded :
      (s : Budgeted source.State) (len off : ℕ)
      → IsBounded s
      → IsBounded (budgeted_read source limits s len (pos off)).1
  unfolding after_read
  budgeted_read-IsBounded s len off v =
      budgeted_read_cases source limits
        (λ (r, s'). (budgeted-Serves content source serves limits).Inv s' → IsBounded s') s len off
        (λ empty c. v) (λ asked past c. v) (λ asked inside hit c. v) (λ over c. v)
        (λ r inner inside e fine c.
          let n = read_size source limits len off in
          record {
            inner = c;
            inner_ok = subst (λ q. serves.Inv q.1) e (serves.keeps s.inner n off v.inner_ok);
            requests_within = ground arith;
            bytes_within =
                subst (λ q. s.stats.bytes + length q.0.bytes ≤ limits.max_bytes) e
                  (ground (arith, (serves.reads s.inner n off v.inner_ok).bounded));
          })
        ((budgeted-Serves content source serves limits).keeps s len off v.inner)

  bounded-Serves : Serves content (budgeted source limits)
  bounded-Serves = record {
    Inv = IsBounded;
    sized = (budgeted-Serves content source serves limits).sized;
    keeps = budgeted_read-IsBounded;
    reads = λ s n off v. (budgeted-Serves content source serves limits).reads s n off v.inner;
  }

IsPlanned : Bytes → Format × Plan → Type 0
IsPlanned content (format, plan) = IsStubOf format content plan

probe_head-Ensures :
    (content : Bytes) (bytes : All IsByte content) (source : Source)
    (serves : Serves content source) (head : Bytes)
    → Ensures serves.Inv (IsPlanned content) (probe_head source head)
unfolding probe_head IsPlanned
probe_head-Ensures content bytes source serves head =
    if-Ensures serves.Inv (IsPlanned content) (looks_like_matroska head) _ _
      (λ e.
        bind-Ensures serves.Inv (IsMatroskaStub content) (IsPlanned content) _ _
          (probe_matroska-Ensures content bytes source serves)
          (λ p v. pure-Ensures serves.Inv (IsPlanned content) (matroska, p) v))
      (λ e.
        if-Ensures serves.Inv (IsPlanned content) (looks_like_mp4 head) _ _
          (λ e.
            bind-Ensures serves.Inv (IsMp4Stub content) (IsPlanned content) _ _
              (probe_mp4-Ensures content source serves)
              (λ p v. pure-Ensures serves.Inv (IsPlanned content) (mp4, p) v))
          (λ e. fail-Ensures serves.Inv (IsPlanned content) not_media))

module _ (content : Bytes) (bytes : All IsByte content) (source : Source)
    (serves : Serves content source) (budget : Budget) where
  probe_bounded-Ensures :
      Ensures
        (IsBounded source serves (limits_of budget))
        (IsProbed content (limits_of budget))
        (probe_bounded source budget)
  unfolding probe_bounded bounded-Serves IsPlanned
  probe_bounded-Ensures =
      let Inv = IsBounded source serves (limits_of budget) in
      let Good = IsProbed content (limits_of budget) in
      let bounded = budgeted source (limits_of budget) in
      let inner : Serves content bounded = bounded-Serves source serves (limits_of budget) in
      if-Ensures Inv Good (min source.size 64 == 0) _ _ (λ e. fail-Ensures Inv Good empty_input)
        (λ e.
          bind-Ensures Inv (IsPlanned content) Good _ _
            (bind-Ensures Inv (IsCut content (min source.size 64) 0) (IsPlanned content) _ _
              (bind-Ensures Inv (IsPart content (min source.size 64) 0)
                (IsCut content (min source.size 64) 0) _ _
                (read-Ensures content bounded inner (min source.size 64) 0)
                (λ r p. check_but_eof-Ensures Inv content (min source.size 64) 0 r p))
              (λ head c.
                probe_head-Ensures content bytes bounded inner (padded (min source.size 64) head)))
            (λ fp v s w. (
              w,
              record {
                is_stub = v;
                requests_within = w.requests_within;
                bytes_within = w.bytes_within;
              },
            )))

  -- Over a source that reads from `content`, a file of bytes, and with any budget, `Probe` ends. A
  -- result that it returns has a plan that is a stub of `content` of the result's format, and
  -- statistics within the limits of the budget.
  pub probe_sound :
      (s : source.State)
      → serves.Inv s
      → Holds (IsProbed content (limits_of budget)) (probe source budget s)
  unfolding probe
  probe_sound s v =
      (probe_bounded-Ensures (new_budgeted s) (record {
        inner = new_budgeted-Inv content source serves (limits_of budget) s v;
        inner_ok = v;
        requests_within = omega arith;
        bytes_within = omega arith;
      })).1
