-- ===== src/Core/Source.antt =====
-- core/source.go: sized random-access inputs, and the budget on reading them.
pub mod Branches
pub mod Faithful
pub mod Accounting
use mediastub.Prelude.{
  ℕ, zero, suc, ◌+◌, ◌-◌, ◌*◌, ◌^◌, Bool, true, false, ◌&&◌, ◌||◌, Option, none, some, List, [],
  length, take, drop, ltb, leb, ◌==◌, if◌then◌else◌, min, max,
}
use mediastub.Prelude.Int.{ℤ, pos, negsuc, pos_part, neg_part, ltb_ℤ, leb_ℤ, ◌+ℤ◌}
use mediastub.Core.Base.{
  Bytes, Error, Result, ok, err, Read, eof, negative_offset, budget_exceeded, invalid_whence,
  negative_seek,
}

-- The interface `Source`. A read may change the state behind it; the size does not change.
pub record Source : Type 1 where
  pub State : Type 0
  pub size : ℕ
  pub read_at : State → ℕ → ℤ → Read × State

pub record Budget : Type 0 where
  pub max_bytes : ℤ
  pub max_requests : ℤ
  pub window_size : ℤ

abbrev pub default_budget : Budget
default_budget = record {
  max_bytes = pos (16 * 2 ^ 20);
  max_requests = pos 128;
  window_size = pos (256 * 2 ^ 10);
}

pub record Limits : Type 0 where
  pub max_bytes : ℕ
  pub max_requests : ℕ
  pub window_size : ℕ

pub record Stats : Type 0 where
  pub bytes : ℕ
  pub requests : ℕ

-- The fields of a `BudgetedSource` over an inner source in the state `inner`.
pub record Budgeted (Inner : Type 0) : Type 0 where
  pub inner : Inner
  pub stats : Stats
  pub window : Bytes
  pub start : ℤ

-- A limit that is not positive stands for the default.
positive_or : ℤ → ℤ → ℕ
positive_or (pos (suc n)) d = suc n
positive_or (pos zero) d = pos_part d
positive_or (negsuc n) d = pos_part d

unfoldable pub limits_of : Budget → Limits
unfolding positive_or
limits_of b = record {
  max_bytes = positive_or b.max_bytes default_budget.max_bytes;
  max_requests = positive_or b.max_requests default_budget.max_requests;
  window_size = positive_or b.window_size default_budget.window_size;
}

abbrev pub new_budgeted : {Inner : Type 0} → Inner → Budgeted Inner
new_budgeted s = record {
  inner = s;
  stats = record { bytes = 0; requests = 0 };
  window = [];
  start = negsuc 0;
}

abbrev is_eof : Option Error → Bool
is_eof (some eof) = true
is_eof _ = false

abbrev is_none : Option Error → Bool
is_none none = true
is_none (some e) = false

abbrev pub refused : Error → Read
refused e = record { bytes = []; error = some e }

abbrev pub nothing : Read
nothing = record { bytes = []; error = none }

module _ (source : Source) (limits : Limits) where
  abbrev pub in_window : Budgeted source.State → ℕ → ℕ → Bool
  in_window s len off =
      leb_ℤ s.start (pos off) && leb_ℤ (pos (off + len)) (s.start +ℤ pos (length s.window))

  abbrev pub read_size : ℕ → ℕ → ℕ
  read_size len off = min (max len limits.window_size) (source.size - off)

  abbrev pub over_budget : Budgeted source.State → ℕ → Bool
  over_budget s n =
      ltb limits.max_requests (s.stats.requests + 1) || ltb limits.max_bytes (s.stats.bytes + n)

  -- The part of `ReadAt` behind the call of the inner source, which was asked for `n` bytes.
  unfoldable pub after_read :
      Budgeted source.State → ℕ → ℕ → ℕ → Read × source.State → Read × Budgeted source.State
  after_read s len off n (r, inner) =
      let got = length r.bytes in
      let e : Option Error = if is_eof r.error && (got == n) then none else r.error in
      let available = min len got in
      (
        record {
          bytes = take available r.bytes;
          error = if is_none e && ltb available len then some eof else e;
        },
        record {
          inner = inner;
          stats = record { bytes = s.stats.bytes + got; requests = s.stats.requests + 1 };
          window = r.bytes;
          start = pos off;
        },
      )

  -- The place in the window is `off - start`.
  abbrev pub from_window : Budgeted source.State → ℕ → ℕ → Read
  from_window s len off = record {
    bytes = take len (drop (off - pos_part s.start) s.window);
    error = none;
  }

  unfoldable pub budgeted_read : Budgeted source.State → ℕ → ℤ → Read × Budgeted source.State
  unfolding after_read
  budgeted_read s len (negsuc n) = if len == 0 then (nothing, s) else (refused negative_offset, s)
  budgeted_read s len (pos off) =
      let n = read_size len off in
      if len == 0
      then (nothing, s)
      else if leb source.size off
      then (refused eof, s)
      else if in_window s len off
      then (from_window s len off, s)
      else if over_budget s n
      then (refused budget_exceeded, s)
      else after_read s len off n (source.read_at s.inner n (pos off))

  abbrev pub budgeted : Source
  budgeted = record { State = Budgeted source.State; size = source.size; read_at = budgeted_read }

-- `BytesSource`
unfoldable pub bytes_read_at : Bytes → ℕ → ℤ → Read
bytes_read_at s len (negsuc n) = refused eof
bytes_read_at s len (pos off) =
    let bs = take len (drop off s) in
    if leb (length s) off
    then refused eof
    else record { bytes = bs; error = if ltb (length bs) len then some eof else none }

abbrev pub bytes_source : Bytes → Source
bytes_source s = record {
  State = Unit {0};
  size = length s;
  read_at = λ u len off. (bytes_read_at s len off, u);
}
