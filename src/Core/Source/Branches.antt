-- ===== src/Core/Source/Branches.antt =====
-- The five ways through `budgeted_read` at an offset that is not negative.
use mediastub.Prelude.{ℕ, ◌≤◌, ◌<◌, ◌≡◌, refl, true, false, arith, leb, ◌==◌, Bool-cases, inl, inr}
use mediastub.Prelude.Int.{pos}
use mediastub.Core.Base.{Read, eof, budget_exceeded}
use mediastub.Core.Source.{
  Source, Limits, Budgeted, budgeted_read, in_window, read_size, over_budget, from_window,
  after_read, refused, nothing,
}

module _ {ℓ} (source : Source) (limits : Limits) (P : Read × Budgeted source.State → Type ℓ)
    (s : Budgeted source.State) (len off : ℕ) where
  pub budgeted_read_cases :
      (len ≡ 0 → P (nothing, s))
      → (0 < len → source.size ≤ off → P (refused eof, s))
      → (0 < len
          → off < source.size
          → in_window source limits s len off ≡ true
          → P (from_window source limits s len off, s))
      → (over_budget source limits s (read_size source limits len off) ≡ true
          → P (refused budget_exceeded, s))
      → ((r : Read) (inner : source.State)
          → off < source.size
          → source.read_at s.inner (read_size source limits len off) (pos off) ≡ (r, inner)
          → over_budget source limits s (read_size source limits len off) ≡ false
          → P (after_read source limits s len off (read_size source limits len off) (r, inner)))
      → P (budgeted_read source limits s len (pos off))
  unfolding budgeted_read
  budgeted_read_cases empty past hit over read = elim (Bool-cases (len == 0)) [
    | inl e ↦ rw e (empty (ground arith))
    | inr asked ↦ elim (Bool-cases (leb source.size off)) [
      | inl e ↦ rw (asked, e) (past (ground arith) (ground arith))
      | inr inside ↦ elim (Bool-cases (in_window source limits s len off)) [
        | inl e ↦ rw (asked, inside, e) (hit (ground arith) (ground arith) e)
        | inr miss ↦
            elim (Bool-cases (over_budget source limits s (read_size source limits len off))) [
              | inl e ↦ rw (asked, inside, miss, e) (over e)
              | inr fine ↦ rw (asked, inside, miss, fine) (read _ _ (ground arith) refl fine)
            ]
      ]
    ]
  ]
