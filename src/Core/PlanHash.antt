-- ===== src/Core/PlanHash.antt =====
-- core/plan.go: what `Plan.Hash` feeds to the digest.
pub mod Injective
use mediastub.Prelude.{
  ℕ, ◌+◌, ◌^◌, ◌<◌, ◌≤◌, ◌≡◌, refl, sym, ap, ◌∙◌, List, [], ◌∷◌, ◌++◌, arith, length, take, drop,
  All, length-append, take-append_of_length, drop-append_of_length,
}
use mediastub.Core.Base.{Bytes}
use mediastub.Core.Plan.{Extent, Plan}
use mediastub.Core.Ebml.{be_bytes, be_value}

-- The loop over the extents.
unfoldable pub hash_extents : List Extent → Bytes
hash_extents [] = []
hash_extents (e ∷ es) =
    be_bytes 8 e.offset ++ (be_bytes 8 (length e.bytes) ++ (e.bytes ++ hash_extents es))

-- All that is written to the digest of `Hash`, in this order.
unfoldable pub hash_input : Plan → Bytes
unfolding hash_extents
hash_input p = be_bytes 8 p.logical_size ++ hash_extents p.extents
