-- ===== src/Mountfs/Cache/Entering.antt =====
-- What the first step of `decide` can be.
use mediastub.Prelude.{ℕ, suc, ◌≡◌, ◌⊎◌, inl, inr, refl, none, some, Bool-cases, Option-cases}
use mediastub.Prelude.Maps.{lookup, insert}
use mediastub.Syncer.Base.{Entry}
use mediastub.Mountfs.Base.{fingerprint}
use mediastub.Mountfs.Cache.{
  Service, new_call, Shared, no_stub, replace, stub_candidate, cached_call,
}
use mediastub.Mountfs.Cache.Callers.{waiting, leading, returned, enter}

module _ (service : Service) where
  pub enter_cases :
      (e : Entry) (shared : Shared)
      → (enter service e shared ≡ (returned e no_stub, shared))
        ⊎ ((c : ℕ) × (lookup (fingerprint e) shared.cache ≡ some c)
            × (enter service e shared ≡ (waiting e c, shared)))
        ⊎ ((lookup (fingerprint e) shared.cache ≡ none)
            × (enter service e shared ≡ (
              leading e shared.next,
              record {
                cache = insert (fingerprint e) shared.next shared.cache;
                calls = replace shared.calls shared.next new_call;
                next = suc shared.next;
              },
            )))
  unfolding enter
  enter_cases e shared = elim (Bool-cases (stub_candidate service e)) [
    | inr q ↦ inl (rw q refl)
    | inl q ↦ elim (Option-cases (lookup (fingerprint e) shared.cache)) [
      | inl g ↦ inr (inr (g, rw (q, cached_call, g) refl))
      | inr (c, g) ↦ inr (inl (c, g, rw (q, cached_call, g) refl))
    ]
  ]
