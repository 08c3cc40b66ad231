-- ===== src/Pathfilter/Included.antt =====
-- Which entries a mounted service with a matcher of this package may show as stubs.
use mediastub.Prelude.{
  ℕ, ◌⊎◌, inl, inr, ◌||◌, ◌++◌, ◌==◌, arith, Bool-cases, ◌≡◌, ◌↔◌, refl, sym, ap, ◌∙◌, Bool, true,
  false, ◌&&◌, Option, none, some, List, [], ◌∷◌,
}
use mediastub.Core.Base.{Bytes}
use mediastub.Paths.{has_slash, base}
use mediastub.Syncer.Base.{Entry}
use mediastub.Mountfs.Base.{Error, Result, ok, err}
use mediastub.Mountfs.Cache.{OnError, Service, is_positive, stub_candidate}
use mediastub.Mountfs.View.{Config, policy_of, service_of, new_service}
use mediastub.Pathfilter.{invalid_pattern, target, or_match, match_path, matcher_of, new_matcher}

-- The byte is somewhere in the string.
abbrev pub Contains : ℕ → Bytes → Type 0
Contains c s = (before : Bytes) × (behind : Bytes) × (s ≡ before ++ c ∷ behind)

has_slash-Contains : (s : Bytes) → has_slash s ≡ true → Contains b'/' s
unfolding has_slash
has_slash-Contains [] h = absurd cc
has_slash-Contains (c ∷ cs) h = elim (Bool-cases (c == b'/')) [
  | inl slash ↦ ([], cs, ap (λ x. x ∷ cs) {x = c} {y = b'/'} (ground arith))
  | inr other ↦
      let (before, behind, e) = has_slash-Contains cs (rw other at h) in
      (c ∷ before, behind, ap (λ xs. c ∷ xs) e)
]

has_slash_behind : (before behind : Bytes) → has_slash (before ++ b'/' ∷ behind) ≡ true
unfolding has_slash
has_slash_behind [] behind = refl
has_slash_behind (c ∷ cs) behind = rw (has_slash_behind cs behind) (or_true (c == b'/'))
  where
    or_true : (b : Bool) → (b || true) ≡ true
    or_true true = refl
    or_true false = refl

module _ (path_match : Bytes → Bytes → Result Bool) where
  -- A pattern with a slash matches the path, one without matches its last element.
  abbrev pub Selects : Bytes → Bytes → Type 0
  Selects p relative_path =
      (Contains b'/' p × (path_match p relative_path ≡ ok true))
      ⊎ ((¬ Contains b'/' p) × (path_match p (base relative_path) ≡ ok true))

  target-Selects :
      (p relative_path : Bytes)
      → path_match p (target path_match p relative_path) ≡ ok true
      → Selects p relative_path
  target-Selects p relative_path h = elim (Bool-cases (has_slash p)) [
    | inl slash ↦ inl (has_slash-Contains p slash, rw slash at h)
    | inr plain ↦ inr (
      (λ (before, behind, e).
          apart (sym (has_slash_behind before behind) ∙ sym (ap has_slash e) ∙ plain)),
      rw plain at h,
    )
  ]
    where
      apart : true ≡ false → ⊥
      apart q = cc

  Selects-target :
      (p relative_path : Bytes)
      → Selects p relative_path
      → path_match p (target path_match p relative_path) ≡ ok true
  Selects-target p relative_path (inl ((before, behind, e), h)) =
      let slash : has_slash p ≡ true = ap has_slash e ∙ has_slash_behind before behind in rw slash h
  Selects-target p relative_path (inr (plain, h)) = elim (Bool-cases (has_slash p)) [
    | inl slash ↦ absurd (plain (has_slash-Contains p slash))
    | inr no_slash ↦ rw no_slash h
  ]

  -- One of the patterns selects the path.
  pub data Included (relative_path : Bytes) : List Bytes → Type 0 where
    here : {p : Bytes} {ps : List Bytes} → Selects p relative_path → Included relative_path (p ∷ ps)
    there :
        {p : Bytes} {ps : List Bytes} → Included relative_path ps → Included relative_path (p ∷ ps)

  match_path-Included :
      (relative_path : Bytes) (ps : List Bytes)
      → match_path path_match ps relative_path ≡ true
      → Included relative_path ps
  unfolding match_path
  match_path-Included relative_path [] h = absurd cc
  match_path-Included relative_path (p ∷ ps) h =
      by_result (path_match p (target path_match p relative_path)) refl
        (match_path-Included relative_path ps) h
    where
      by_result :
          (r : Result Bool)
          → path_match p (target path_match p relative_path) ≡ r
          → (match_path path_match ps relative_path ≡ true → Included relative_path ps)
          → or_match path_match r (match_path path_match ps relative_path) ≡ true
          → Included relative_path (p ∷ ps)
      by_result (ok true) e rest q = here (target-Selects p relative_path e)
      by_result (ok false) e rest q = there (rest q)
      by_result (err cause) e rest q = there (rest q)

  or_match-true : (r : Result Bool) → or_match path_match r true ≡ true
  or_match-true (ok true) = refl
  or_match-true (ok false) = refl
  or_match-true (err cause) = refl

  Included-match_path :
      (relative_path : Bytes) (ps : List Bytes)
      → Included relative_path ps
      → match_path path_match ps relative_path ≡ true
  unfolding match_path
  Included-match_path relative_path _ (here {p} {ps} e) = rw (Selects-target p relative_path e) refl
  Included-match_path relative_path _ (there {p} {ps} h) =
      rw (Included-match_path relative_path ps h)
        (or_match-true (path_match p (target path_match p relative_path)))

  matches_of : Result Service → Bytes → Bool
  matches_of (ok service) = service.matches
  matches_of (err e) = λ p. false

  both : (a b : Bool) → (a && b) ≡ true → (a ≡ true) × (b ≡ true)
  both true b h = (refl, h)
  both false b h = cc

  -- The matcher of a service that was made from patterns
  new_service_matches :
      (config : Config) (service : Service)
      → new_service (new_matcher path_match) true config ≡ ok service
      → service.matches ≡ match_path path_match config.includes
  unfolding new_service new_matcher matches_of
  new_service_matches config service h =
      by_policy (policy_of config.on_error) (invalid_pattern path_match config.includes) h
    where
      by_policy :
          (policy : Option OnError) (bad : Option Error)
          → service_of config policy (matcher_of path_match config.includes bad) ≡ ok service
          → service.matches ≡ match_path path_match config.includes
      by_policy none bad q = absurd cc
      by_policy (some policy) (some e) q = absurd cc
      by_policy (some policy) none q = ap matches_of (sym q)

  -- A service that `NewService` makes of patterns considers an entry for a stub exactly if its size is
  -- positive and one of the patterns matches its path or, if the pattern has no slash, the last element.
  pub new_service-Included :
      (config : Config) (service : Service) (e : Entry)
      → new_service (new_matcher path_match) true config ≡ ok service
      → (stub_candidate service e ≡ true)
        ↔ ((is_positive e.size ≡ true) × Included e.path config.includes)
  unfolding stub_candidate
  new_service-Included config service e made = (selected, considered)
    where
      same_matches : service.matches e.path ≡ match_path path_match config.includes e.path
      same_matches = ap (λ f. f e.path) (new_service_matches config service made)

      selected :
          (is_positive e.size && service.matches e.path) ≡ true
          → (is_positive e.size ≡ true) × Included e.path config.includes
      selected h =
          let (positive, matched) = both (is_positive e.size) (service.matches e.path) h in
          (positive, match_path-Included e.path config.includes (sym same_matches ∙ matched))

      considered :
          (is_positive e.size ≡ true) × Included e.path config.includes
          → (is_positive e.size && service.matches e.path) ≡ true
      considered (positive, h) =
          rw (positive, same_matches) (Included-match_path e.path config.includes h)
