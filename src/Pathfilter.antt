-- ===== src/Pathfilter.antt =====
-- pathfilter/matcher.go: the patterns that select media files.
pub mod Included
use mediastub.Prelude.{Bool, true, false, Option, none, some, List, [], ◌∷◌, if◌then◌else◌}
use mediastub.Prelude.Maps.{same}
use mediastub.Core.Base.{Bytes}
use mediastub.Paths.{base, has_slash, split}
use mediastub.Mountfs.Base.{Error, wrapped, Result, ok, err}

-- `ParseCommaSeparated`; `trim_space` is `strings.TrimSpace`.
module _ (trim_space : Bytes → Bytes) where
  unfoldable pub kept_items : List Bytes → List Bytes
  kept_items [] = []
  kept_items (item ∷ items) =
      let rest = kept_items items in
      if same (trim_space item) [] then rest else trim_space item ∷ rest

  unfoldable pub parse_comma_separated : Bytes → List Bytes
  unfolding kept_items
  parse_comma_separated value = kept_items (split b',' value)

-- `path_match` is `path.Match`.
module _ (path_match : Bytes → Bytes → Result Bool) where
  abbrev or_bad : Result Bool → Option Error → Option Error
  or_bad (ok matched) rest = rest
  or_bad (err e) rest = some (wrapped e)

  -- The loop of `New`: the error of the first bad pattern.
  unfoldable pub invalid_pattern : List Bytes → Option Error
  invalid_pattern [] = none
  invalid_pattern (p ∷ ps) = or_bad (path_match p []) (invalid_pattern ps)

  -- What a pattern is matched with
  abbrev pub target : Bytes → Bytes → Bytes
  target pattern relative_path = if has_slash pattern then relative_path else base relative_path

  -- An error of `path.Match` counts as no match.
  abbrev pub or_match : Result Bool → Bool → Bool
  or_match (ok true) rest = true
  or_match _ rest = rest

  -- `Match`
  unfoldable pub match_path : List Bytes → Bytes → Bool
  match_path [] relative_path = false
  match_path (p ∷ ps) relative_path =
      or_match (path_match p (target p relative_path)) (match_path ps relative_path)

  abbrev pub matcher_of : List Bytes → Option Error → Result (Bytes → Bool)
  matcher_of patterns (some e) = err e
  matcher_of patterns none = ok (match_path patterns)

  -- `New`: a matcher is its method `Match`.
  unfoldable pub new_matcher : List Bytes → Result (Bytes → Bool)
  unfolding invalid_pattern match_path
  new_matcher patterns = matcher_of patterns (invalid_pattern patterns)
