-- ===== src/Mountfs/Process/Selected.antt =====
-- Which callers `match` selects.
use mediastub.Prelude.{
  ◌==◌, ◌≡◌, ◌≢◌, ◌↔◌, refl, sym, subst, Bool, true, false, ◌||◌, some, List, [], ◌∷◌,
  if◌then◌else◌, Bool-cases, inl, inr, arith,
}
use mediastub.Core.Base.{Bytes}
use mediastub.Mountfs.Base.{Result, ok, err}
use mediastub.Mountfs.Process.{
  ProcessMatcher, CallerInfo, has, trim_suffix, match_any, after_match, match_patterns,
  match_process, no_pid,
}

-- The name of a process, without the end of its line
abbrev pub name_of : Bytes → Bytes
name_of line = trim_suffix b'\r' (trim_suffix b'\n' line)

module _ (path_match : Bytes → Bytes → Result Bool) where
  -- A pattern matches, and no pattern before it does or is bad.
  pub data Matches (name : Bytes) : List Bytes → Type 0 where
    here : {p : Bytes} {ps : List Bytes} → path_match p name ≡ ok true → Matches name (p ∷ ps)
    later :
        {p : Bytes} {ps : List Bytes}
        → path_match p name ≡ ok false
        → Matches name ps
        → Matches name (p ∷ ps)

  -- The caller is selected by one of its numbers, or by the name of its process.
  pub data IsSelected (m : ProcessMatcher) (caller : CallerInfo) : Result Bytes → Type 0 where
    by_number :
        {comm : Result Bytes}
        → (has caller.uid m.uids || has caller.gid m.gids) ≡ true
        → IsSelected m caller comm
    by_name :
        (line : Bytes)
        → caller.pid ≢ 0
        → Matches (name_of line) m.patterns
        → IsSelected m caller (ok line)

  match_any-Matches :
      (ps : List Bytes) (name : Bytes) → match_any path_match ps name ≡ ok true → Matches name ps
  unfolding match_any
  match_any-Matches [] name h = absurd cc
  match_any-Matches (p ∷ ps) name h =
      by_result (path_match p name) refl (match_any-Matches ps name) h
    where
      by_result :
          (r : Result Bool)
          → path_match p name ≡ r
          → (match_any path_match ps name ≡ ok true → Matches name ps)
          → after_match path_match r (match_any path_match ps name) ≡ ok true
          → Matches name (p ∷ ps)
      by_result (ok true) e rest q = here e
      by_result (ok false) e rest q = later e (rest q)
      by_result (err cause) e rest q = absurd cc

  Matches-match_any :
      (name : Bytes) (ps : List Bytes) → Matches name ps → match_any path_match ps name ≡ ok true
  unfolding match_any
  Matches-match_any name _ (here e) = rw e refl
  Matches-match_any name _ (later {ps} e rest) = rw e (Matches-match_any name ps rest)

  match_patterns-IsSelected :
      (m : ProcessMatcher) (caller : CallerInfo) (ps : List Bytes) (comm : Result Bytes)
      → m.patterns ≡ ps
      → match_patterns path_match ps caller.pid comm ≡ ok true
      → IsSelected m caller comm
  match_patterns-IsSelected m caller [] comm e h = absurd cc
  match_patterns-IsSelected m caller (p ∷ ps) (err cause) e h = absurd (refused (caller.pid == 0) h)
    where
      refused :
          (b : Bool) → ◌≡◌ {A = Result Bool} (if b then err no_pid else err cause) (ok true) → ⊥
      refused true h = cc
      refused false h = cc
  match_patterns-IsSelected m caller (p ∷ ps) (ok line) e h = elim (Bool-cases (caller.pid == 0)) [
    | inl q ↦ absurd (no_answer (rw q at h))
    | inr q ↦ by_name line (ground (arith, q)) (
        subst (λ v. Matches (name_of line) v) (sym e)
          (match_any-Matches (p ∷ ps) (name_of line) (rw q at h)))
  ]
    where
      no_answer : ◌≡◌ {A = Result Bool} (err no_pid) (ok true) → ⊥
      no_answer h = cc

  patterns_match :
      (caller : CallerInfo) (line : Bytes) (ps : List Bytes)
      → Matches (name_of line) ps
      → caller.pid ≢ 0
      → match_patterns path_match ps caller.pid (ok line) ≡ ok true
  patterns_match caller line [] h ne = elim h [ ]
  patterns_match caller line (p ∷ ps) h ne = elim (Bool-cases (caller.pid == 0)) [
    | inl q ↦ absurd (ne (ground (arith, q)))
    | inr q ↦ rw q (Matches-match_any (name_of line) (p ∷ ps) h)
  ]

  IsSelected-match_process :
      (m : ProcessMatcher) (caller : CallerInfo) {comm : Result Bytes}
      → IsSelected m caller comm
      → match_process path_match m (some caller) comm ≡ ok true
  unfolding match_process
  IsSelected-match_process m caller (by_number h) = rw h refl
  IsSelected-match_process m caller (by_name line ne h) =
      elim (Bool-cases (has caller.uid m.uids || has caller.gid m.gids)) [
        | inl n ↦ rw n refl
        | inr n ↦ rw n (patterns_match caller line m.patterns h ne)
      ]

  -- `match` answers that a caller is selected exactly if one of the numbers of the caller is listed, or
  -- the process has a number and a name that is matched by a pattern, before any bad one.
  pub match_process-IsSelected :
      (m : ProcessMatcher) (caller : CallerInfo) (comm : Result Bytes)
      → (match_process path_match m (some caller) comm ≡ ok true) ↔ IsSelected m caller comm
  unfolding match_process
  match_process-IsSelected m caller comm = (selected, λ h. IsSelected-match_process m caller h)
    where
      selected : match_process path_match m (some caller) comm ≡ ok true → IsSelected m caller comm
      selected h = elim (Bool-cases (has caller.uid m.uids || has caller.gid m.gids)) [
        | inl n ↦ by_number n
        | inr n ↦ match_patterns-IsSelected m caller m.patterns comm refl (rw n at h)
      ]
