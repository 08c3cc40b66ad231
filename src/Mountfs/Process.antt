-- ===== src/Mountfs/Process.antt =====
-- mountfs/fuse.go: which processes get stubs.
pub mod Selected
use mediastub.Prelude.{
  ℕ, ◌==◌, Bool, true, false, ◌&&◌, ◌||◌, Option, none, some, List, [], ◌∷◌, if◌then◌else◌,
}
use mediastub.Core.Base.{Bytes}
use mediastub.Mountfs.Base.{Error, wrapped, other, Result, ok, err}

-- `processMatcher`; the sets of numbers are lists.
pub record ProcessMatcher : Type 0 where
  pub patterns : List Bytes
  pub uids : List ℕ
  pub gids : List ℕ

-- `callerInfo` without the name of the process
pub record CallerInfo : Type 0 where
  pub pid : ℕ
  pub uid : ℕ
  pub gid : ℕ

abbrev pub empty_pattern : Error
empty_pattern = other 2

abbrev pub no_identity : Error
no_identity = other 3

abbrev pub no_pid : Error
no_pid = other 4

abbrev every_process : List Bytes
every_process = (b'*' ∷ []) ∷ []

abbrev or_nothing : {A : Type 0} → Option (List A) → List A
or_nothing none = []
or_nothing (some xs) = xs

abbrev is_nil : {A : Type 0} → Option (List A) → Bool
is_nil none = true
is_nil (some xs) = false

-- `_, ok := set[id]`
unfoldable pub has : ℕ → List ℕ → Bool
has n [] = false
has n (m ∷ ms) = n == m || has n ms

-- A line break and a carriage return are cut off the end, in this order.
unfoldable pub trim_suffix : ℕ → Bytes → Bytes
trim_suffix b [] = []
trim_suffix b (x ∷ []) = if x == b then [] else x ∷ []
trim_suffix b (x ∷ y ∷ ys) = x ∷ trim_suffix b (y ∷ ys)

-- `path_match` is `path.Match`.
module _ (path_match : Bytes → Bytes → Result Bool) where
  -- The loop of `newProcessMatcher`: the error of the first bad pattern.
  unfoldable pub bad_pattern : List Bytes → Option Error
  bad_pattern [] = none
  bad_pattern ([] ∷ ps) = some empty_pattern
  bad_pattern ((b ∷ bs) ∷ ps) = elim (path_match (b ∷ bs) []) [
    | err e ↦ some (wrapped e)
    | ok m ↦ bad_pattern ps
  ]

  -- `newProcessMatcher`; `none` is a nil slice.
  unfoldable pub new_process_matcher :
      Option (List Bytes) → Option (List ℕ) → Option (List ℕ) → Result ProcessMatcher
  unfolding bad_pattern
  new_process_matcher patterns uids gids =
      let chosen =
        if is_nil patterns && (is_nil uids && is_nil gids)
        then every_process
        else or_nothing patterns in
      elim (bad_pattern chosen) [
        | some e ↦ err e
        | none ↦ ok (record { patterns = chosen; uids = or_nothing uids; gids = or_nothing gids })
      ]

  -- The loop of `match` over the patterns; the second argument of the first function is its rest.
  abbrev pub after_match : Result Bool → Result Bool → Result Bool
  after_match (err e) rest = err e
  after_match (ok true) rest = ok true
  after_match (ok false) rest = rest

  unfoldable pub match_any : List Bytes → Bytes → Result Bool
  match_any [] comm = ok false
  match_any (p ∷ ps) comm = after_match (path_match p comm) (match_any ps comm)

  -- `match` from the reading of the process's name on
  abbrev match_comm : List Bytes → Result Bytes → Result Bool
  match_comm patterns (err e) = err e
  match_comm patterns (ok line) = match_any patterns (trim_suffix b'\r' (trim_suffix b'\n' line))

  -- `match` from the patterns on
  abbrev pub match_patterns : List Bytes → ℕ → Result Bytes → Result Bool
  match_patterns [] pid comm = ok false
  match_patterns (p ∷ ps) pid comm = if pid == 0 then err no_pid else match_comm (p ∷ ps) comm

  -- `match`: the identity that FUSE gives, if any, and the file `comm` of the process.
  unfoldable pub match_process : ProcessMatcher → Option CallerInfo → Result Bytes → Result Bool
  unfolding match_any has trim_suffix
  match_process m none comm = err no_identity
  match_process m (some caller) comm =
      if has caller.uid m.uids || has caller.gid m.gids
      then ok true
      else match_patterns m.patterns caller.pid comm
