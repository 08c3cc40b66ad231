-- ===== src/Syncer/Settling.antt =====
-- syncer/media.go: the loop of `waitStableMedia` ends once the deadline has passed.
use mediastub.Prelude.{
  ℕ, zero, suc, ◌+◌, ◌≤◌, ◌≡◌, refl, Bool, true, false, List, [], ◌∷◌, if◌then◌else◌, arith,
}
use mediastub.Syncer.Base.{RelPath, Error, LocalFile, Result, ok, err, same_local_file, not_settled}
use mediastub.Syncer.World.{
  Call, Event, Env, Run, Act, fail, settle_result, handle, ask, asked, wait, expired, stat_local,
}
use mediastub.Syncer.Media.{Host, wait_stable_media}

abbrev is_wait : Call → Bool
is_wait wait = true
is_wait _ = false

-- How many waits have ended.
unfoldable pub waits : List Event → ℕ
waits [] = 0
waits (ev ∷ t) = if is_wait ev.call then suc (waits t) else waits t

-- The clock of a wait that begins in a state: after so many waits the deadline has passed.
abbrev pub Expires : Env → List Event → ℕ → Type 0
Expires env begin rounds = (t : List Event) → waits begin + rounds ≤ waits t → env t expired ≡ true

settle_result_same :
    {A B : Type 0} (r : Result A × Run) (bad : Error → Act B) (good good' : A → Act B) (s : Run)
    → ((a : A) → good a r.1 ≡ good' a r.1)
    → settle_result r bad good s ≡ settle_result r bad good' s
settle_result_same (ok a, t) bad good good' s h = h a
settle_result_same (err e, t) bad good good' s h = refl

if_same :
    {A : Type 0} (b : Bool) (m n n' : Act A) (s : Run)
    → n s ≡ n' s
    → (if b then m else n) s ≡ (if b then m else n') s
if_same true m n n' s h = refl
if_same false m n n' s h = h

if_true :
    {A : Type 0} (b : Bool) (m n n' : Act A) (s : Run)
    → b ≡ true
    → (if b then m else n) s ≡ (if b then m else n') s
if_true true m n n' s h = refl
if_true false m n n' s h = cc

module _ (host : Host) (env : Env) (rel : RelPath) where
  -- The state in which the deadline is looked at, and the one after.
  abbrev looked : Run → Run
  looked s = (ask env (stat_local rel) (ask env wait s).1).1

  abbrev late : Run → Bool
  late s = env (looked s).trace expired

  -- Two waits that agree once the deadline has been looked at.
  round_same :
      (n m : ℕ) (previous : LocalFile) (s : Run)
      → ((current : LocalFile)
          → (if late s then fail not_settled else wait_stable_media host env n rel current)
              (ask env expired (looked s)).1
            ≡ (if late s then fail not_settled else wait_stable_media host env m rel current)
                (ask env expired (looked s)).1)
      → wait_stable_media host env (suc n) rel previous s
        ≡ wait_stable_media host env (suc m) rel previous s
  unfolding wait_stable_media handle asked
  round_same n m previous s h = settle_result_same (ask env wait s) fail _ _ s λ u.
      settle_result_same (ask env (stat_local rel) (ask env wait s).1) fail _ _ (ask env wait s).1
        λ current. if_same (same_local_file previous current) _ _ _ (looked s) (h current)

  -- If the deadline has passed after some number of waits, one at least, then that many rounds are
  -- enough for `waitStableMedia`: with more of them it returns the same and has asked the same.
  pub wait_stable_media_ends :
      (rounds most : ℕ) (previous : LocalFile) (s : Run)
      → rounds ≤ most
      → Expires env s.trace (suc rounds)
      → wait_stable_media host env (suc most) rel previous s
        ≡ wait_stable_media host env (suc rounds) rel previous s
  unfolding waits
  wait_stable_media_ends zero most previous s h clock =
      round_same most 0 previous s
        λ current. if_true (late s) _ _ _ _ (clock (looked s).trace (omega arith))
  wait_stable_media_ends (suc rounds) zero previous s h clock = ground arith
  wait_stable_media_ends (suc rounds) (suc most) previous s h clock =
      round_same (suc most) (suc rounds) previous s λ current.
        if_same (late s) _ _ _ _ (
          wait_stable_media_ends rounds most current _ (omega arith) (λ t g. clock t (omega arith)))
