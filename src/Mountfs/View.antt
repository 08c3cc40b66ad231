-- ===== src/Mountfs/View.antt =====
-- mountfs/service.go: views of an object, and which one a caller gets. mountfs/fuse.go: reads of it.
pub mod Reading
use mediastub.Prelude.{
  ℕ, ◌-◌, ltb, ◌==◌, Bool, true, false, ◌&&◌, ◌||◌, Option, none, some, List, [], ◌∷◌,
  if◌then◌else◌,
}
use mediastub.Prelude.Int.{ℤ, pos, negsuc, pos_part, leb_ℤ}
use mediastub.Prelude.Maps.{same}
use mediastub.Core.Base.{Bytes, Read, eof, failed}
use mediastub.Core.Base as Core
use mediastub.Core.Plan.{Plan, read_at}
use mediastub.Origin.{Object, read_full_at}
use mediastub.Syncer.Base.{Entry}
use mediastub.Mountfs.Base.{
  Error, core, other, Result, ok, err, is_canceled, Errno, errno, is_eof, einval,
}
use mediastub.Mountfs.Cache.{OnError, passthrough, fail, Service, Decision}

-- `Config`, whose strings are bytes. The budget is handed to `Probe`.
pub record Config : Type 0 where
  pub includes : List Bytes
  pub on_error : Bytes
  pub cache_entries : ℤ

-- `NewService` fails for a missing origin, a policy that it does not know, and patterns that the
-- package pathfilter refuses.
abbrev pub no_origin : Error
no_origin = other 0

abbrev pub bad_policy : Error
bad_policy = other 1

abbrev passthrough_word : Bytes
passthrough_word = b'p' ∷ b'a' ∷ b's' ∷ b's' ∷ b't' ∷ b'h' ∷ b'r' ∷ b'o' ∷ b'u' ∷ b'g' ∷ b'h' ∷ []

abbrev fail_word : Bytes
fail_word = b'f' ∷ b'a' ∷ b'i' ∷ b'l' ∷ []

unfoldable pub policy_of : Bytes → Option OnError
policy_of word =
    if same word [] || same word passthrough_word
    then some passthrough
    else if same word fail_word
    then some fail
    else none

-- `if config.CacheEntries <= 0`
abbrev pub entries_or_default : ℤ → ℕ
entries_or_default n = if leb_ℤ n (pos 0) then 1024 else pos_part n

-- The end of `NewService`, behind the policy and the matcher
abbrev pub service_of : Config → Option OnError → Result (Bytes → Bool) → Result Service
service_of config none matcher = err bad_policy
service_of config (some policy) (err e) = err e
service_of config (some policy) (ok matches) = ok (record {
  matches = matches;
  on_error = policy;
  cache_entries = entries_or_default config.cache_entries;
})

-- `NewService`; `new_matcher` is `pathfilter.New`, and the second argument says that there is an origin.
unfoldable pub new_service : (List Bytes → Result (Bytes → Bool)) → Bool → Config → Result Service
unfolding policy_of
new_service new_matcher false config = err no_origin
new_service new_matcher true config =
    service_of config (policy_of config.on_error) (new_matcher config.includes)

-- `View`: a `planView` or an `originView`, with the state of its object.
pub data View : Type 1 where
  plan_view : Plan → View
  origin_view : (object : Object) → object.State → ℤ → View

abbrev pub view_size : View → ℤ
view_size (plan_view plan) = pos plan.logical_size
view_size (origin_view object s size) = size

abbrev keep_object : (object : Object) → ℤ → Read × object.State → Read × View
keep_object object size (r, s) = (r, origin_view object s size)

-- `ReadAt` of the two views
unfoldable pub view_read_at : View → ℕ → ℤ → Read × View
view_read_at (plan_view plan) len off = (read_at plan len off, plan_view plan)
view_read_at (origin_view object s size) len off =
    keep_object object size (read_full_at object s len off)

-- What `Open` of the origin answers.
pub data Opened : Type 1 where
  opened : (object : Object) → object.State → Opened
  not_opened : Error → Opened

-- A view and whether it is a stub, or an error.
pub data Viewed : Type 1 where
  viewed : View → Bool → Viewed
  not_viewed : Error → Viewed

-- The end of `OpenView`, which opens the object.
unfoldable pub pass_through : Entry → Opened → Viewed
pass_through e (opened object s) = viewed (origin_view object s e.size) false
pass_through e (not_opened cause) = not_viewed cause

-- `OpenView`, with what `decide` and `Open` answer where it calls them.
unfoldable pub open_view : Entry → Bool → Decision → Opened → Viewed
open_view e false decision object = pass_through e object
open_view e true decision object = elim decision.error [
  | some cause ↦ not_viewed cause
  | none ↦ elim decision.plan [
    | some plan ↦ viewed (plan_view plan) true
    | none ↦ pass_through e object
  ]
]

-- What the kernel gets: bytes, or an error number.
pub data Answer : Type 0 where
  bytes : Bytes → Answer
  refused : Errno → Answer

-- Errors of `io` and of the package core, as a caller sees them. A reader's own errors have numbers.
abbrev pub of_core : (ℕ → Error) → Core.Error → Error
of_core cause (failed n) = cause n
of_core cause e = core e

module _ (cause : ℕ → Error) where
  abbrev answered : Read → Answer
  answered r = elim r.error [
    | none ↦ bytes r.bytes
    | some e ↦
        if is_eof (of_core cause e) then bytes r.bytes else refused (errno (some (of_core cause e)))
  ]

  abbrev answer_of : Read × View → Answer × View
  answer_of (r, view) = (answered r, view)

  -- `dest`, cut to what the file has behind the offset, which is below its size.
  abbrev pub cut_to : ℕ → ℤ → ℕ → ℕ
  cut_to len size off = let remain = pos_part size - off in if ltb remain len then remain else len

  -- `fileHandle.Read`
  unfoldable pub file_read : View → ℕ → ℤ → Answer × View
  file_read view len (negsuc n) = (refused einval, view)
  file_read view len (pos off) =
      if leb_ℤ (view_size view) (pos off) || (len == 0)
      then (bytes [], view)
      else answer_of (view_read_at view (cut_to len (view_size view) off) (pos off))
